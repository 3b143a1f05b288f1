-- ===== src/Process/Scheme.antt =====
-- api/v1alpha1/groupversion_info.go, the `init` functions of the types, and that of cmd/main.go.
use cluster_api_provider_vmw.Base.{String, List, [], ◌∷◌, ◌++◌}
use cluster_api_provider_vmw.Program.{M, ◌>>◌}
use cluster_api_provider_vmw.Process.{
  GroupVersion, Registration, client_go, cluster_api, ipam, known_types, SetupCall, register, Host,
  must,
}

-- `GroupVersion`
abbrev pub group_version : GroupVersion
group_version = record { group = "infrastructure.cluster.x-k8s.io"; version = "v1alpha1" }

abbrev pub cluster_types : List String
cluster_types = "VDCluster" ∷ "VDClusterList" ∷ []

abbrev pub machine_types : List String
machine_types = "VDMachine" ∷ "VDMachineList" ∷ []

abbrev pub template_types : List String
template_types = "VDMachineTemplate" ∷ "VDMachineTemplateList" ∷ []

-- `objectTypes` after the three `init` functions, which run in the order of the files' names.
abbrev pub object_types : List String
object_types = cluster_types ++ machine_types ++ template_types

-- `addKnownTypes`, which `AddToScheme` calls.
abbrev pub add_known_types : Registration
add_known_types = known_types group_version object_types

-- The `init` of main.go.
unfoldable pub init_scheme : Host → M (List SetupCall) (Unit {0})
init_scheme F =
    must F (register client_go)
    >> must F (register add_known_types)
    >> must F (register cluster_api)
    >> must F (register ipam)
