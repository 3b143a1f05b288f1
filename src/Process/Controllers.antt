-- ===== src/Process/Controllers.antt =====
-- `SetupWithManager` of the two controllers.
use cluster_api_provider_vmw.Base.{true, false, Option, List}
use cluster_api_provider_vmw.Remote.{Error}
use cluster_api_provider_vmw.Program.{M}
use cluster_api_provider_vmw.Process.{ControllerSetup, SetupCall, complete, Host, ask}
use cluster_api_provider_vmw.Process.Scheme.{group_version}

-- A `Cluster` is mapped to its VDCluster, unless it is paused.
abbrev pub cluster_controller : ControllerSetup
cluster_controller = record {
  object = "VDCluster";
  watched = "Cluster";
  mapped = ("VDCluster", group_version);
  only_unpaused = true;
  name = "vdcluster";
}

-- A `Machine` is mapped to its VDMachine.
abbrev pub machine_controller : ControllerSetup
machine_controller = record {
  object = "VDMachine";
  watched = "Machine";
  mapped = ("VDMachine", group_version);
  only_unpaused = false;
  name = "vdmachine";
}

-- `VDClusterReconciler.SetupWithManager`
unfoldable pub setup_cluster : Host → M (List SetupCall) (Option Error)
setup_cluster F = ask F (complete cluster_controller)

-- `VDMachineReconciler.SetupWithManager`
unfoldable pub setup_machine : Host → M (List SetupCall) (Option Error)
setup_machine F = ask F (complete machine_controller)
