-- ===== src/Copy/Shows/Objects.antt =====
-- What is shown by the pointer that an object has.
use cluster_api_provider_vmw.Base.{◌≡◌, Option, none, some, List}
use cluster_api_provider_vmw.Api.Machine.{VdMachine}
use cluster_api_provider_vmw.Api.Cluster.{VdCluster}
use cluster_api_provider_vmw.Api.Template.{VdMachineTemplate}
use cluster_api_provider_vmw.Copy.Structs.{Ref, TypeMeta, ListMeta}
use cluster_api_provider_vmw.Copy.Slots.{Slot}
use cluster_api_provider_vmw.Copy.Slots.{
  text_slot, flag_slot, number_slot, texts_slot, addresses_slot, reference_slot, folder_slot,
  folders_slot, adapter_slot, adapters_slot, route_slot, routes_slot, ethernet_slot, ethernets_slot,
  network_slot, vnc_slot,
}
use cluster_api_provider_vmw.Copy.Slots.Objects.{
  hardware_slot, initialization_slot, machine_spec_slot, machine_status_slot, machine_slot,
  machines_slot, machine_list_slot, template_resource_slot, template_spec_slot,
  template_status_slot, template_slot, templates_slot, template_list_slot, cluster_spec_slot,
  cluster_status_slot, cluster_slot, clusters_slot, cluster_list_slot,
}
use cluster_api_provider_vmw.Copy.Shows.{Relation, Lies}
use cluster_api_provider_vmw.Copy.Shows.Structs.{
  ShowsMachine, ShowsMachineList, ShowsTemplate, ShowsTemplateList, ShowsCluster, ShowsClusterList,
}
use cluster_api_provider_vmw.Copy.Objects.{
  Kind, vd_machine, vd_machine_list, vd_machine_template, vd_machine_template_list, vd_cluster,
  vd_cluster_list, Stored, Object,
}

-- The values that the objects show.
abbrev pub Value : Kind → Type 0
Value vd_machine = TypeMeta × VdMachine
Value vd_machine_list = TypeMeta × ListMeta × List (TypeMeta × VdMachine)
Value vd_machine_template = TypeMeta × VdMachineTemplate
Value vd_machine_template_list = TypeMeta × ListMeta × List (TypeMeta × VdMachineTemplate)
Value vd_cluster = TypeMeta × VdCluster
Value vd_cluster_list = TypeMeta × ListMeta × List (TypeMeta × VdCluster)

abbrev pub Shown : (k : Kind) → Relation (Stored k) (Value k)
Shown vd_machine = ShowsMachine
Shown vd_machine_list = ShowsMachineList
Shown vd_machine_template = ShowsTemplate
Shown vd_machine_template_list = ShowsTemplateList
Shown vd_cluster = ShowsCluster
Shown vd_cluster_list = ShowsClusterList

abbrev pub slot_of : (k : Kind) → Slot (Stored k)
slot_of vd_machine = machine_slot
slot_of vd_machine_list = machine_list_slot
slot_of vd_machine_template = template_slot
slot_of vd_machine_template_list = template_list_slot
slot_of vd_cluster = cluster_slot
slot_of vd_cluster_list = cluster_list_slot

-- An object has a pointer to a variable of its type.
unfoldable pub ShowsObject : (k : Kind) → Relation (Option Object) (Option (Value k))
ShowsObject k h none none = Unit {0}
ShowsObject k h none (some v) = ⊥
ShowsObject k h (some o) none = ⊥
ShowsObject k h (some o) (some v) =
    (p : Ref (Stored k)) × (o ≡ record { kind = k; pointer = p })
    × Lies (Shown k) ⦃s = slot_of k⦄ h p v
