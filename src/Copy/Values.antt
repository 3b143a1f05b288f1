-- ===== src/Copy/Values.antt =====
-- `DeepCopyInto` and `DeepCopy` of the types without types of Kubernetes. `DeepCopyInto` is a command
-- that takes `*in` and comes to what is left in `*out`, which starts as `*in`.
use cluster_api_provider_vmw.Api.Machine.{VdHardware, InitializationStatus}
use cluster_api_provider_vmw.Api.Cluster.{VdClusterSpec, VdClusterStatus}
use cluster_api_provider_vmw.Copy.Structs.{
  Pointer, StoredFolder, StoredAdapter, StoredRoute, StoredVnc, TemplateStatus,
}
use cluster_api_provider_vmw.Copy.Slots.{
  text_slot, flag_slot, number_slot, texts_slot, addresses_slot, reference_slot, folder_slot,
  folders_slot, adapter_slot, adapters_slot, route_slot, routes_slot, ethernet_slot, ethernets_slot,
  network_slot, vnc_slot,
}
use cluster_api_provider_vmw.Copy.Slots.Objects.{
  hardware_slot, initialization_slot, machine_spec_slot, machine_status_slot, machine_slot,
  machines_slot, machine_list_slot, template_resource_slot, template_spec_slot,
  template_status_slot, template_slot, templates_slot, template_list_slot, cluster_spec_slot,
  cluster_status_slot, cluster_slot, clusters_slot, cluster_list_slot,
}
use cluster_api_provider_vmw.Copy.Heap.{Cmd, pure, ◌>>=◌, copy_pointer}

unfoldable pub hardware_into : VdHardware → Cmd VdHardware
hardware_into m = pure m

unfoldable pub hardware_deep_copy : Pointer VdHardware → Cmd (Pointer VdHardware)
hardware_deep_copy = copy_pointer hardware_into

unfoldable pub initialization_into : InitializationStatus → Cmd InitializationStatus
initialization_into m = pure m

unfoldable pub initialization_deep_copy :
    Pointer InitializationStatus → Cmd (Pointer InitializationStatus)
initialization_deep_copy = copy_pointer initialization_into

unfoldable pub cluster_spec_into : VdClusterSpec → Cmd VdClusterSpec
cluster_spec_into m = pure m

unfoldable pub cluster_spec_deep_copy : Pointer VdClusterSpec → Cmd (Pointer VdClusterSpec)
cluster_spec_deep_copy = copy_pointer cluster_spec_into

unfoldable pub cluster_status_into : VdClusterStatus → Cmd VdClusterStatus
cluster_status_into m = pure m

unfoldable pub cluster_status_deep_copy : Pointer VdClusterStatus → Cmd (Pointer VdClusterStatus)
cluster_status_deep_copy = copy_pointer cluster_status_into

unfoldable pub template_status_into : TemplateStatus → Cmd TemplateStatus
template_status_into m = pure m

unfoldable pub template_status_deep_copy : Pointer TemplateStatus → Cmd (Pointer TemplateStatus)
template_status_deep_copy = copy_pointer template_status_into

unfoldable pub folder_into : StoredFolder → Cmd StoredFolder
folder_into m = do flags ← copy_pointer pure m.flags; pure (record m { flags = flags })

unfoldable pub folder_deep_copy : Pointer StoredFolder → Cmd (Pointer StoredFolder)
folder_deep_copy = copy_pointer folder_into

unfoldable pub adapter_into : StoredAdapter → Cmd StoredAdapter
adapter_into m = do
  type ← copy_pointer pure m.type
  vmnet ← copy_pointer pure m.vmnet
  virtual_dev ← copy_pointer pure m.virtual_dev
  pure (record m { type = type; vmnet = vmnet; virtual_dev = virtual_dev })

unfoldable pub adapter_deep_copy : Pointer StoredAdapter → Cmd (Pointer StoredAdapter)
adapter_deep_copy = copy_pointer adapter_into

unfoldable pub route_into : StoredRoute → Cmd StoredRoute
route_into m = do via ← copy_pointer pure m.via; pure (record m { via = via })

unfoldable pub route_deep_copy : Pointer StoredRoute → Cmd (Pointer StoredRoute)
route_deep_copy = copy_pointer route_into

unfoldable pub vnc_into : StoredVnc → Cmd StoredVnc
vnc_into m = do
  enabled ← copy_pointer pure m.enabled
  port ← copy_pointer pure m.port
  password ← copy_pointer pure m.password
  generate_port ← copy_pointer pure m.generate_port
  generate_password ← copy_pointer pure m.generate_password
  pure (record m {
    enabled = enabled;
    port = port;
    password = password;
    generate_port = generate_port;
    generate_password = generate_password;
  })

unfoldable pub vnc_deep_copy : Pointer StoredVnc → Cmd (Pointer StoredVnc)
vnc_deep_copy = copy_pointer vnc_into
