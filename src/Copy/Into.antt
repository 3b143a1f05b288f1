-- ===== src/Copy/Into.antt =====
-- `DeepCopyInto` and `DeepCopy` of the types that have types of Kubernetes.
use cluster_api_provider_vmw.Api.Machine.{Condition}
use cluster_api_provider_vmw.Copy.Structs.{
  Pointer, ListMeta, StoredMeta, StoredReference, StoredEthernet, StoredNetwork, StoredMachineSpec,
  StoredMachineStatus, StoredMachine, StoredTemplateResource, StoredTemplateSpec, StoredTemplate,
  StoredCluster,
}
use cluster_api_provider_vmw.Copy.Slots.{
  text_slot, flag_slot, number_slot, texts_slot, addresses_slot, reference_slot, folder_slot,
  folders_slot, adapter_slot, adapters_slot, route_slot, routes_slot, ethernet_slot, ethernets_slot,
  network_slot, vnc_slot,
}
use cluster_api_provider_vmw.Copy.Slots.Objects.{
  hardware_slot, initialization_slot, machine_spec_slot, machine_status_slot, machine_slot,
  machines_slot, machine_list_slot, template_resource_slot, template_spec_slot,
  template_status_slot, template_slot, templates_slot, template_list_slot, cluster_spec_slot,
  cluster_status_slot, cluster_slot, clusters_slot, cluster_list_slot,
}
use cluster_api_provider_vmw.Copy.Heap.{Cmd, pure, ◌>>=◌, copy_pointer, each}
use cluster_api_provider_vmw.Copy.Values.{folder_into, adapter_into, route_into, vnc_into}

-- The deep copies of the Kubernetes types, which are called here.
pub record Foreign : Type 0 where
  pub meta_into : StoredMeta → Cmd StoredMeta
  pub resource_meta_into : StoredMeta → Cmd StoredMeta
  pub list_meta_into : ListMeta → Cmd ListMeta
  pub reference_into : StoredReference → Cmd StoredReference
  pub condition_into : Condition → Cmd Condition

module _ (F : Foreign) where
  unfoldable pub ethernet_into : StoredEthernet → Cmd StoredEthernet
  ethernet_into m = do
    dhcp4 ← copy_pointer pure m.dhcp4
    dhcp6 ← copy_pointer pure m.dhcp6
    type_ip ← copy_pointer pure m.type_ip
    ipam_as_node_ip ← copy_pointer pure m.ipam_as_node_ip
    ipam_ref ← copy_pointer F.reference_into m.ipam_ref
    ipam_address ← copy_pointer pure m.ipam_address
    nameservers ← copy_pointer pure m.nameservers
    routes ← copy_pointer (each route_into) m.routes
    pure (record m {
      dhcp4 = dhcp4;
      dhcp6 = dhcp6;
      type_ip = type_ip;
      ipam_as_node_ip = ipam_as_node_ip;
      ipam_ref = ipam_ref;
      ipam_address = ipam_address;
      nameservers = nameservers;
      routes = routes;
    })

  unfoldable pub ethernet_deep_copy : Pointer StoredEthernet → Cmd (Pointer StoredEthernet)
  ethernet_deep_copy = copy_pointer ethernet_into

  unfoldable pub network_into : StoredNetwork → Cmd StoredNetwork
  network_into m = do
    adapters ← copy_pointer (each adapter_into) m.adapters
    ethernets ← copy_pointer (each ethernet_into) m.ethernets
    pure (record m { adapters = adapters; ethernets = ethernets })

  unfoldable pub network_deep_copy : Pointer StoredNetwork → Cmd (Pointer StoredNetwork)
  network_deep_copy = copy_pointer network_into

  unfoldable pub machine_spec_into : StoredMachineSpec → Cmd StoredMachineSpec
  machine_spec_into m = do
    provider_id ← copy_pointer pure m.provider_id
    vm_id ← copy_pointer pure m.vm_id
    cpu ← copy_pointer pure m.cpu
    memory ← copy_pointer pure m.memory
    network_config ← copy_pointer pure m.network_config
    network ← copy_pointer network_into m.network
    shared_folders ← copy_pointer (each folder_into) m.shared_folders
    vnc ← copy_pointer vnc_into m.vnc
    pure (record m {
      provider_id = provider_id;
      vm_id = vm_id;
      cpu = cpu;
      memory = memory;
      network_config = network_config;
      network = network;
      shared_folders = shared_folders;
      vnc = vnc;
    })

  unfoldable pub machine_spec_deep_copy :
      Pointer StoredMachineSpec → Cmd (Pointer StoredMachineSpec)
  machine_spec_deep_copy = copy_pointer machine_spec_into

  unfoldable pub machine_status_into : StoredMachineStatus → Cmd StoredMachineStatus
  machine_status_into m = do
    addresses ← copy_pointer pure m.addresses
    conditions ← copy_pointer (each F.condition_into) m.conditions
    state ← copy_pointer pure m.state
    network_adapters ← copy_pointer (each adapter_into) m.network_adapters
    shared_folders ← copy_pointer (each folder_into) m.shared_folders
    vnc ← copy_pointer vnc_into m.vnc
    pure (record m {
      addresses = addresses;
      conditions = conditions;
      state = state;
      network_adapters = network_adapters;
      shared_folders = shared_folders;
      vnc = vnc;
    })

  unfoldable pub machine_status_deep_copy :
      Pointer StoredMachineStatus → Cmd (Pointer StoredMachineStatus)
  machine_status_deep_copy = copy_pointer machine_status_into

  unfoldable pub machine_into : StoredMachine → Cmd StoredMachine
  machine_into m = do
    meta ← F.meta_into m.meta
    spec ← machine_spec_into m.spec
    status ← machine_status_into m.status
    pure (record m { meta = meta; spec = spec; status = status })

  unfoldable pub machine_deep_copy : Pointer StoredMachine → Cmd (Pointer StoredMachine)
  machine_deep_copy = copy_pointer machine_into

  unfoldable pub template_resource_into : StoredTemplateResource → Cmd StoredTemplateResource
  template_resource_into m = do
    meta ← F.resource_meta_into m.meta
    spec ← machine_spec_into m.spec
    pure (record m { meta = meta; spec = spec })

  unfoldable pub template_resource_deep_copy :
      Pointer StoredTemplateResource → Cmd (Pointer StoredTemplateResource)
  template_resource_deep_copy = copy_pointer template_resource_into

  unfoldable pub template_spec_into : StoredTemplateSpec → Cmd StoredTemplateSpec
  template_spec_into m = do
    template ← template_resource_into m.template
    pure (record m { template = template })

  unfoldable pub template_spec_deep_copy :
      Pointer StoredTemplateSpec → Cmd (Pointer StoredTemplateSpec)
  template_spec_deep_copy = copy_pointer template_spec_into

  unfoldable pub template_into : StoredTemplate → Cmd StoredTemplate
  template_into m = do
    meta ← F.meta_into m.meta
    spec ← template_spec_into m.spec
    pure (record m { meta = meta; spec = spec })

  unfoldable pub template_deep_copy : Pointer StoredTemplate → Cmd (Pointer StoredTemplate)
  template_deep_copy = copy_pointer template_into

  unfoldable pub cluster_into : StoredCluster → Cmd StoredCluster
  cluster_into m = do meta ← F.meta_into m.meta; pure (record m { meta = meta })

  unfoldable pub cluster_deep_copy : Pointer StoredCluster → Cmd (Pointer StoredCluster)
  cluster_deep_copy = copy_pointer cluster_into
