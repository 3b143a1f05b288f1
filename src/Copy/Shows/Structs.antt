-- ===== src/Copy/Shows/Structs.antt =====
-- What a variable of each type shows.
use cluster_api_provider_vmw.Base.{◌≡◌, List}
use cluster_api_provider_vmw.Api.Machine.{
  ObjectMeta, ObjectReference, VdSharedFolder, VdNetworkAdapter, VdNetworkRoute, VdNetworkEthernet,
  VdNetwork, Vnc, VdMachineSpec, VdMachineStatus, VdMachine,
}
use cluster_api_provider_vmw.Api.Cluster.{VdCluster}
use cluster_api_provider_vmw.Api.Template.{
  VdMachineTemplateResource, VdMachineTemplateSpec, VdMachineTemplate,
}
use cluster_api_provider_vmw.Copy.Structs.{
  TypeMeta, ListMeta, StoredMeta, StoredReference, StoredFolder, StoredAdapter, StoredRoute,
  StoredEthernet, StoredNetwork, StoredVnc, StoredMachineSpec, StoredMachineStatus, StoredMachine,
  StoredTemplateResource, StoredTemplateSpec, StoredTemplate, StoredCluster, StoredList,
}
use cluster_api_provider_vmw.Copy.Slots.{
  text_slot, flag_slot, number_slot, texts_slot, addresses_slot, reference_slot, folder_slot,
  folders_slot, adapter_slot, adapters_slot, route_slot, routes_slot, ethernet_slot, ethernets_slot,
  network_slot, vnc_slot,
}
use cluster_api_provider_vmw.Copy.Slots.Objects.{
  hardware_slot, initialization_slot, machine_spec_slot, machine_status_slot, machine_slot,
  machines_slot, machine_list_slot, template_resource_slot, template_spec_slot,
  template_status_slot, template_slot, templates_slot, template_list_slot, cluster_spec_slot,
  cluster_status_slot, cluster_slot, clusters_slot, cluster_list_slot,
}
use cluster_api_provider_vmw.Copy.Shows.{Relation, Same, Rows, Points, Spans}

abbrev pub ShowsMeta : Relation StoredMeta ObjectMeta
ShowsMeta h m v =
    (m.name ≡ v.name)
    × (m.namespace ≡ v.namespace)
    × (m.deleted ≡ v.deleted)
    × Spans Same h m.finalizers v.finalizers

abbrev pub ShowsReference : Relation StoredReference ObjectReference
ShowsReference h m v = (m.kind ≡ v.kind) × (m.name ≡ v.name) × Points Same h m.api_group v.api_group

abbrev pub ShowsFolder : Relation StoredFolder VdSharedFolder
ShowsFolder h m v =
    (m.folder_id ≡ v.folder_id) × (m.host_path ≡ v.host_path) × Points Same h m.flags v.flags

abbrev pub ShowsAdapter : Relation StoredAdapter VdNetworkAdapter
ShowsAdapter h m v =
    Points Same h m.type v.type
    × Points Same h m.vmnet v.vmnet
    × Points Same h m.virtual_dev v.virtual_dev

abbrev pub ShowsRoute : Relation StoredRoute VdNetworkRoute
ShowsRoute h m v = (m.to ≡ v.to) × Points Same h m.via v.via

abbrev pub ShowsVnc : Relation StoredVnc Vnc
ShowsVnc h m v =
    Points Same h m.enabled v.enabled
    × Points Same h m.port v.port
    × Points Same h m.password v.password
    × Points Same h m.generate_port v.generate_port
    × Points Same h m.generate_password v.generate_password

abbrev pub ShowsEthernet : Relation StoredEthernet VdNetworkEthernet
ShowsEthernet h m v =
    (m.name ≡ v.name)
    × Points Same h m.dhcp4 v.dhcp4
    × Points Same h m.dhcp6 v.dhcp6
    × Points Same h m.type_ip v.type_ip
    × Points Same h m.ipam_as_node_ip v.ipam_as_node_ip
    × Points ShowsReference h m.ipam_ref v.ipam_ref
    × Points Same h m.ipam_address v.ipam_address
    × Spans Same h m.nameservers v.nameservers
    × Spans ShowsRoute h m.routes v.routes

abbrev pub ShowsNetwork : Relation StoredNetwork VdNetwork
ShowsNetwork h m v =
    Points (Rows ShowsAdapter) h m.adapters v.adapters
    × Spans ShowsEthernet h m.ethernets v.ethernets

abbrev pub ShowsMachineSpec : Relation StoredMachineSpec VdMachineSpec
ShowsMachineSpec h m v =
    (m.template_id ≡ v.template_id)
    × Points Same h m.provider_id v.provider_id
    × Points Same h m.vm_id v.vm_id
    × Points Same h m.cpu v.cpu
    × Points Same h m.memory v.memory
    × Points Same h m.network_config v.network_config
    × Points ShowsNetwork h m.network v.network
    × Spans ShowsFolder h m.shared_folders v.shared_folders
    × Points ShowsVnc h m.vnc v.vnc

abbrev pub ShowsMachineStatus : Relation StoredMachineStatus VdMachineStatus
ShowsMachineStatus h m v =
    (m.ready ≡ v.ready)
    × (m.initialization ≡ v.initialization)
    × (m.hardware ≡ v.hardware)
    × Spans Same h m.addresses v.addresses
    × Spans Same h m.conditions v.conditions
    × Points Same h m.state v.state
    × Points (Rows ShowsAdapter) h m.network_adapters v.network_adapters
    × Spans ShowsFolder h m.shared_folders v.shared_folders
    × Points ShowsVnc h m.vnc v.vnc

abbrev pub ShowsMachine : Relation StoredMachine (TypeMeta × VdMachine)
ShowsMachine h m v =
    (m.type_meta ≡ v.0)
    × ShowsMeta h m.meta v.1.meta
    × ShowsMachineSpec h m.spec v.1.spec
    × ShowsMachineStatus h m.status v.1.status

abbrev pub ShowsTemplateResource : Relation StoredTemplateResource VdMachineTemplateResource
ShowsTemplateResource h m v = ShowsMeta h m.meta v.meta × ShowsMachineSpec h m.spec v.spec

abbrev pub ShowsTemplateSpec : Relation StoredTemplateSpec VdMachineTemplateSpec
ShowsTemplateSpec h m v = ShowsTemplateResource h m.template v.template

abbrev pub ShowsTemplate : Relation StoredTemplate (TypeMeta × VdMachineTemplate)
ShowsTemplate h m v =
    (m.type_meta ≡ v.0) × ShowsMeta h m.meta v.1.meta × ShowsTemplateSpec h m.spec v.1.spec

abbrev pub ShowsCluster : Relation StoredCluster (TypeMeta × VdCluster)
ShowsCluster h m v =
    (m.type_meta ≡ v.0)
    × (m.spec ≡ v.1.spec)
    × (m.status ≡ v.1.status)
    × ShowsMeta h m.meta v.1.meta

abbrev pub ShowsMachineList :
    Relation (StoredList StoredMachine) (TypeMeta × ListMeta × List (TypeMeta × VdMachine))
ShowsMachineList h m v = (m.type_meta ≡ v.0) × Same h m.meta v.1 × Spans ShowsMachine h m.items v.2

abbrev pub ShowsTemplateList :
    Relation (StoredList StoredTemplate) (TypeMeta × ListMeta × List (TypeMeta × VdMachineTemplate))
ShowsTemplateList h m v =
    (m.type_meta ≡ v.0) × Same h m.meta v.1 × Spans ShowsTemplate h m.items v.2

abbrev pub ShowsClusterList :
    Relation (StoredList StoredCluster) (TypeMeta × ListMeta × List (TypeMeta × VdCluster))
ShowsClusterList h m v = (m.type_meta ≡ v.0) × Same h m.meta v.1 × Spans ShowsCluster h m.items v.2
