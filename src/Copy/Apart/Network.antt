-- ===== src/Copy/Apart/Network.antt =====
-- The network of a machine is copied in full.
use cluster_api_provider_vmw.Api.Machine.{VdNetworkEthernet, VdNetwork}
use cluster_api_provider_vmw.Copy.Structs.{StoredEthernet, StoredNetwork}
use cluster_api_provider_vmw.Copy.Slots.{
  text_slot, flag_slot, number_slot, texts_slot, addresses_slot, reference_slot, folder_slot,
  folders_slot, adapter_slot, adapters_slot, route_slot, routes_slot, ethernet_slot, ethernets_slot,
  network_slot, vnc_slot,
}
use cluster_api_provider_vmw.Copy.Slots.Objects.{
  hardware_slot, initialization_slot, machine_spec_slot, machine_status_slot, machine_slot,
  machines_slot, machine_list_slot, template_resource_slot, template_spec_slot,
  template_status_slot, template_slot, templates_slot, template_list_slot, cluster_spec_slot,
  cluster_status_slot, cluster_slot, clusters_slot, cluster_list_slot,
}
use cluster_api_provider_vmw.Copy.Shows.{Extends, Same, Rows, Points}
use cluster_api_provider_vmw.Copy.Shows.Structs.{
  ShowsMeta, ShowsReference, ShowsAdapter, ShowsRoute, ShowsEthernet, ShowsNetwork,
}
use cluster_api_provider_vmw.Copy.Heap.{Heap}
use cluster_api_provider_vmw.Copy.Rules.{IsCopy, Made-start, Copied-step, Copied-pure, pure-IsCopy}
use cluster_api_provider_vmw.Copy.Rules.Pointers.{
  list-IsCopy, each-IsCopy, pointer-IsCopy, slice-IsCopy,
}
use cluster_api_provider_vmw.Copy.Into.{
  Foreign, ethernet_into, ethernet_deep_copy, network_into, network_deep_copy,
}
use cluster_api_provider_vmw.Copy.Apart.Values.{adapter_into-IsCopy, route_into-IsCopy}

-- What is relied on of the deep copies of the Kubernetes types: they copy in full.
pub record IsForeignCopy (F : Foreign) : Type 0 where
  pub meta_copy : IsCopy ShowsMeta F.meta_into
  pub resource_meta_copy : IsCopy ShowsMeta F.resource_meta_into
  pub list_meta_copy : IsCopy Same F.list_meta_into
  pub reference_copy : IsCopy ShowsReference F.reference_into
  pub condition_copy : IsCopy Same F.condition_into

module _ (F : Foreign) (laws : IsForeignCopy F) where
  ethernet-stable :
      (h g : Heap) (m : StoredEthernet) (v : VdNetworkEthernet)
      → Extends h g
      → ShowsEthernet h m v
      → ShowsEthernet g m v
  ethernet-stable h g m v e k = (
    k.0,
    (pointer-IsCopy Same _ pure-IsCopy).stable h g m.dhcp4 v.dhcp4 e k.1,
    (pointer-IsCopy Same _ pure-IsCopy).stable h g m.dhcp6 v.dhcp6 e k.2,
    (pointer-IsCopy Same _ pure-IsCopy).stable h g m.type_ip v.type_ip e k.3,
    (pointer-IsCopy Same _ pure-IsCopy).stable h g m.ipam_as_node_ip v.ipam_as_node_ip e k.4,
    (pointer-IsCopy ShowsReference _ laws.reference_copy).stable h g m.ipam_ref v.ipam_ref e k.5,
    (pointer-IsCopy Same _ pure-IsCopy).stable h g m.ipam_address v.ipam_address e k.6,
    (list-IsCopy).stable h g m.nameservers v.nameservers e k.7,
    (slice-IsCopy ShowsRoute _ route_into-IsCopy).stable h g m.routes v.routes e k.8,
  )

  pub ethernet_into-IsCopy : IsCopy ShowsEthernet (ethernet_into F)
  unfolding ethernet_into
  ethernet_into-IsCopy = record {
    stable = ethernet-stable;
    copies = λ h m v k.
        Copied-step (pointer-IsCopy Same _ pure-IsCopy) (Made-start h) m.dhcp4 v.dhcp4 k.1
          λ x1 g1 q1.
            Copied-step (pointer-IsCopy Same _ pure-IsCopy) q1 m.dhcp6 v.dhcp6 k.2 λ x2 g2 q2.
              Copied-step (pointer-IsCopy Same _ pure-IsCopy) q2 m.type_ip v.type_ip k.3 λ x3 g3 q3.
                Copied-step (pointer-IsCopy Same _ pure-IsCopy) q3 m.ipam_as_node_ip
                  v.ipam_as_node_ip k.4
                  λ x4 g4 q4.
                    Copied-step (pointer-IsCopy ShowsReference _ laws.reference_copy) q4 m.ipam_ref
                      v.ipam_ref k.5
                      λ x5 g5 q5.
                        Copied-step (pointer-IsCopy Same _ pure-IsCopy) q5 m.ipam_address
                          v.ipam_address k.6
                          λ x6 g6 q6.
                            Copied-step (list-IsCopy) q6 m.nameservers v.nameservers k.7 λ x7 g7 q7.
                              Copied-step (slice-IsCopy ShowsRoute _ route_into-IsCopy) q7 m.routes
                                v.routes k.8
                                λ x8 g8 q8.
                                  Copied-pure q8
                                    (record m {
                                      dhcp4 = x1;
                                      dhcp6 = x2;
                                      type_ip = x3;
                                      ipam_as_node_ip = x4;
                                      ipam_ref = x5;
                                      ipam_address = x6;
                                      nameservers = x7;
                                      routes = x8;
                                    })
                                    λ l r. (
                                      k.0, r.0.0.0.0.0.0.0.1, r.0.0.0.0.0.0.1, r.0.0.0.0.0.1,
                                      r.0.0.0.0.1, r.0.0.0.1, r.0.0.1, r.0.1, r.1,
                                    );
  }

  pub ethernet_deep_copy-IsCopy : IsCopy (Points ShowsEthernet) (ethernet_deep_copy F)
  unfolding ethernet_deep_copy
  ethernet_deep_copy-IsCopy = pointer-IsCopy ShowsEthernet _ ethernet_into-IsCopy

  network-stable :
      (h g : Heap) (m : StoredNetwork) (v : VdNetwork)
      → Extends h g
      → ShowsNetwork h m v
      → ShowsNetwork g m v
  network-stable h g m v e k = (
    (pointer-IsCopy (Rows ShowsAdapter) _ (each-IsCopy ShowsAdapter _ adapter_into-IsCopy)).stable h
        g m.adapters v.adapters e k.0,
    (slice-IsCopy ShowsEthernet _ ethernet_into-IsCopy).stable h g m.ethernets v.ethernets e k.1,
  )

  pub network_into-IsCopy : IsCopy ShowsNetwork (network_into F)
  unfolding network_into
  network_into-IsCopy = record {
    stable = network-stable;
    copies = λ h m v k.
        Copied-step
          (pointer-IsCopy (Rows ShowsAdapter) _ (each-IsCopy ShowsAdapter _ adapter_into-IsCopy))
          (Made-start h) m.adapters v.adapters k.0
          λ x1 g1 q1.
            Copied-step (slice-IsCopy ShowsEthernet _ ethernet_into-IsCopy) q1 m.ethernets
              v.ethernets k.1
              λ x2 g2 q2.
                Copied-pure q2 (record m { adapters = x1; ethernets = x2 }) λ l r. (r.0.1, r.1);
  }

  pub network_deep_copy-IsCopy : IsCopy (Points ShowsNetwork) (network_deep_copy F)
  unfolding network_deep_copy
  network_deep_copy-IsCopy = pointer-IsCopy ShowsNetwork _ network_into-IsCopy
