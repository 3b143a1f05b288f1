-- ===== src/Copy/Apart/Spec.antt =====
-- The specification and the status of a machine are copied in full.
use cluster_api_provider_vmw.Api.Machine.{VdMachineSpec, VdMachineStatus}
use cluster_api_provider_vmw.Copy.Structs.{StoredMachineSpec, StoredMachineStatus}
use cluster_api_provider_vmw.Copy.Slots.{
  text_slot, flag_slot, number_slot, texts_slot, addresses_slot, reference_slot, folder_slot,
  folders_slot, adapter_slot, adapters_slot, route_slot, routes_slot, ethernet_slot, ethernets_slot,
  network_slot, vnc_slot,
}
use cluster_api_provider_vmw.Copy.Slots.Objects.{
  hardware_slot, initialization_slot, machine_spec_slot, machine_status_slot, machine_slot,
  machines_slot, machine_list_slot, template_resource_slot, template_spec_slot,
  template_status_slot, template_slot, templates_slot, template_list_slot, cluster_spec_slot,
  cluster_status_slot, cluster_slot, clusters_slot, cluster_list_slot,
}
use cluster_api_provider_vmw.Copy.Shows.{Extends, Same, Rows, Points}
use cluster_api_provider_vmw.Copy.Shows.Structs.{
  ShowsFolder, ShowsAdapter, ShowsVnc, ShowsNetwork, ShowsMachineSpec, ShowsMachineStatus,
}
use cluster_api_provider_vmw.Copy.Heap.{Heap}
use cluster_api_provider_vmw.Copy.Rules.{IsCopy, Made-start, Copied-step, Copied-pure, pure-IsCopy}
use cluster_api_provider_vmw.Copy.Rules.Pointers.{
  list-IsCopy, each-IsCopy, pointer-IsCopy, slice-IsCopy,
}
use cluster_api_provider_vmw.Copy.Into.{
  Foreign, machine_spec_into, machine_spec_deep_copy, machine_status_into, machine_status_deep_copy,
}
use cluster_api_provider_vmw.Copy.Apart.Values.{
  folder_into-IsCopy, adapter_into-IsCopy, vnc_into-IsCopy,
}
use cluster_api_provider_vmw.Copy.Apart.Network.{IsForeignCopy, network_into-IsCopy}

module _ (F : Foreign) (laws : IsForeignCopy F) where
  machine_spec-stable :
      (h g : Heap) (m : StoredMachineSpec) (v : VdMachineSpec)
      → Extends h g
      → ShowsMachineSpec h m v
      → ShowsMachineSpec g m v
  machine_spec-stable h g m v e k = (
    k.0,
    (pointer-IsCopy Same _ pure-IsCopy).stable h g m.provider_id v.provider_id e k.1,
    (pointer-IsCopy Same _ pure-IsCopy).stable h g m.vm_id v.vm_id e k.2,
    (pointer-IsCopy Same _ pure-IsCopy).stable h g m.cpu v.cpu e k.3,
    (pointer-IsCopy Same _ pure-IsCopy).stable h g m.memory v.memory e k.4,
    (pointer-IsCopy Same _ pure-IsCopy).stable h g m.network_config v.network_config e k.5,
    (pointer-IsCopy ShowsNetwork _ (network_into-IsCopy F laws)).stable h g m.network v.network e
        k.6,
    (slice-IsCopy ShowsFolder _ folder_into-IsCopy).stable h g m.shared_folders v.shared_folders e
        k.7,
    (pointer-IsCopy ShowsVnc _ vnc_into-IsCopy).stable h g m.vnc v.vnc e k.8,
  )

  pub machine_spec_into-IsCopy : IsCopy ShowsMachineSpec (machine_spec_into F)
  unfolding machine_spec_into
  machine_spec_into-IsCopy = record {
    stable = machine_spec-stable;
    copies = λ h m v k.
        Copied-step (pointer-IsCopy Same _ pure-IsCopy) (Made-start h) m.provider_id v.provider_id
          k.1
          λ x1 g1 q1.
            Copied-step (pointer-IsCopy Same _ pure-IsCopy) q1 m.vm_id v.vm_id k.2 λ x2 g2 q2.
              Copied-step (pointer-IsCopy Same _ pure-IsCopy) q2 m.cpu v.cpu k.3 λ x3 g3 q3.
                Copied-step (pointer-IsCopy Same _ pure-IsCopy) q3 m.memory v.memory k.4 λ x4 g4 q4.
                  Copied-step (pointer-IsCopy Same _ pure-IsCopy) q4 m.network_config
                    v.network_config k.5
                    λ x5 g5 q5.
                      Copied-step (pointer-IsCopy ShowsNetwork _ (network_into-IsCopy F laws)) q5
                        m.network v.network k.6
                        λ x6 g6 q6.
                          Copied-step (slice-IsCopy ShowsFolder _ folder_into-IsCopy) q6
                            m.shared_folders v.shared_folders k.7
                            λ x7 g7 q7.
                              Copied-step (pointer-IsCopy ShowsVnc _ vnc_into-IsCopy) q7 m.vnc v.vnc
                                k.8
                                λ x8 g8 q8.
                                  Copied-pure q8
                                    (record m {
                                      provider_id = x1;
                                      vm_id = x2;
                                      cpu = x3;
                                      memory = x4;
                                      network_config = x5;
                                      network = x6;
                                      shared_folders = x7;
                                      vnc = x8;
                                    })
                                    λ l r. (
                                      k.0, r.0.0.0.0.0.0.0.1, r.0.0.0.0.0.0.1, r.0.0.0.0.0.1,
                                      r.0.0.0.0.1, r.0.0.0.1, r.0.0.1, r.0.1, r.1,
                                    );
  }

  pub machine_spec_deep_copy-IsCopy : IsCopy (Points ShowsMachineSpec) (machine_spec_deep_copy F)
  unfolding machine_spec_deep_copy
  machine_spec_deep_copy-IsCopy = pointer-IsCopy ShowsMachineSpec _ machine_spec_into-IsCopy

  machine_status-stable :
      (h g : Heap) (m : StoredMachineStatus) (v : VdMachineStatus)
      → Extends h g
      → ShowsMachineStatus h m v
      → ShowsMachineStatus g m v
  machine_status-stable h g m v e k = (
    k.0,
    k.1,
    k.2,
    (list-IsCopy).stable h g m.addresses v.addresses e k.3,
    (slice-IsCopy Same _ laws.condition_copy).stable h g m.conditions v.conditions e k.4,
    (pointer-IsCopy Same _ pure-IsCopy).stable h g m.state v.state e k.5,
    (pointer-IsCopy (Rows ShowsAdapter) _ (each-IsCopy ShowsAdapter _ adapter_into-IsCopy)).stable h
        g m.network_adapters v.network_adapters e k.6,
    (slice-IsCopy ShowsFolder _ folder_into-IsCopy).stable h g m.shared_folders v.shared_folders e
        k.7,
    (pointer-IsCopy ShowsVnc _ vnc_into-IsCopy).stable h g m.vnc v.vnc e k.8,
  )

  pub machine_status_into-IsCopy : IsCopy ShowsMachineStatus (machine_status_into F)
  unfolding machine_status_into
  machine_status_into-IsCopy = record {
    stable = machine_status-stable;
    copies = λ h m v k.
        Copied-step (list-IsCopy) (Made-start h) m.addresses v.addresses k.3 λ x1 g1 q1.
          Copied-step (slice-IsCopy Same _ laws.condition_copy) q1 m.conditions v.conditions k.4
            λ x2 g2 q2.
              Copied-step (pointer-IsCopy Same _ pure-IsCopy) q2 m.state v.state k.5 λ x3 g3 q3.
                Copied-step
                  (pointer-IsCopy (Rows ShowsAdapter) _
                    (each-IsCopy ShowsAdapter _ adapter_into-IsCopy))
                  q3 m.network_adapters v.network_adapters k.6
                  λ x4 g4 q4.
                    Copied-step (slice-IsCopy ShowsFolder _ folder_into-IsCopy) q4 m.shared_folders
                      v.shared_folders k.7
                      λ x5 g5 q5.
                        Copied-step (pointer-IsCopy ShowsVnc _ vnc_into-IsCopy) q5 m.vnc v.vnc k.8
                          λ x6 g6 q6.
                            Copied-pure q6
                              (record m {
                                addresses = x1;
                                conditions = x2;
                                state = x3;
                                network_adapters = x4;
                                shared_folders = x5;
                                vnc = x6;
                              })
                              λ l r. (
                                k.0, k.1, k.2, r.0.0.0.0.0.1, r.0.0.0.0.1, r.0.0.0.1, r.0.0.1,
                                r.0.1, r.1,
                              );
  }

  pub machine_status_deep_copy-IsCopy :
      IsCopy (Points ShowsMachineStatus) (machine_status_deep_copy F)
  unfolding machine_status_deep_copy
  machine_status_deep_copy-IsCopy = pointer-IsCopy ShowsMachineStatus _ machine_status_into-IsCopy
