-- ===== src/Copy/Apart/Lists.antt =====
-- The lists of objects are copied in full.
use cluster_api_provider_vmw.Base.{List}
use cluster_api_provider_vmw.Api.Machine.{VdMachine}
use cluster_api_provider_vmw.Api.Cluster.{VdCluster}
use cluster_api_provider_vmw.Api.Template.{VdMachineTemplate}
use cluster_api_provider_vmw.Copy.Structs.{
  TypeMeta, ListMeta, StoredMachine, StoredTemplate, StoredCluster, StoredList,
}
use cluster_api_provider_vmw.Copy.Slots.{
  text_slot, flag_slot, number_slot, texts_slot, addresses_slot, reference_slot, folder_slot,
  folders_slot, adapter_slot, adapters_slot, route_slot, routes_slot, ethernet_slot, ethernets_slot,
  network_slot, vnc_slot,
}
use cluster_api_provider_vmw.Copy.Slots.Objects.{
  hardware_slot, initialization_slot, machine_spec_slot, machine_status_slot, machine_slot,
  machines_slot, machine_list_slot, template_resource_slot, template_spec_slot,
  template_status_slot, template_slot, templates_slot, template_list_slot, cluster_spec_slot,
  cluster_status_slot, cluster_slot, clusters_slot, cluster_list_slot,
}
use cluster_api_provider_vmw.Copy.Shows.{Extends, Points}
use cluster_api_provider_vmw.Copy.Shows.Structs.{
  ShowsMachine, ShowsTemplate, ShowsCluster, ShowsMachineList, ShowsTemplateList, ShowsClusterList,
}
use cluster_api_provider_vmw.Copy.Heap.{Heap}
use cluster_api_provider_vmw.Copy.Rules.{IsCopy, Made-start, Copied-step, Copied-pure}
use cluster_api_provider_vmw.Copy.Rules.Pointers.{pointer-IsCopy, slice-IsCopy}
use cluster_api_provider_vmw.Copy.Into.{Foreign}
use cluster_api_provider_vmw.Copy.Objects.{
  machine_list_into, machine_list_deep_copy, template_list_into, template_list_deep_copy,
  cluster_list_into, cluster_list_deep_copy,
}
use cluster_api_provider_vmw.Copy.Apart.Network.{IsForeignCopy}
use cluster_api_provider_vmw.Copy.Apart.Objects.{
  machine_into-IsCopy, template_into-IsCopy, cluster_into-IsCopy,
}

module _ (F : Foreign) (laws : IsForeignCopy F) where
  machine_list-stable :
      (h g : Heap) (m : (StoredList StoredMachine))
      (v : (TypeMeta × ListMeta × List (TypeMeta × VdMachine)))
      → Extends h g
      → ShowsMachineList h m v
      → ShowsMachineList g m v
  machine_list-stable h g m v e k = (
    k.0,
    (laws.list_meta_copy).stable h g m.meta v.1 e k.1,
    (slice-IsCopy ShowsMachine _ (machine_into-IsCopy F laws)).stable h g m.items v.2 e k.2,
  )

  pub machine_list_into-IsCopy : IsCopy ShowsMachineList (machine_list_into F)
  unfolding machine_list_into
  machine_list_into-IsCopy = record {
    stable = machine_list-stable;
    copies = λ h m v k. Copied-step (laws.list_meta_copy) (Made-start h) m.meta v.1 k.1 λ x1 g1 q1.
        Copied-step (slice-IsCopy ShowsMachine _ (machine_into-IsCopy F laws)) q1 m.items v.2 k.2
          λ x2 g2 q2. Copied-pure q2 (record m { meta = x1; items = x2 }) λ l r. (k.0, r.0.1, r.1);
  }

  pub machine_list_deep_copy-IsCopy : IsCopy (Points ShowsMachineList) (machine_list_deep_copy F)
  unfolding machine_list_deep_copy
  machine_list_deep_copy-IsCopy = pointer-IsCopy ShowsMachineList _ machine_list_into-IsCopy

  template_list-stable :
      (h g : Heap) (m : (StoredList StoredTemplate))
      (v : (TypeMeta × ListMeta × List (TypeMeta × VdMachineTemplate)))
      → Extends h g
      → ShowsTemplateList h m v
      → ShowsTemplateList g m v
  template_list-stable h g m v e k = (
    k.0,
    (laws.list_meta_copy).stable h g m.meta v.1 e k.1,
    (slice-IsCopy ShowsTemplate _ (template_into-IsCopy F laws)).stable h g m.items v.2 e k.2,
  )

  pub template_list_into-IsCopy : IsCopy ShowsTemplateList (template_list_into F)
  unfolding template_list_into
  template_list_into-IsCopy = record {
    stable = template_list-stable;
    copies = λ h m v k. Copied-step (laws.list_meta_copy) (Made-start h) m.meta v.1 k.1 λ x1 g1 q1.
        Copied-step (slice-IsCopy ShowsTemplate _ (template_into-IsCopy F laws)) q1 m.items v.2 k.2
          λ x2 g2 q2. Copied-pure q2 (record m { meta = x1; items = x2 }) λ l r. (k.0, r.0.1, r.1);
  }

  pub template_list_deep_copy-IsCopy : IsCopy (Points ShowsTemplateList) (template_list_deep_copy F)
  unfolding template_list_deep_copy
  template_list_deep_copy-IsCopy = pointer-IsCopy ShowsTemplateList _ template_list_into-IsCopy

  cluster_list-stable :
      (h g : Heap) (m : (StoredList StoredCluster))
      (v : (TypeMeta × ListMeta × List (TypeMeta × VdCluster)))
      → Extends h g
      → ShowsClusterList h m v
      → ShowsClusterList g m v
  cluster_list-stable h g m v e k = (
    k.0,
    (laws.list_meta_copy).stable h g m.meta v.1 e k.1,
    (slice-IsCopy ShowsCluster _ (cluster_into-IsCopy F laws)).stable h g m.items v.2 e k.2,
  )

  pub cluster_list_into-IsCopy : IsCopy ShowsClusterList (cluster_list_into F)
  unfolding cluster_list_into
  cluster_list_into-IsCopy = record {
    stable = cluster_list-stable;
    copies = λ h m v k. Copied-step (laws.list_meta_copy) (Made-start h) m.meta v.1 k.1 λ x1 g1 q1.
        Copied-step (slice-IsCopy ShowsCluster _ (cluster_into-IsCopy F laws)) q1 m.items v.2 k.2
          λ x2 g2 q2. Copied-pure q2 (record m { meta = x1; items = x2 }) λ l r. (k.0, r.0.1, r.1);
  }

  pub cluster_list_deep_copy-IsCopy : IsCopy (Points ShowsClusterList) (cluster_list_deep_copy F)
  unfolding cluster_list_deep_copy
  cluster_list_deep_copy-IsCopy = pointer-IsCopy ShowsClusterList _ cluster_list_into-IsCopy
