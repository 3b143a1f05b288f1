-- ===== src/Copy/Apart/Objects.antt =====
-- The objects are copied in full.
use cluster_api_provider_vmw.Api.Machine.{VdMachine}
use cluster_api_provider_vmw.Api.Cluster.{VdCluster}
use cluster_api_provider_vmw.Api.Template.{
  VdMachineTemplateResource, VdMachineTemplateSpec, VdMachineTemplate,
}
use cluster_api_provider_vmw.Copy.Structs.{
  TypeMeta, StoredMachine, StoredTemplateResource, StoredTemplateSpec, StoredTemplate,
  StoredCluster,
}
use cluster_api_provider_vmw.Copy.Slots.{
  text_slot, flag_slot, number_slot, texts_slot, addresses_slot, reference_slot, folder_slot,
  folders_slot, adapter_slot, adapters_slot, route_slot, routes_slot, ethernet_slot, ethernets_slot,
  network_slot, vnc_slot,
}
use cluster_api_provider_vmw.Copy.Slots.Objects.{
  hardware_slot, initialization_slot, machine_spec_slot, machine_status_slot, machine_slot,
  machines_slot, machine_list_slot, template_resource_slot, template_spec_slot,
  template_status_slot, template_slot, templates_slot, template_list_slot, cluster_spec_slot,
  cluster_status_slot, cluster_slot, clusters_slot, cluster_list_slot,
}
use cluster_api_provider_vmw.Copy.Shows.{Extends, Points}
use cluster_api_provider_vmw.Copy.Shows.Structs.{
  ShowsMachine, ShowsTemplateResource, ShowsTemplateSpec, ShowsTemplate, ShowsCluster,
}
use cluster_api_provider_vmw.Copy.Heap.{Heap}
use cluster_api_provider_vmw.Copy.Rules.{IsCopy, Made-start, Copied-step, Copied-pure}
use cluster_api_provider_vmw.Copy.Rules.Pointers.{pointer-IsCopy}
use cluster_api_provider_vmw.Copy.Into.{
  Foreign, machine_into, machine_deep_copy, template_resource_into, template_resource_deep_copy,
  template_spec_into, template_spec_deep_copy, template_into, template_deep_copy, cluster_into,
  cluster_deep_copy,
}
use cluster_api_provider_vmw.Copy.Apart.Network.{IsForeignCopy}
use cluster_api_provider_vmw.Copy.Apart.Spec.{machine_spec_into-IsCopy, machine_status_into-IsCopy}

module _ (F : Foreign) (laws : IsForeignCopy F) where
  machine-stable :
      (h g : Heap) (m : StoredMachine) (v : (TypeMeta × VdMachine))
      → Extends h g
      → ShowsMachine h m v
      → ShowsMachine g m v
  machine-stable h g m v e k = (
    k.0,
    (laws.meta_copy).stable h g m.meta v.1.meta e k.1,
    ((machine_spec_into-IsCopy F laws)).stable h g m.spec v.1.spec e k.2,
    ((machine_status_into-IsCopy F laws)).stable h g m.status v.1.status e k.3,
  )

  pub machine_into-IsCopy : IsCopy ShowsMachine (machine_into F)
  unfolding machine_into
  machine_into-IsCopy = record {
    stable = machine-stable;
    copies = λ h m v k. Copied-step (laws.meta_copy) (Made-start h) m.meta v.1.meta k.1 λ x1 g1 q1.
        Copied-step ((machine_spec_into-IsCopy F laws)) q1 m.spec v.1.spec k.2 λ x2 g2 q2.
          Copied-step ((machine_status_into-IsCopy F laws)) q2 m.status v.1.status k.3 λ x3 g3 q3.
            Copied-pure q3 (record m { meta = x1; spec = x2; status = x3 })
              λ l r. (k.0, r.0.0.1, r.0.1, r.1);
  }

  pub machine_deep_copy-IsCopy : IsCopy (Points ShowsMachine) (machine_deep_copy F)
  unfolding machine_deep_copy
  machine_deep_copy-IsCopy = pointer-IsCopy ShowsMachine _ machine_into-IsCopy

  template_resource-stable :
      (h g : Heap) (m : StoredTemplateResource) (v : VdMachineTemplateResource)
      → Extends h g
      → ShowsTemplateResource h m v
      → ShowsTemplateResource g m v
  template_resource-stable h g m v e k = (
    (laws.resource_meta_copy).stable h g m.meta v.meta e k.0,
    ((machine_spec_into-IsCopy F laws)).stable h g m.spec v.spec e k.1,
  )

  pub template_resource_into-IsCopy : IsCopy ShowsTemplateResource (template_resource_into F)
  unfolding template_resource_into
  template_resource_into-IsCopy = record {
    stable = template_resource-stable;
    copies = λ h m v k.
        Copied-step (laws.resource_meta_copy) (Made-start h) m.meta v.meta k.0 λ x1 g1 q1.
          Copied-step ((machine_spec_into-IsCopy F laws)) q1 m.spec v.spec k.1
            λ x2 g2 q2. Copied-pure q2 (record m { meta = x1; spec = x2 }) λ l r. (r.0.1, r.1);
  }

  pub template_resource_deep_copy-IsCopy :
      IsCopy (Points ShowsTemplateResource) (template_resource_deep_copy F)
  unfolding template_resource_deep_copy
  template_resource_deep_copy-IsCopy =
      pointer-IsCopy ShowsTemplateResource _ template_resource_into-IsCopy

  template_spec-stable :
      (h g : Heap) (m : StoredTemplateSpec) (v : VdMachineTemplateSpec)
      → Extends h g
      → ShowsTemplateSpec h m v
      → ShowsTemplateSpec g m v
  template_spec-stable h g m v e k =
      (template_resource_into-IsCopy).stable h g m.template v.template e k

  pub template_spec_into-IsCopy : IsCopy ShowsTemplateSpec (template_spec_into F)
  unfolding template_spec_into
  template_spec_into-IsCopy = record {
    stable = template_spec-stable;
    copies = λ h m v k.
        Copied-step (template_resource_into-IsCopy) (Made-start h) m.template v.template k
          λ x1 g1 q1. Copied-pure q1 (record m { template = x1 }) λ l r. r.1;
  }

  pub template_spec_deep_copy-IsCopy : IsCopy (Points ShowsTemplateSpec) (template_spec_deep_copy F)
  unfolding template_spec_deep_copy
  template_spec_deep_copy-IsCopy = pointer-IsCopy ShowsTemplateSpec _ template_spec_into-IsCopy

  template-stable :
      (h g : Heap) (m : StoredTemplate) (v : (TypeMeta × VdMachineTemplate))
      → Extends h g
      → ShowsTemplate h m v
      → ShowsTemplate g m v
  template-stable h g m v e k = (
    k.0,
    (laws.meta_copy).stable h g m.meta v.1.meta e k.1,
    (template_spec_into-IsCopy).stable h g m.spec v.1.spec e k.2,
  )

  pub template_into-IsCopy : IsCopy ShowsTemplate (template_into F)
  unfolding template_into
  template_into-IsCopy = record {
    stable = template-stable;
    copies = λ h m v k. Copied-step (laws.meta_copy) (Made-start h) m.meta v.1.meta k.1 λ x1 g1 q1.
        Copied-step (template_spec_into-IsCopy) q1 m.spec v.1.spec k.2
          λ x2 g2 q2. Copied-pure q2 (record m { meta = x1; spec = x2 }) λ l r. (k.0, r.0.1, r.1);
  }

  pub template_deep_copy-IsCopy : IsCopy (Points ShowsTemplate) (template_deep_copy F)
  unfolding template_deep_copy
  template_deep_copy-IsCopy = pointer-IsCopy ShowsTemplate _ template_into-IsCopy

  cluster-stable :
      (h g : Heap) (m : StoredCluster) (v : (TypeMeta × VdCluster))
      → Extends h g
      → ShowsCluster h m v
      → ShowsCluster g m v
  cluster-stable h g m v e k = (k.0, k.1, k.2, (laws.meta_copy).stable h g m.meta v.1.meta e k.3)

  pub cluster_into-IsCopy : IsCopy ShowsCluster (cluster_into F)
  unfolding cluster_into
  cluster_into-IsCopy = record {
    stable = cluster-stable;
    copies = λ h m v k.
        Copied-step (laws.meta_copy) (Made-start h) m.meta v.1.meta k.3
          λ x1 g1 q1. Copied-pure q1 (record m { meta = x1 }) λ l r. (k.0, k.1, k.2, r.1);
  }

  pub cluster_deep_copy-IsCopy : IsCopy (Points ShowsCluster) (cluster_deep_copy F)
  unfolding cluster_deep_copy
  cluster_deep_copy-IsCopy = pointer-IsCopy ShowsCluster _ cluster_into-IsCopy
