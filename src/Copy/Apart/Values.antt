-- ===== src/Copy/Apart/Values.antt =====
-- The types without types of Kubernetes are copied in full.
use cluster_api_provider_vmw.Api.Machine.{VdSharedFolder, VdNetworkAdapter, VdNetworkRoute, Vnc}
use cluster_api_provider_vmw.Copy.Structs.{StoredFolder, StoredAdapter, StoredRoute, StoredVnc}
use cluster_api_provider_vmw.Copy.Slots.{
  text_slot, flag_slot, number_slot, texts_slot, addresses_slot, reference_slot, folder_slot,
  folders_slot, adapter_slot, adapters_slot, route_slot, routes_slot, ethernet_slot, ethernets_slot,
  network_slot, vnc_slot,
}
use cluster_api_provider_vmw.Copy.Slots.Objects.{
  hardware_slot, initialization_slot, machine_spec_slot, machine_status_slot, machine_slot,
  machines_slot, machine_list_slot, template_resource_slot, template_spec_slot,
  template_status_slot, template_slot, templates_slot, template_list_slot, cluster_spec_slot,
  cluster_status_slot, cluster_slot, clusters_slot, cluster_list_slot,
}
use cluster_api_provider_vmw.Copy.Shows.{Extends, Same, Points}
use cluster_api_provider_vmw.Copy.Shows.Structs.{ShowsFolder, ShowsAdapter, ShowsRoute, ShowsVnc}
use cluster_api_provider_vmw.Copy.Heap.{Heap}
use cluster_api_provider_vmw.Copy.Rules.{IsCopy, Made-start, Copied-step, Copied-pure, pure-IsCopy}
use cluster_api_provider_vmw.Copy.Rules.Pointers.{pointer-IsCopy}
use cluster_api_provider_vmw.Copy.Values.{
  hardware_into, hardware_deep_copy, initialization_into, initialization_deep_copy,
  cluster_spec_into, cluster_spec_deep_copy, cluster_status_into, cluster_status_deep_copy,
  template_status_into, template_status_deep_copy, folder_into, folder_deep_copy, adapter_into,
  adapter_deep_copy, route_into, route_deep_copy, vnc_into, vnc_deep_copy,
}

hardware_into-IsCopy : IsCopy Same hardware_into
unfolding hardware_into
hardware_into-IsCopy = pure-IsCopy

pub hardware_deep_copy-IsCopy : IsCopy (Points Same) hardware_deep_copy
unfolding hardware_deep_copy
hardware_deep_copy-IsCopy = pointer-IsCopy Same _ hardware_into-IsCopy

initialization_into-IsCopy : IsCopy Same initialization_into
unfolding initialization_into
initialization_into-IsCopy = pure-IsCopy

pub initialization_deep_copy-IsCopy : IsCopy (Points Same) initialization_deep_copy
unfolding initialization_deep_copy
initialization_deep_copy-IsCopy = pointer-IsCopy Same _ initialization_into-IsCopy

cluster_spec_into-IsCopy : IsCopy Same cluster_spec_into
unfolding cluster_spec_into
cluster_spec_into-IsCopy = pure-IsCopy

pub cluster_spec_deep_copy-IsCopy : IsCopy (Points Same) cluster_spec_deep_copy
unfolding cluster_spec_deep_copy
cluster_spec_deep_copy-IsCopy = pointer-IsCopy Same _ cluster_spec_into-IsCopy

cluster_status_into-IsCopy : IsCopy Same cluster_status_into
unfolding cluster_status_into
cluster_status_into-IsCopy = pure-IsCopy

pub cluster_status_deep_copy-IsCopy : IsCopy (Points Same) cluster_status_deep_copy
unfolding cluster_status_deep_copy
cluster_status_deep_copy-IsCopy = pointer-IsCopy Same _ cluster_status_into-IsCopy

template_status_into-IsCopy : IsCopy Same template_status_into
unfolding template_status_into
template_status_into-IsCopy = pure-IsCopy

pub template_status_deep_copy-IsCopy : IsCopy (Points Same) template_status_deep_copy
unfolding template_status_deep_copy
template_status_deep_copy-IsCopy = pointer-IsCopy Same _ template_status_into-IsCopy

folder-stable :
    (h g : Heap) (m : StoredFolder) (v : VdSharedFolder)
    → Extends h g
    → ShowsFolder h m v
    → ShowsFolder g m v
folder-stable h g m v e k =
    (k.0, k.1, (pointer-IsCopy Same _ pure-IsCopy).stable h g m.flags v.flags e k.2)

pub folder_into-IsCopy : IsCopy ShowsFolder folder_into
unfolding folder_into
folder_into-IsCopy = record {
  stable = folder-stable;
  copies = λ h m v k.
      Copied-step (pointer-IsCopy Same _ pure-IsCopy) (Made-start h) m.flags v.flags k.2
        λ x1 g1 q1. Copied-pure q1 (record m { flags = x1 }) λ l r. (k.0, k.1, r.1);
}

pub folder_deep_copy-IsCopy : IsCopy (Points ShowsFolder) folder_deep_copy
unfolding folder_deep_copy
folder_deep_copy-IsCopy = pointer-IsCopy ShowsFolder _ folder_into-IsCopy

adapter-stable :
    (h g : Heap) (m : StoredAdapter) (v : VdNetworkAdapter)
    → Extends h g
    → ShowsAdapter h m v
    → ShowsAdapter g m v
adapter-stable h g m v e k = (
  (pointer-IsCopy Same _ pure-IsCopy).stable h g m.type v.type e k.0,
  (pointer-IsCopy Same _ pure-IsCopy).stable h g m.vmnet v.vmnet e k.1,
  (pointer-IsCopy Same _ pure-IsCopy).stable h g m.virtual_dev v.virtual_dev e k.2,
)

pub adapter_into-IsCopy : IsCopy ShowsAdapter adapter_into
unfolding adapter_into
adapter_into-IsCopy = record {
  stable = adapter-stable;
  copies = λ h m v k.
      Copied-step (pointer-IsCopy Same _ pure-IsCopy) (Made-start h) m.type v.type k.0 λ x1 g1 q1.
        Copied-step (pointer-IsCopy Same _ pure-IsCopy) q1 m.vmnet v.vmnet k.1 λ x2 g2 q2.
          Copied-step (pointer-IsCopy Same _ pure-IsCopy) q2 m.virtual_dev v.virtual_dev k.2
            λ x3 g3 q3.
              Copied-pure q3 (record m { type = x1; vmnet = x2; virtual_dev = x3 })
                λ l r. (r.0.0.1, r.0.1, r.1);
}

pub adapter_deep_copy-IsCopy : IsCopy (Points ShowsAdapter) adapter_deep_copy
unfolding adapter_deep_copy
adapter_deep_copy-IsCopy = pointer-IsCopy ShowsAdapter _ adapter_into-IsCopy

route-stable :
    (h g : Heap) (m : StoredRoute) (v : VdNetworkRoute)
    → Extends h g
    → ShowsRoute h m v
    → ShowsRoute g m v
route-stable h g m v e k = (k.0, (pointer-IsCopy Same _ pure-IsCopy).stable h g m.via v.via e k.1)

pub route_into-IsCopy : IsCopy ShowsRoute route_into
unfolding route_into
route_into-IsCopy = record {
  stable = route-stable;
  copies = λ h m v k.
      Copied-step (pointer-IsCopy Same _ pure-IsCopy) (Made-start h) m.via v.via k.1
        λ x1 g1 q1. Copied-pure q1 (record m { via = x1 }) λ l r. (k.0, r.1);
}

pub route_deep_copy-IsCopy : IsCopy (Points ShowsRoute) route_deep_copy
unfolding route_deep_copy
route_deep_copy-IsCopy = pointer-IsCopy ShowsRoute _ route_into-IsCopy

vnc-stable : (h g : Heap) (m : StoredVnc) (v : Vnc) → Extends h g → ShowsVnc h m v → ShowsVnc g m v
vnc-stable h g m v e k = (
  (pointer-IsCopy Same _ pure-IsCopy).stable h g m.enabled v.enabled e k.0,
  (pointer-IsCopy Same _ pure-IsCopy).stable h g m.port v.port e k.1,
  (pointer-IsCopy Same _ pure-IsCopy).stable h g m.password v.password e k.2,
  (pointer-IsCopy Same _ pure-IsCopy).stable h g m.generate_port v.generate_port e k.3,
  (pointer-IsCopy Same _ pure-IsCopy).stable h g m.generate_password v.generate_password e k.4,
)

pub vnc_into-IsCopy : IsCopy ShowsVnc vnc_into
unfolding vnc_into
vnc_into-IsCopy = record {
  stable = vnc-stable;
  copies = λ h m v k.
      Copied-step (pointer-IsCopy Same _ pure-IsCopy) (Made-start h) m.enabled v.enabled k.0
        λ x1 g1 q1. Copied-step (pointer-IsCopy Same _ pure-IsCopy) q1 m.port v.port k.1 λ x2 g2 q2.
          Copied-step (pointer-IsCopy Same _ pure-IsCopy) q2 m.password v.password k.2 λ x3 g3 q3.
            Copied-step (pointer-IsCopy Same _ pure-IsCopy) q3 m.generate_port v.generate_port k.3
              λ x4 g4 q4.
                Copied-step (pointer-IsCopy Same _ pure-IsCopy) q4 m.generate_password
                  v.generate_password k.4
                  λ x5 g5 q5.
                    Copied-pure q5
                      (record m {
                        enabled = x1;
                        port = x2;
                        password = x3;
                        generate_port = x4;
                        generate_password = x5;
                      })
                      λ l r. (r.0.0.0.0.1, r.0.0.0.1, r.0.0.1, r.0.1, r.1);
}

pub vnc_deep_copy-IsCopy : IsCopy (Points ShowsVnc) vnc_deep_copy
unfolding vnc_deep_copy
vnc_deep_copy-IsCopy = pointer-IsCopy ShowsVnc _ vnc_into-IsCopy
