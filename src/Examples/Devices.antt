-- ===== src/Examples/Devices.antt =====
-- Steps for the devices of a virtual machine: adapters, addresses, shared folders and VNC.
use cluster_api_provider_vmw.Base.{
  String, ℕ, ◌≤◌, ◌<◌, ◌≡◌, refl, true, false, none, some, List, [], ◌∷◌, arith, ◌↔◌, lookup,
  insert, keys,
}
use Prim.Native.String.{count}
use cluster_api_provider_vmw.Text.{itoa}
use cluster_api_provider_vmw.Api.Machine.{VdMachine, VdNetworkAdapter, VdSharedFolder, Vnc}
use cluster_api_provider_vmw.Remote.{get_all_nic_devices, NicIpStack}
use cluster_api_provider_vmw.Program.{State, done, panic, requeue, millisecond, for_each, ◌>>=◌}
use cluster_api_provider_vmw.Machine.Adapters.{contains_all, refresh_adapters}
use cluster_api_provider_vmw.Machine.Adapters.Created.{Creates, Adds, refresh_adapters-Creates}
use cluster_api_provider_vmw.Machine.Adapters.Present.{contains_all_lem}
use cluster_api_provider_vmw.Machine.Addresses.{add_address}
use cluster_api_provider_vmw.Machine.Addresses.Ipv4.{add_address-cidr}
use cluster_api_provider_vmw.Machine.Vnc.Password.{IsDrawn, generate_password-IsDrawn}
use cluster_api_provider_vmw.Machine.Vnc.{reconcile_vnc, generate_port, generate_password}
use cluster_api_provider_vmw.Machine.Vnc.Enabling.{reconcile_vnc-panics, generate_port-bounds}
use cluster_api_provider_vmw.Machine.Folders.{
  shared_folders_equal, folder_map, refresh_folders, apply_folders, create_folder, delete_stale,
  add_folders,
}
use cluster_api_provider_vmw.Machine.Folders.Held.{held}
use cluster_api_provider_vmw.Machine.Folders.Converge.{refresh_folders-converge}
use cluster_api_provider_vmw.Machine.Folders.Keys.{path_at}
use cluster_api_provider_vmw.Machine.Folders.Agree.{shared_folders_equal-agree}
use cluster_api_provider_vmw.Examples.World.{
  start, world, world-IsLawful, fresh_machine, linked_machine, linked_spec, sample_network,
  sample_ethernet,
}

abbrev nat_adapter : VdNetworkAdapter
nat_adapter = record { type = some "nat"; vmnet = some "vmnet8"; virtual_dev = none }

abbrev custom_adapter : VdNetworkAdapter
custom_adapter = record { type = some "custom"; vmnet = some "vmnet2"; virtual_dev = some "e1000" }

contains_all_lem_example :
    contains_all (nat_adapter ∷ []) (nat_adapter ∷ custom_adapter ∷ []) (start fresh_machine)
    ≡ (done false, start fresh_machine)
contains_all_lem_example =
    contains_all_lem (nat_adapter ∷ []) (nat_adapter ∷ custom_adapter ∷ []) (start fresh_machine)
      ((refl, refl), tt) ((refl, refl), ((refl, refl), tt))

abbrev nics : List NicIpStack
nics = record { ip = "10.0.0.5/24" ∷ [] } ∷ []

add_address-cidr_example :
    add_address "InternalIP" (some false) "192.168.7.20/24" [] (start linked_machine)
    ≡ (done (record { type = "InternalIP"; address = "192.168.7.20" } ∷ []), start linked_machine)
unfolding itoa
add_address-cidr_example =
    add_address-cidr 192 168 7 20 24 "InternalIP" (some false) [] (start linked_machine)
      (omega arith) (omega arith) (omega arith) (omega arith) (omega arith)

abbrev host_folder : VdSharedFolder
host_folder = record { folder_id = "src"; host_path = "/src"; flags = none }

abbrev seen_folder : VdSharedFolder
seen_folder = record { folder_id = "src"; host_path = "/src"; flags = some 4 }

shared_folders_equal-agree_example :
    (shared_folders_equal (host_folder ∷ []) (seen_folder ∷ []) ≡ true) ↔ (
      (id : String)
      → path_at id (folder_map (host_folder ∷ [])) ≡ path_at id (folder_map (seen_folder ∷ [])))
shared_folders_equal-agree_example =
    shared_folders_equal-agree (host_folder ∷ []) (seen_folder ∷ [])

-- A machine that asks for an adapter which its virtual machine lacks.
abbrev adding : State VdMachine
adding = start (record linked_machine {
  spec = record linked_spec {
    network = some (record sample_network { adapters = some (custom_adapter ∷ []) });
  };
})

refresh_adapters-Creates_example :
    Adds
      (Creates "A" (record { type = "nat"; vmnet = "vmnet8" } ∷ []) (custom_adapter ∷ []))
      (get_all_nic_devices "A" ∷ [])
      (refresh_adapters (world linked_machine) "A" adding).1
refresh_adapters-Creates_example =
    refresh_adapters-Creates (world linked_machine) "A"
      (record { type = "nat"; vmnet = "vmnet8" } ∷ []) adding (world-IsLawful linked_machine) refl

abbrev enabling_spec : Vnc
enabling_spec = record {
  enabled = some true;
  port = none;
  password = none;
  generate_port = none;
  generate_password = none;
}

-- A machine that asks for VNC for the first time.
abbrev enabling : State VdMachine
enabling = start (record fresh_machine { spec = record linked_spec { vnc = some enabling_spec } })

reconcile_vnc-panics_example :
    (let s : State VdMachine = (reconcile_vnc (world fresh_machine) "A" enabling).1 in
      (reconcile_vnc (world fresh_machine) "A" enabling).0 ≡ done (requeue millisecond)
      × ((reconcile_vnc (world fresh_machine) "A" s).0 ≡ panic))
reconcile_vnc-panics_example =
    reconcile_vnc-panics (world fresh_machine) "A" enabling_spec true enabling (λ calls name. refl)
      refl refl refl

generate_port-bounds_example :
    (n : ℕ) × ((generate_port (world fresh_machine) (start fresh_machine)).0 ≡ done (itoa n))
    × (5900 ≤ n)
    × (n < 6000)
generate_port-bounds_example =
    generate_port-bounds (world fresh_machine) (world-IsLawful fresh_machine) (start fresh_machine)

generate_password-IsDrawn_example :
    (p : String) × ((generate_password (world fresh_machine) (start fresh_machine)).0 ≡ done p)
    × (count p ≡ 8)
    × IsDrawn p
    × ((generate_password (world fresh_machine) (start fresh_machine)).1.object ≡ fresh_machine)
generate_password-IsDrawn_example =
    generate_password-IsDrawn (world fresh_machine) (start fresh_machine)
      (world-IsLawful fresh_machine)

-- A machine with an ethernet that takes its address from a pool.
abbrev pooled : State VdMachine
pooled = start (record linked_machine {
  spec = record linked_spec {
    network = some (record sample_network {
      ethernets =
          record sample_ethernet {
            ipam_ref = some (record {
              api_group = some "ipam.cluster.x-k8s.io";
              kind = "InClusterIPPool";
              name = "pool";
            });
          }
          ∷ [];
    });
  };
})

-- A machine that shares a folder, on a service that has none.
abbrev sharing : State VdMachine
sharing =
    start
      (record linked_machine { spec = record linked_spec { shared_folders = host_folder ∷ [] } })

refresh_folders-converge_example :
    held "A" (refresh_folders (world linked_machine) "A" sharing).1.calls (λ _. none) "src"
    ≡ path_at "src" (folder_map (host_folder ∷ []))
unfolding refresh_folders shared_folders_equal apply_folders create_folder delete_stale add_folders
    lookup insert keys for_each ◌>>=◌
refresh_folders-converge_example =
    refresh_folders-converge (world linked_machine) "A" (λ _. none) [] (requeue millisecond) sharing
      (world-IsLawful linked_machine) refl (λ id. refl) refl "src"
