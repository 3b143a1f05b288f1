-- ===== src/Examples/Life.antt =====
-- Whole runs.
use mathlib.Core.Path.{subst}
use cluster_api_provider_vmw.Base.{◌≡◌, refl, true, false, none, some, is_some, [], arith, lookup}
use cluster_api_provider_vmw.Api.Machine.{VdMachine, machine_finalizer}
use cluster_api_provider_vmw.Remote.{ObjectKey, found, has}
use cluster_api_provider_vmw.Program.{deferred, fold_each, for_each, ◌>>=◌}
use cluster_api_provider_vmw.Client.{new_vd_client}
use cluster_api_provider_vmw.Machine.Power.{powered_off, reconcile_power_state}
use cluster_api_provider_vmw.Machine.Hardware.{reconcile_hardware}
use cluster_api_provider_vmw.Machine.Adapters.{reconcile_network_adapters}
use cluster_api_provider_vmw.Machine.Ipam.{
  reconcile_network_addresses, await_addresses, find_ipam_address,
}
use cluster_api_provider_vmw.Machine.Folders.{
  reconcile_shared_folders, shared_folders_equal, entries_agree, add_folders,
}
use cluster_api_provider_vmw.Machine.Vnc.{reconcile_vnc, compare_vnc}
use cluster_api_provider_vmw.Machine.Bootstrap.{
  reconcile_bootstrap_data, provide_bootstrap_data, send_bootstrap_data, get_secret_data,
  build_metadata, send_guestinfo, render_ethernet, ipam_addresses,
}
use cluster_api_provider_vmw.Machine.Addresses.{
  reconcile_addresses, after_nic_info, extract_addresses, extract_from, add_address,
  store_addresses,
}
use cluster_api_provider_vmw.Machine.Create.{reconcile_create_vm}
use cluster_api_provider_vmw.Machine.Delete.{reconcile_delete, delete_known}
use cluster_api_provider_vmw.Machine.Normal.{
  may_start, reconcile_normal, create_or_update, update_machine, start_machine,
}
use cluster_api_provider_vmw.Machine.Reconcile.{
  with_machine, with_owner, with_cluster, with_helper, after_helper, handle, dispatch,
  after_observe, patch, patch_now, reconcile,
}
use cluster_api_provider_vmw.Machine.Reconcile.Quiet.{IsActive, reconcile-acts}
use cluster_api_provider_vmw.Text.Ip.{parse_cidr}
use cluster_api_provider_vmw.Text.Ip.Print.{ip_string}
use cluster_api_provider_vmw.Machine.Life.{IsSound, StoredSound, handled}
use cluster_api_provider_vmw.Machine.Life.Stored.{reconcile-StoredSound, handle-powers}
use cluster_api_provider_vmw.Machine.Life.Guards.Whole.{handle-creates, handle-deletes}
use cluster_api_provider_vmw.Examples.World.{
  world, world-IsLawful, fresh_machine, linked_machine, leaving_machine, owner_machine,
  owner_cluster,
}

abbrev key : ObjectKey
key = record { namespace = "default"; name = "node" }

linked-IsSound : IsSound linked_machine
linked-IsSound = record {
  linked = refl;
  reported = record {
    same = refl;
    bootstrapped = λ e. ground arith;
    addressed = λ e. ground arith;
  };
}

found-IsSound : (m : VdMachine) → found linked_machine ≡ found m → IsSound m
found-IsSound m e = subst IsSound (ground arith) linked-IsSound

reconcile-StoredSound_example :
    StoredSound (reconcile (world linked_machine) key (record { object = tt; calls = [] })).1.calls
reconcile-StoredSound_example = reconcile-StoredSound (world linked_machine) key found-IsSound

handle-creates_example :
    (fresh_machine.meta.deleted ≡ false)
    × (fresh_machine.spec.vm_id ≡ none)
    × (may_start owner_cluster owner_machine ≡ true)
    × (has machine_finalizer
          (handled
            (world fresh_machine)
            owner_cluster
            owner_machine
            fresh_machine
            []).object.meta.finalizers
        ≡ true)
unfolding handle dispatch reconcile_normal create_or_update reconcile_create_vm new_vd_client ◌>>=◌
handle-creates_example =
    handle-creates (world fresh_machine) (world-IsLawful fresh_machine) owner_cluster owner_machine
      fresh_machine refl

handle-deletes_example :
    (leaving_machine.meta.deleted ≡ true)
    × (is_some leaving_machine.spec.vm_id ≡ true)
    × ((handled
          (world leaving_machine)
          owner_cluster
          owner_machine
          leaving_machine
          []).object.status.state
        ≡ some powered_off)
unfolding handle after_observe patch patch_now dispatch reconcile_delete delete_known new_vd_client
    ◌>>=◌
handle-deletes_example =
    handle-deletes (world leaving_machine) (world-IsLawful leaving_machine) owner_cluster
      owner_machine leaving_machine refl

handle-powers_example :
    (handled
      (world linked_machine)
      owner_cluster
      owner_machine
      linked_machine
      []).object.status.initialization.bootstrap_data_provided
    ≡ true
unfolding handle after_observe patch patch_now dispatch reconcile_normal create_or_update
    update_machine start_machine new_vd_client reconcile_hardware reconcile_network_adapters
    reconcile_network_addresses reconcile_shared_folders shared_folders_equal entries_agree
    add_folders reconcile_vnc compare_vnc reconcile_bootstrap_data provide_bootstrap_data
    send_bootstrap_data get_secret_data build_metadata send_guestinfo render_ethernet ipam_addresses
    find_ipam_address reconcile_power_state reconcile_addresses after_nic_info extract_addresses
    extract_from add_address parse_cidr ip_string store_addresses await_addresses fold_each for_each
    lookup ◌>>=◌
handle-powers_example =
    handle-powers (world linked_machine) owner_cluster owner_machine linked_machine linked-IsSound
      refl

reconcile-acts_example : IsActive (world fresh_machine) key
unfolding reconcile with_machine with_owner with_cluster with_helper after_helper deferred handle
    dispatch reconcile_normal create_or_update reconcile_create_vm new_vd_client patch_now ◌>>=◌
reconcile-acts_example = reconcile-acts (world fresh_machine) key refl
