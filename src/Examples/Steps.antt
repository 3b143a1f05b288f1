-- ===== src/Examples/Steps.antt =====
-- Single steps.
use cluster_api_provider_vmw.Base.{
  ◌≡◌, refl, true, false, none, some, List, [], ◌∷◌, lookup, any, ◌↔◌, ◌==◌,
}
use cluster_api_provider_vmw.Api.Machine.{VdMachine, machine_finalizer}
use cluster_api_provider_vmw.Api.Cluster.{VdCluster}
use cluster_api_provider_vmw.Remote.{
  Call, has, new_cluster_helper, get_owner_cluster, get_vd_cluster, patch_cluster,
}
use cluster_api_provider_vmw.Program.{State, done, panic, fold_each, for_each, ◌>>=◌, no_requeue}
use cluster_api_provider_vmw.Client.{new_vd_client}
use cluster_api_provider_vmw.Client.Starts.{new_vd_client-starts, IsConfigured}
use cluster_api_provider_vmw.Cluster.{reconcile}
use cluster_api_provider_vmw.Cluster.Ends.{is_settled, reconcile-stores}
use cluster_api_provider_vmw.Machine.Fields.{set_state}
use cluster_api_provider_vmw.Machine.Power.{powered_off}
use cluster_api_provider_vmw.Machine.Hardware.{reconcile_hardware}
use cluster_api_provider_vmw.Machine.Hardware.Settles.{reconcile_hardware-settles}
use cluster_api_provider_vmw.Machine.Bootstrap.{
  reconcile_bootstrap_data, provide_bootstrap_data, send_bootstrap_data, get_secret_data,
  build_metadata, send_guestinfo, render_ethernet, ipam_addresses,
}
use cluster_api_provider_vmw.Machine.Ipam.{find_ipam_address}
use cluster_api_provider_vmw.Machine.Bootstrap.NoNetwork.{bootstrap-panics}
use cluster_api_provider_vmw.Machine.Bootstrap.Sent.{reconcile_bootstrap_data-sends, IsProvided}
use cluster_api_provider_vmw.Machine.Bootstrap.Received.{
  reconcile_bootstrap_data-decodes, IsReceived,
}
use cluster_api_provider_vmw.Machine.Delete.{reconcile_delete}
use cluster_api_provider_vmw.Machine.Delete.Ends.{reconcile_delete-ends, is_delete}
use cluster_api_provider_vmw.Examples.World.{
  set-IsConfigured, start, world, world-IsLawful, fresh_machine, linked_machine, leaving_machine,
  linked_spec, sample_cluster, owner_machine, owner_cluster,
}

abbrev leaving : State VdMachine
leaving = start leaving_machine

pub world-IsConfigured : (m : VdMachine) → IsConfigured (world m) "set" "set" "set"
world-IsConfigured m = set-IsConfigured (world m) (λ calls name. refl)

reconcile_delete-ends_example :
    (let s1 : State VdMachine = (reconcile_delete (world leaving_machine) leaving).1 in
      let s2 : State VdMachine = (reconcile_delete (world leaving_machine) s1).1 in
      ((reconcile_delete (world leaving_machine) leaving).0 ≡ done no_requeue)
      × (s1.object ≡ set_state (some powered_off) leaving_machine)
      × ((reconcile_delete (world leaving_machine) s1).0 ≡ done no_requeue)
      × (has machine_finalizer s2.object.meta.finalizers ≡ false)
      × (any is_delete s2.calls ≡ true))
reconcile_delete-ends_example =
    reconcile_delete-ends (world leaving_machine) "A" "set" "set" "set" "poweredOn" leaving
      (world-IsLawful leaving_machine) (world-IsConfigured leaving_machine)
      (λ calls. ("poweredOn", refl), λ calls. refl, λ calls. refl) refl refl refl

-- A machine that wants more memory than it has.
abbrev growing : State VdMachine
growing = start (record linked_machine { spec = record linked_spec { memory = some 8192 } })

reconcile_hardware-settles_example :
    (let s : State VdMachine = (reconcile_hardware (world linked_machine) "A" growing).1 in
      (reconcile_hardware (world linked_machine) "A" growing).0 ≡ done tt
      × (s.object.status.hardware.cpu ≡ 2)
      × (s.object.status.hardware.memory ≡ 8192)
      × (reconcile_hardware (world linked_machine) "A" s ≡ (done tt, s)))
reconcile_hardware-settles_example =
    reconcile_hardware-settles (world linked_machine) "A" growing (λ calls cpu memory. refl)

-- A machine without a network.
abbrev offline : State VdMachine
offline = start (record linked_machine { spec = record linked_spec { network = none } })

bootstrap-panics_example :
    (reconcile_bootstrap_data (world linked_machine) "A" owner_machine offline).0 ≡ panic
unfolding lookup
bootstrap-panics_example =
    bootstrap-panics (world linked_machine) "A" owner_machine "secret" "id: x" "vmwaredesktop://A"
      (("value", "id: x") ∷ []) offline refl refl refl refl refl refl

new_vd_client-starts_example :
    (((("set" == "") ≡ false) × (("set" == "") ≡ false) × (("set" == "") ≡ false)) ↔ (
      (new_vd_client (world fresh_machine) (start fresh_machine)).0
      ≡ done (record { url = "set"; username = "set"; password = "set" })))
new_vd_client-starts_example =
    new_vd_client-starts (world fresh_machine) (λ name. "set") (start fresh_machine)
      (λ calls name. refl)

-- A machine whose bootstrap data has not been sent.
abbrev waiting : State VdMachine
waiting = start linked_machine

reconcile_bootstrap_data-sends_example :
    IsProvided
      (world linked_machine)
      "A"
      linked_machine
      owner_machine
      (reconcile_bootstrap_data (world linked_machine) "A" owner_machine waiting).1
unfolding reconcile_bootstrap_data provide_bootstrap_data send_bootstrap_data get_secret_data
    build_metadata send_guestinfo render_ethernet ipam_addresses find_ipam_address fold_each
    for_each lookup ◌>>=◌
reconcile_bootstrap_data-sends_example =
    reconcile_bootstrap_data-sends (world linked_machine) "A" owner_machine waiting
      (world-IsLawful linked_machine) refl refl

reconcile_bootstrap_data-decodes_example :
    IsReceived
      (world linked_machine)
      "A"
      linked_machine
      owner_machine
      (reconcile_bootstrap_data (world linked_machine) "A" owner_machine waiting).1.calls
unfolding reconcile_bootstrap_data provide_bootstrap_data send_bootstrap_data get_secret_data
    build_metadata send_guestinfo render_ethernet ipam_addresses find_ipam_address fold_each
    for_each lookup ◌>>=◌
reconcile_bootstrap_data-decodes_example =
    reconcile_bootstrap_data-decodes (world linked_machine) "A" owner_machine waiting
      (world-IsLawful linked_machine) refl refl

-- The calls of a run for a cluster, before the patch.
abbrev cluster_calls : List Call
cluster_calls =
    new_cluster_helper sample_cluster
    ∷ get_owner_cluster sample_cluster.meta
    ∷ get_vd_cluster (record { namespace = "default"; name = "lab" })
    ∷ []

reconcile-stores_example :
    (c : VdCluster) × (is_settled sample_cluster c ≡ true)
    × (reconcile
          (world fresh_machine)
          (record { namespace = "default"; name = "lab" })
          (record { object = tt; calls = [] })
        ≡ (done no_requeue, record { object = tt; calls = patch_cluster c ∷ cluster_calls }))
reconcile-stores_example =
    reconcile-stores (world fresh_machine) (record { namespace = "default"; name = "lab" })
      sample_cluster owner_cluster (world-IsLawful fresh_machine) refl refl refl refl
