-- ===== src/Examples/Stale.antt =====
-- A machine whose virtual machine was removed behind the controller's back.
use cluster_api_provider_vmw.Base.{◌≡◌, refl, true, some, List, []}
use cluster_api_provider_vmw.Api.Machine.{VdMachine}
use cluster_api_provider_vmw.Remote.{Call, Reply, Env, success, failure, get_power_state, create_vm}
use cluster_api_provider_vmw.Program.{State, done}
use cluster_api_provider_vmw.Client.Starts.{IsConfigured}
use cluster_api_provider_vmw.Machine.Bootstrap.{reconcile_bootstrap_data}
use cluster_api_provider_vmw.Machine.Reconcile.{handle}
use cluster_api_provider_vmw.Machine.Life.Stale.{handle-stale}
use cluster_api_provider_vmw.Examples.World.{
  set-IsConfigured, start, world, answer_with, fresh_status, linked_machine, owner_machine,
  owner_cluster,
}

abbrev orphan : VdMachine
orphan = record linked_machine {
  status = record fresh_status {
    ready = true;
    initialization = record { provisioned = true; bootstrap_data_provided = true };
  };
}

-- The service no longer has the old virtual machine, and makes one with another id.
abbrev answer_lost : List Call → (c : Call) → Reply c
answer_lost h (get_power_state _) = failure (some 404) "not found"
answer_lost h (create_vm _ _) =
    success (record { id = "B"; processors = some 2; memory = some 4096 })
answer_lost h c = answer_with orphan h c

abbrev lost : Env
lost = record (world orphan) { answer = answer_lost }

lost-IsConfigured : IsConfigured lost "set" "set" "set"
lost-IsConfigured = set-IsConfigured lost (λ calls name. refl)

handle-stale_example :
    (let s2 : State VdMachine =
        (handle lost owner_cluster owner_machine
          (handle lost owner_cluster owner_machine (start orphan)).1).1 in
      (s2.object.spec.vm_id ≡ some "B")
      × (s2.object.status.ready ≡ true)
      × (s2.object.status.addresses ≡ [])
      × (reconcile_bootstrap_data lost "B" owner_machine s2 ≡ (done tt, s2)))
handle-stale_example =
    handle-stale lost owner_cluster owner_machine "set" "set" "set" "A" "B" "not found" 2 4096
      (start orphan) lost-IsConfigured (λ calls name template. refl) refl refl refl refl refl
