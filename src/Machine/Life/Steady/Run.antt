-- ===== src/Machine/Life/Steady/Run.antt =====
-- A run of the handler for a machine for which nothing is left to do.
use cluster_api_provider_vmw.Base.{
  String, ◌==◌, ◌≡◌, refl, ◌∙◌, Bool, true, false, none, some, inl, inr, List, ◌∷◌, ◌*◌,
  if◌then◌else◌,
}
use cluster_api_provider_vmw.Api.Machine.{VdMachine, machine_finalizer}
use cluster_api_provider_vmw.Remote.{
  Call, OwnerMachine, OwnerCluster, Env, get_power_state, change_power_state, on, patch_machine,
  success,
}
use cluster_api_provider_vmw.Program.{State, done, requeue, second}
use cluster_api_provider_vmw.Program.Returns.{bind-done}
use cluster_api_provider_vmw.Program.Steps.{run_get, run_modify, run_some, run_then, run_else}
use cluster_api_provider_vmw.Client.{new_vd_client}
use cluster_api_provider_vmw.Client.Starts.{IsConfigured, client_calls, new_vd_client_configured}
use cluster_api_provider_vmw.Machine.Fields.{set_state}
use cluster_api_provider_vmw.Machine.Create.{reconcile_create_vm}
use cluster_api_provider_vmw.Machine.Power.{powered_off, reconcile_power_state}
use cluster_api_provider_vmw.Machine.Normal.{
  update_machine, create_or_update, reconcile_normal, may_start, hold,
}
use cluster_api_provider_vmw.Machine.Reconcile.{dispatch, handle}
use cluster_api_provider_vmw.Machine.Life.Observed.{observed, handle-observed}
use cluster_api_provider_vmw.Machine.Life.Steady.{
  HasVnc, IsSteady, power_quiet, power_wakes, update_quiet, start_quiet,
}

-- Another state of the power, and other finalizers.
abbrev altered : String → List String → VdMachine → VdMachine
altered state finalizers m = record m {
  meta = record (m.meta) { finalizers = finalizers };
  status = record (m.status) { state = some state };
}

module _ (state : String) (finalizers : List String) (m : VdMachine) where
  HasVnc-altered : HasVnc m → HasVnc (altered state finalizers m)
  HasVnc-altered (inl h) = inl h
  HasVnc-altered (inr h) = inr (record {
    spec = h.spec;
    spec_is = h.spec_is;
    port = h.port;
    password = h.password;
    status = h.status;
    status_is = h.status_is;
    agree = h.agree;
  })

  IsSteady-altered :
      {vm_id : String} → IsSteady vm_id m → IsSteady vm_id (altered state finalizers m)
  IsSteady-altered h = record {
    alive = h.alive;
    linked = h.linked;
    cpu = h.cpu;
    memory = h.memory;
    adapters = h.adapters;
    no_pools = h.no_pools;
    folders = h.folders;
    vnc = HasVnc-altered h.vnc;
    provided = h.provided;
    addresses = h.addresses;
  }

module _ (E : Env) (vm_id : String) where
  -- After the second client.
  abbrev pub watched : String → State VdMachine → State VdMachine
  watched state s =
      let t : State VdMachine = observed vm_id state s in
      record { object = hold E t.object; calls = client_calls t.calls }

  -- After the call that starts the machine.
  abbrev pub woken : String → State VdMachine → State VdMachine
  woken state t = record {
    object = set_state (some state) t.object;
    calls = change_power_state vm_id on ∷ t.calls;
  }

  -- What a run comes to.
  abbrev pub rested : String → String → State VdMachine → State VdMachine
  rested state state' s =
      let t = watched state s in if state == powered_off then woken state' t else t

  IsSteady-watched :
      (state : String) (s : State VdMachine)
      → IsSteady vm_id s.object
      → IsSteady vm_id (watched state s).object
  IsSteady-watched state s h =
      IsSteady-altered state (E.add_finalizer machine_finalizer s.object.meta.finalizers) s.object h

  IsSteady-woken :
      (state : String) (t : State VdMachine)
      → IsSteady vm_id t.object
      → IsSteady vm_id (woken state t).object
  IsSteady-woken state t h = IsSteady-altered state t.object.meta.finalizers t.object h

  module _ (cluster : OwnerCluster) (owner : OwnerMachine) (url username password : String)
      (configured : IsConfigured E url username password)
      (ready : may_start cluster owner ≡ true) where
    dispatch_steady :
        (s : State VdMachine)
        → IsSteady vm_id s.object
        → dispatch E cluster owner s
          ≡ update_machine E vm_id owner
              (record { object = hold E s.object; calls = client_calls s.calls })
    unfolding dispatch reconcile_normal create_or_update
    dispatch_steady s h =
        let t : State VdMachine = record { object = hold E s.object; calls = s.calls } in
        let u : State VdMachine = record { object = t.object; calls = client_calls s.calls } in
        run_get s _
        ∙ run_else s s.object.meta.deleted _ _ h.alive
        ∙ run_modify s (hold E) _
        ∙ run_then t (may_start cluster owner) _ _ ready
        ∙ bind-done (new_vd_client E) _ t u _
            (new_vd_client_configured E url username password t configured)
        ∙ run_get u _
        ∙ run_some u s.object.spec.vm_id vm_id (reconcile_create_vm E) _ h.linked

    handle_steady :
        (state : String) (s : State VdMachine)
        → IsSteady vm_id s.object
        → E.answer (client_calls s.calls) (get_power_state vm_id) ≡ success state
        → ((calls : List Call) (m : VdMachine) → E.answer calls (patch_machine m) ≡ none)
        → handle E cluster owner s ≡ update_machine E vm_id owner (watched state s)
    handle_steady state s h told stores =
        handle-observed E vm_id cluster owner url username password state s configured h.linked told
          (stores _ _)
        ∙ dispatch_steady (observed vm_id state s)
            (IsSteady-altered state s.object.meta.finalizers s.object h)

  -- The last steps, for each outcome of the test.
  power_rested_at :
      (state state' : String) (s : State VdMachine) (off : Bool)
      → (state == powered_off) ≡ off
      → ((calls : List Call) → E.answer calls (change_power_state vm_id on) ≡ success state')
      → reconcile_power_state E vm_id (watched state s)
        ≡ (done tt, if off then woken state' (watched state s) else watched state s)
  power_rested_at state state' s true e wakes =
      power_wakes E vm_id state state' (watched state s) refl e (wakes (watched state s).calls)
  power_rested_at state state' s false e wakes = power_quiet E vm_id state (watched state s) refl e

  IsSteady-rested_at :
      (state' : String) (t : State VdMachine) (off : Bool)
      → IsSteady vm_id t.object
      → IsSteady vm_id (if off then woken state' t else t).object
  IsSteady-rested_at state' t true h = IsSteady-woken state' t h
  IsSteady-rested_at state' t false h = h

-- Let a machine not be in deletion and have a virtual machine, let none of its ethernets name a
-- pool, and let its status have what its spec asks for: the CPUs and the memory, the adapters, the
-- shared folders, VNC with nothing left to generate, the mark that the bootstrap data was provided,
-- and at least one address; the adapters and VNC are known in the status also where the spec asks
-- for none. Let the variables of the environment be set, the cluster be provisioned
-- and the owner name a secret. If the service tells the state of the power and starts the virtual
-- machine when asked, and each patch is stored, then the handler asks for the next run in ten
-- seconds, its calls beside those that build the client twice are exactly the one for the state,
-- the patch that stores it and, if the virtual machine is powered off, the one that starts it; in
-- the machine only the state and the finalizers are written, and all that was said of the machine
-- holds of it again.
pub handle-IsSteady :
    (E : Env) (vm_id : String) (cluster : OwnerCluster) (owner : OwnerMachine)
    (url username password state state' : String) (s : State VdMachine)
    → IsConfigured E url username password
    → may_start cluster owner ≡ true
    → IsSteady vm_id s.object
    → E.answer (client_calls s.calls) (get_power_state vm_id) ≡ success state
    → ((calls : List Call) (m : VdMachine) → E.answer calls (patch_machine m) ≡ none)
    → ((calls : List Call) → E.answer calls (change_power_state vm_id on) ≡ success state')
    → (handle E cluster owner s ≡ (done (requeue (10 * second)), rested E vm_id state state' s))
      × IsSteady vm_id (rested E vm_id state state' s).object
handle-IsSteady E vm_id cluster owner url username password state state' s configured ready h told
      stores wakes =
    let t = watched E vm_id state s in
    let k = IsSteady-watched E vm_id state s h in
    let l = IsSteady-rested_at E vm_id state' t (state == powered_off) k in
    (
      handle_steady E vm_id cluster owner url username password configured ready state s h told
            stores
          ∙ update_quiet E vm_id owner t k
          ∙ start_quiet E vm_id owner t (rested E vm_id state state' s) k l
              (power_rested_at E vm_id state state' s (state == powered_off) refl wakes),
      l,
    )
