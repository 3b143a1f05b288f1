-- ===== src/Machine/Delete/Ends.antt =====
-- A machine that is being deleted goes away in two runs.
use cluster_api_provider_vmw.Base.{
  String, ◌≡◌, ◌==◌, ap, ◌∙◌, any, some, List, ◌∷◌, arith, Bool, true, false,
}
use cluster_api_provider_vmw.Api.Machine.{VdMachine, machine_finalizer}
use cluster_api_provider_vmw.Remote.{
  Call, change_power_state, get_power_state, delete_vm, off, success, Env, IsLawful, has,
}
use cluster_api_provider_vmw.Program.{State, done, no_requeue, ◌>>=◌}
use cluster_api_provider_vmw.Client.Starts.{IsConfigured, client_calls, new_vd_client_configured}
use cluster_api_provider_vmw.Machine.Power.{powered_off}
use cluster_api_provider_vmw.Machine.Fields.{set_state}
use cluster_api_provider_vmw.Machine.Delete.{delete_known, reconcile_delete}

abbrev pub is_delete : Call → Bool
is_delete (delete_vm _) = true
is_delete _ = false

module _ (E : Env) (vm_id : String) where
  -- The service does as it is told.
  abbrev pub Obeys : Type 0
  Obeys =
      ((calls : List Call)
        → (state : String) × (E.answer calls (change_power_state vm_id off) ≡ success state))
      × ((calls : List Call)
          → E.answer (change_power_state vm_id off ∷ calls) (get_power_state vm_id)
            ≡ success powered_off)
      × ((calls : List Call) → E.answer calls (delete_vm vm_id) ≡ success tt)

  off_run :
      (state : String) (s : State VdMachine)
      → Obeys
      → s.object.status.state ≡ some state
      → (state == powered_off) ≡ false
      → (delete_known E vm_id s).0 ≡ done no_requeue
        × ((delete_known E vm_id s).1.object ≡ set_state (some powered_off) s.object)
  unfolding delete_known ◌>>=◌
  off_run state s obeys e differs =
      let a = obeys.0 s.calls in let b = obeys.1 s.calls in ground arith

  delete_run :
      (s : State VdMachine)
      → IsLawful E
      → Obeys
      → s.object.status.state ≡ some powered_off
      → (delete_known E vm_id s).0 ≡ done no_requeue
        × (has machine_finalizer (delete_known E vm_id s).1.object.meta.finalizers ≡ false)
        × (any is_delete (delete_known E vm_id s).1.calls ≡ true)
  unfolding delete_known ◌>>=◌
  delete_run s lawful obeys e =
      let a = obeys.2 s.calls in
      let r = lawful.has-remove_finalizer machine_finalizer s.object.meta.finalizers in ground arith

  -- A run for a machine that has a virtual machine goes on behind the client.
  after_client :
      (url username password : String) (s : State VdMachine)
      → IsConfigured E url username password
      → s.object.spec.vm_id ≡ some vm_id
      → reconcile_delete E s ≡ delete_known E vm_id (record s { calls = client_calls s.calls })
  unfolding reconcile_delete ◌>>=◌
  after_client url username password s h e =
      let c = new_vd_client_configured E url username password s h in ground arith

  -- If the service obeys and the environment variables are set, then two runs of the deletion step
  -- for a machine whose virtual machine is known and not powered off end without an error: the first
  -- leaves it powered off in the status and changes nothing else, and after the second it is deleted
  -- and the finalizer gone.
  pub reconcile_delete-ends :
      (url username password state : String) (s : State VdMachine)
      → IsLawful E
      → IsConfigured E url username password
      → Obeys
      → s.object.spec.vm_id ≡ some vm_id
      → s.object.status.state ≡ some state
      → (state == powered_off) ≡ false
      → (let s1 : State VdMachine = (reconcile_delete E s).1 in
          let s2 : State VdMachine = (reconcile_delete E s1).1 in
          ((reconcile_delete E s).0 ≡ done no_requeue)
          × (s1.object ≡ set_state (some powered_off) s.object)
          × ((reconcile_delete E s1).0 ≡ done no_requeue)
          × (has machine_finalizer s2.object.meta.finalizers ≡ false)
          × (any is_delete s2.calls ≡ true))
  reconcile_delete-ends url username password state s lawful configured obeys linked e differs =
      let s0 : State VdMachine = record s { calls = client_calls s.calls } in
      let r0 = after_client url username password s configured linked in
      let a = off_run state s0 obeys e differs in
      let s1 : State VdMachine = (reconcile_delete E s).1 in
      let o1 : s1.object ≡ set_state (some powered_off) s.object = ap (λ r. r.1.object) r0 ∙ a.1 in
      let r1 =
        after_client url username password s1 configured (ap (λ m. m.spec.vm_id) o1 ∙ linked) in
      let b =
        delete_run (record s1 { calls = client_calls s1.calls }) lawful obeys
          (ap (λ m. m.status.state) o1) in
      (
        ap (λ r. r.0) r0 ∙ a.0,
        o1,
        ap (λ r. r.0) r1 ∙ b.0,
        ap (λ r. has machine_finalizer r.1.object.meta.finalizers) r1 ∙ b.1,
        ap (λ r. any is_delete r.1.calls) r1 ∙ b.2,
      )
