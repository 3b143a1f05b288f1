-- ===== src/Machine/Life/Failed.antt =====
-- Runs in which the service fails to tell or to change the state of the power.
use cluster_api_provider_vmw.Base.{
  ℕ, String, ◌==◌, ◌≡◌, refl, ◌∙◌, true, false, Option, none, some, List, ◌∷◌, arith, nat_eq,
  if◌then◌else◌,
}
use cluster_api_provider_vmw.Api.Machine.{VdMachine, machine_finalizer}
use cluster_api_provider_vmw.Remote.{
  Error, Call, OwnerMachine, OwnerCluster, Env, IsLawful, has, get_power_state, change_power_state,
  off, patch_machine, success, failure,
}
use cluster_api_provider_vmw.Program.{
  Outcome, done, fail, panic, State, Result, no_requeue, deferred, finish, ◌>>=◌, ◌>>◌,
}
use cluster_api_provider_vmw.Program.Returns.{bind-done}
use cluster_api_provider_vmw.Program.Steps.{run_get, run_send, run_some, run_then, run_deferred}
use cluster_api_provider_vmw.Client.{new_vd_client}
use cluster_api_provider_vmw.Client.Starts.{IsConfigured, client_calls, new_vd_client_configured}
use cluster_api_provider_vmw.Machine.Fields.{set_state}
use cluster_api_provider_vmw.Machine.Power.{powered_off}
use cluster_api_provider_vmw.Machine.Delete.{release, delete_known, reconcile_delete}
use cluster_api_provider_vmw.Machine.Life.Observed.{observed, handle-observed}
use cluster_api_provider_vmw.Machine.Reconcile.{unlink, patch_now, dispatch, after_observe, handle}

-- What a failed call means for a run: no response is a panic, 404 is a machine that is gone.
abbrev pub answered : Option ℕ → Error → Outcome Result
answered none e = panic
answered (some code) e = if nat_eq code 404 then done no_requeue else fail e

-- The machine that is left.
abbrev pub left : Option ℕ → VdMachine → VdMachine
left none m = m
left (some code) m = if nat_eq code 404 then unlink m else m

module _ (E : Env) (vm_id : String) (cluster : OwnerCluster) (owner : OwnerMachine)
    (url username password : String) (configured : IsConfigured E url username password) where
  observe_failed :
      (code : Option ℕ) (e : Error) (s : State VdMachine)
      → after_observe E cluster owner (failure code e) s
        ≡ (answered code e, record { object = left code s.object; calls = s.calls })
  unfolding after_observe ◌>>=◌
  observe_failed none e s = refl
  observe_failed (some code) e s = ground arith

  -- Up to the answer on the state of the power.
  handle_observes :
      (code : Option ℕ) (e : Error) (s : State VdMachine)
      → s.object.spec.vm_id ≡ some vm_id
      → E.answer (client_calls s.calls) (get_power_state vm_id) ≡ failure code e
      → handle E cluster owner s
        ≡ after_observe E cluster owner
            (failure code e)
            (record { object = s.object; calls = get_power_state vm_id ∷ client_calls s.calls })
  unfolding handle
  handle_observes code e s linked told =
      let t : State VdMachine = record { object = s.object; calls = client_calls s.calls } in
      bind-done (new_vd_client E) _ s t _
        (new_vd_client_configured E url username password s configured)
      ∙ run_get t _
      ∙ run_some t s.object.spec.vm_id vm_id (dispatch E cluster owner) _ linked
      ∙ run_send t E (get_power_state vm_id) (failure code e) _ told

  -- The deferred patch stores the machine and does not change what a run comes to.
  finish_stored :
      (code : Option ℕ) (e : Error) (t : State VdMachine)
      → E.answer t.calls (patch_machine t.object) ≡ none
      → finish (patch_now E) (answered code e) t
        ≡ (answered code e, record { object = t.object; calls = patch_machine t.object ∷ t.calls })
  unfolding patch_now
  finish_stored none e t stores = refl
  finish_stored (some code) e t stores = ground arith

-- If the environment is configured, the machine has the id of a virtual machine, the service fails
-- to tell its state of power and the deferred patch is stored, then the run makes no other call and
-- ends by the status of the response: without a response it panics, with 404 it returns without
-- asking for another run, and with any other it returns the error. The machine that is stored is
-- the one that was there, less its two ids where the response is 404.
pub handle-unanswered :
    (E : Env) (vm_id : String) (cluster : OwnerCluster) (owner : OwnerMachine)
    (url username password : String) (code : Option ℕ) (e : Error) (s : State VdMachine)
    → IsConfigured E url username password
    → s.object.spec.vm_id ≡ some vm_id
    → E.answer (client_calls s.calls) (get_power_state vm_id) ≡ failure code e
    → E.answer (get_power_state vm_id ∷ client_calls s.calls) (patch_machine (left code s.object))
      ≡ none
    → deferred (patch_now E) (handle E cluster owner) s ≡ (
      answered code e,
      record {
        object = left code s.object;
        calls = patch_machine (left code s.object) ∷ get_power_state vm_id ∷ client_calls s.calls;
      },
    )
handle-unanswered E vm_id cluster owner url username password code e s configured linked told
      stores =
    let t : State VdMachine = record {
      object = left code s.object;
      calls = get_power_state vm_id ∷ client_calls s.calls;
    } in
    run_deferred (patch_now E) (handle E cluster owner) s t (answered code e) (
      handle_observes E vm_id cluster owner url username password configured code e s linked told
      ∙ observe_failed E vm_id cluster owner url username password configured code e _)
    ∙ finish_stored E vm_id cluster owner url username password configured code e t stores

-- The machine without its finalizer, with the state of the power that was told.
abbrev pub let_go : Env → String → VdMachine → VdMachine
let_go E state m = release E (set_state (some state) m)

module _ (E : Env) (vm_id : String) where
  delete_known_gone :
      (state : String) (e : Error) (s : State VdMachine)
      → s.object.status.state ≡ some state
      → (state == powered_off) ≡ false
      → E.answer s.calls (change_power_state vm_id off) ≡ failure (some 404) e
      → delete_known E vm_id s ≡ (
        fail e,
        record { object = release E s.object; calls = change_power_state vm_id off ∷ s.calls },
      )
  unfolding delete_known ◌>>=◌
  delete_known_gone state e s known up gone = ground arith

  delete_gone :
      (url username password state : String) (e : Error) (s : State VdMachine)
      → IsConfigured E url username password
      → s.object.spec.vm_id ≡ some vm_id
      → s.object.status.state ≡ some state
      → (state == powered_off) ≡ false
      → E.answer (client_calls s.calls) (change_power_state vm_id off) ≡ failure (some 404) e
      → reconcile_delete E s ≡ (
        fail e,
        record {
          object = release E s.object;
          calls = change_power_state vm_id off ∷ client_calls s.calls;
        },
      )
  unfolding reconcile_delete
  delete_gone url username password state e s configured linked known up gone =
      let t : State VdMachine = record { object = s.object; calls = client_calls s.calls } in
      run_get s _
      ∙ run_some s s.object.spec.vm_id vm_id _ (λ i. new_vd_client E >> delete_known E i) linked
      ∙ bind-done (new_vd_client E) _ s t _
          (new_vd_client_configured E url username password s configured)
      ∙ delete_known_gone state e t known up gone

-- If the environment is configured, and a machine that is being deleted has a virtual machine whose
-- power the service tells to be on, while the call that powers it off finds none (404), and both
-- patches are stored, then the run returns the error of that call although the deletion is complete:
-- the machine that the deferred patch stores does not have the finalizer.
pub handle-gone :
    (E : Env) (vm_id : String) (cluster : OwnerCluster) (owner : OwnerMachine)
    (url username password state : String) (e : Error) (s : State VdMachine)
    → IsLawful E
    → IsConfigured E url username password
    → s.object.meta.deleted ≡ true
    → s.object.spec.vm_id ≡ some vm_id
    → E.answer (client_calls s.calls) (get_power_state vm_id) ≡ success state
    → (state == powered_off) ≡ false
    → E.answer (client_calls (observed vm_id state s).calls) (change_power_state vm_id off)
      ≡ failure (some 404) e
    → ((calls : List Call) (m : VdMachine) → E.answer calls (patch_machine m) ≡ none)
    → (deferred (patch_now E) (handle E cluster owner) s ≡ (
      fail e,
      record {
        object = let_go E state s.object;
        calls =
            patch_machine (let_go E state s.object)
            ∷ change_power_state vm_id off
            ∷ client_calls (observed vm_id state s).calls;
      },
    ))
      × (has machine_finalizer (let_go E state s.object).meta.finalizers ≡ false)
unfolding dispatch patch_now
handle-gone E vm_id cluster owner url username password state e s lawful configured deleted linked
      told up gone stores =
    let t : State VdMachine = observed vm_id state s in
    (
      run_deferred (patch_now E) (handle E cluster owner) s _ (fail e) (
          handle-observed E vm_id cluster owner url username password state s configured linked told
            (stores _ _)
          ∙ run_get t _
          ∙ run_then t t.object.meta.deleted (reconcile_delete E) _ deleted
          ∙ delete_gone E vm_id url username password state e t configured linked refl up gone),
      lawful.has-remove_finalizer machine_finalizer s.object.meta.finalizers,
    )
