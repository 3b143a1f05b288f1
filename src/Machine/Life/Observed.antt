-- ===== src/Machine/Life/Observed.antt =====
-- The part of a run in which the service tells the state of the power.
use cluster_api_provider_vmw.Base.{String, ◌≡◌, refl, ◌∙◌, none, some, ◌∷◌}
use cluster_api_provider_vmw.Api.Machine.{VdMachine}
use cluster_api_provider_vmw.Remote.{
  OwnerMachine, OwnerCluster, Env, get_power_state, patch_machine, success,
}
use cluster_api_provider_vmw.Program.{State, done}
use cluster_api_provider_vmw.Program.Returns.{bind-done}
use cluster_api_provider_vmw.Program.Steps.{run_get, run_modify, run_send, run_some}
use cluster_api_provider_vmw.Client.{new_vd_client}
use cluster_api_provider_vmw.Client.Starts.{IsConfigured, client_calls, new_vd_client_configured}
use cluster_api_provider_vmw.Machine.Fields.{set_state}
use cluster_api_provider_vmw.Machine.Reconcile.{patch, patch_now, dispatch, after_observe, handle}

-- The state is noted in the machine, which is stored.
abbrev pub observed : String → String → State VdMachine → State VdMachine
observed vm_id state s =
    let m = set_state (some state) s.object in
    record { object = m; calls = patch_machine m ∷ get_power_state vm_id ∷ client_calls s.calls }

patch_stores :
    (E : Env) (s : State VdMachine)
    → E.answer s.calls (patch_machine s.object) ≡ none
    → patch E s
      ≡ (done none, record { object = s.object; calls = patch_machine s.object ∷ s.calls })
unfolding patch patch_now
patch_stores E s e = rw e refl

pub handle-observed :
    (E : Env) (vm_id : String) (cluster : OwnerCluster) (owner : OwnerMachine)
    (url username password state : String) (s : State VdMachine)
    → IsConfigured E url username password
    → s.object.spec.vm_id ≡ some vm_id
    → E.answer (client_calls s.calls) (get_power_state vm_id) ≡ success state
    → E.answer
        (get_power_state vm_id ∷ client_calls s.calls)
        (patch_machine (set_state (some state) s.object))
      ≡ none
    → handle E cluster owner s ≡ dispatch E cluster owner (observed vm_id state s)
unfolding handle after_observe
handle-observed E vm_id cluster owner url username password state s configured linked told stores =
    let t : State VdMachine = record { object = s.object; calls = client_calls s.calls } in
    let u : State VdMachine = record {
      object = s.object;
      calls = get_power_state vm_id ∷ t.calls;
    } in
    let v : State VdMachine = record {
      object = set_state (some state) s.object;
      calls = u.calls;
    } in
    bind-done (new_vd_client E) _ s t _
      (new_vd_client_configured E url username password s configured)
    ∙ run_get t _
    ∙ run_some t s.object.spec.vm_id vm_id (dispatch E cluster owner) _ linked
    ∙ run_send t E (get_power_state vm_id) (success state) _ told
    ∙ run_modify u (set_state (some state)) _
    ∙ bind-done (patch E) _ v (observed vm_id state s) none (patch_stores E v stores)
