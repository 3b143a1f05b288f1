-- ===== src/Machine/Delete.antt =====
-- `reconcileDelete` of the machine
pub mod Ends
use cluster_api_provider_vmw.Base.{String, Option, ℕ, none, some, ◌==◌, nat_eq, if◌then◌else◌}
use cluster_api_provider_vmw.Api.Machine.{VdMachine, machine_finalizer}
use cluster_api_provider_vmw.Remote.{
  Error, Http, success, failure, change_power_state, get_power_state, delete_vm, off, Env,
}
use cluster_api_provider_vmw.Program.{
  M, pure, raise, crash, deref, get, gets, modify, send, or_raise, ◌>>=◌, ◌>>◌, Result, no_requeue,
}
use cluster_api_provider_vmw.Client.{new_vd_client}
use cluster_api_provider_vmw.Machine.Fields.{set_state}
use cluster_api_provider_vmw.Machine.Power.{powered_off}

-- `controllerutil.RemoveFinalizer(vdMachine, infrav1.MachineFinalizer)`
abbrev pub release : Env → VdMachine → VdMachine
release E m = record m {
  meta = record (m.meta) { finalizers = E.remove_finalizer machine_finalizer m.meta.finalizers };
}

-- The handling of an error while the machine is powered off: the error is returned also where the
-- machine is gone.
off_failed : Env → Option ℕ → Error → M VdMachine Result
off_failed E none e = crash
off_failed E (some code) e = (if nat_eq code 404 then modify (release E) else pure tt) >> raise e

after_get_state : Env → Http String → M VdMachine Result
unfolding off_failed
after_get_state E (success state) = modify (set_state (some state)) >> pure no_requeue
after_get_state E (failure code e) = off_failed E code e

after_power_off : Env → String → Http String → M VdMachine Result
unfolding off_failed after_get_state
after_power_off E vm_id (success _) = send E (get_power_state vm_id) >>= after_get_state E
after_power_off E vm_id (failure code e) = off_failed E code e

power_off : Env → String → M VdMachine Result
unfolding after_power_off
power_off E vm_id = send E (change_power_state vm_id off) >>= after_power_off E vm_id

destroy : Env → String → M VdMachine Result
destroy E vm_id = do
  reply ← send E (delete_vm vm_id)
  or_raise reply
  modify (release E)
  pure no_requeue

-- The part behind `NewVDClient`.
unfoldable pub delete_known : Env → String → M VdMachine Result
unfolding power_off destroy
delete_known E vm_id = do
  current ← gets (λ m. m.status.state)
  state ← deref current
  if state == powered_off then destroy E vm_id else power_off E vm_id

unfoldable pub reconcile_delete : Env → M VdMachine Result
reconcile_delete E = do
  m ← get
  elim m.spec.vm_id [
    | none ↦ modify (release E) >> pure no_requeue
    | some vm_id ↦ new_vd_client E >> delete_known E vm_id
  ]
