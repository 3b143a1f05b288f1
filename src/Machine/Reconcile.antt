-- ===== src/Machine/Reconcile.antt =====
-- `VDMachineReconciler.Reconcile`
pub mod Quiet
use cluster_api_provider_vmw.Base.{String, Option, none, some, ◌∷◌, nat_eq, if◌then◌else◌}
use cluster_api_provider_vmw.Api.Machine.{VdMachine}
use cluster_api_provider_vmw.Remote.{
  Error, Http, success, failure, Fetched, found, missing, broken, ObjectKey, OwnerMachine,
  OwnerCluster, get_vd_machine, get_owner_machine, get_cluster, get_power_state, new_machine_helper,
  patch_machine, Env,
}
use cluster_api_provider_vmw.Program.{
  done, State, M, pure, raise, crash, get, modify, send, deferred, focus, ◌>>=◌, ◌>>◌, Result,
  no_requeue,
}
use cluster_api_provider_vmw.Client.{new_vd_client}
use cluster_api_provider_vmw.Machine.Fields.{set_state, set_provider_id, set_vm_id}
use cluster_api_provider_vmw.Machine.Delete.{reconcile_delete}
use cluster_api_provider_vmw.Machine.Normal.{reconcile_normal}

-- The machine is gone from the service: the links to it are cleared.
abbrev pub unlink : VdMachine → VdMachine
unlink m = set_vm_id none (set_provider_id none m)

module _ (E : Env) where
  -- `helper.Patch(ctx, vdMachine)`, with the machine as it is.
  unfoldable pub patch_now : State VdMachine → Option Error × State VdMachine
  patch_now s =
      let c = patch_machine s.object in (E.answer s.calls c, record s { calls = c ∷ s.calls })

  -- The same as a step of the handler.
  unfoldable pub patch : M VdMachine (Option Error)
  unfolding patch_now
  patch s = let (e, s') = patch_now s in (done e, s')

  -- The last lines of `Reconcile`.
  unfoldable pub dispatch : OwnerCluster → OwnerMachine → M VdMachine Result
  dispatch cluster owner = do
    m ← get
    if m.meta.deleted then reconcile_delete E else reconcile_normal E cluster owner

  unfoldable pub after_observe : OwnerCluster → OwnerMachine → Http String → M VdMachine Result
  after_observe cluster owner (failure none e) = crash
  after_observe cluster owner (failure (some code) e) =
      if nat_eq code 404 then (modify unlink >> pure no_requeue) else raise e
  after_observe cluster owner (success state) = do
    modify (set_state (some state))
    error ← patch
    elim error [ none ↦ dispatch cluster owner | some e ↦ raise e ]

  -- What runs before the deferred patch.
  unfoldable pub handle : OwnerCluster → OwnerMachine → M VdMachine Result
  handle cluster owner = do
    new_vd_client E
    m ← get
    elim m.spec.vm_id [
      | none ↦ dispatch cluster owner
      | some vm_id ↦ send E (get_power_state vm_id) >>= after_observe cluster owner
    ]

  -- From `patch.NewHelper` on.
  unfoldable pub after_helper :
      VdMachine → OwnerCluster → OwnerMachine → Option Error → M (Unit {0}) Result
  after_helper vm cluster owner (some e) = raise e
  after_helper vm cluster owner none = focus vm (deferred patch_now (handle cluster owner))

  unfoldable pub with_helper : VdMachine → OwnerCluster → OwnerMachine → M (Unit {0}) Result
  with_helper vm cluster owner = send E (new_machine_helper vm) >>= after_helper vm cluster owner

  -- What follows the fetch of the cluster, of the owner and of the machine.
  unfoldable pub with_cluster :
      VdMachine → OwnerMachine → Fetched OwnerCluster → M (Unit {0}) Result
  with_cluster vm owner (found cluster) =
      if E.is_paused cluster vm.meta then pure no_requeue else with_helper vm cluster owner
  with_cluster vm owner _ = pure no_requeue

  unfoldable pub with_owner : VdMachine → Fetched (Option OwnerMachine) → M (Unit {0}) Result
  with_owner vm (found none) = pure no_requeue
  with_owner vm (found (some owner)) = send E (get_cluster owner.meta) >>= with_cluster vm owner
  with_owner vm (missing e) = raise e
  with_owner vm (broken e) = raise e

  unfoldable pub with_machine : Fetched VdMachine → M (Unit {0}) Result
  with_machine (found vm) = send E (get_owner_machine vm.meta) >>= with_owner vm
  with_machine (missing e) = pure no_requeue
  with_machine (broken e) = raise e

  unfoldable pub reconcile : ObjectKey → M (Unit {0}) Result
  reconcile key = send E (get_vd_machine key) >>= with_machine
