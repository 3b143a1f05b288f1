-- ===== src/Cluster.antt =====
-- internal/controller/vdcluster_controller.go
pub mod Ends
use cluster_api_provider_vmw.Base.{true, Option, none, some, ◌∷◌, if◌then◌else◌}
use cluster_api_provider_vmw.Api.Cluster.{VdCluster, cluster_finalizer}
use cluster_api_provider_vmw.Remote.{
  Error, Fetched, found, missing, broken, ObjectKey, OwnerCluster, get_vd_cluster,
  get_owner_cluster, new_cluster_helper, patch_cluster, Env,
}
use cluster_api_provider_vmw.Program.{
  State, M, pure, raise, get, modify, send, deferred, focus, ◌>>=◌, ◌>>◌, Result, no_requeue,
}

module _ (E : Env) where
  -- `controllerutil.RemoveFinalizer(vdCluster, infrav1.ClusterFinalizer)`
  abbrev pub release : VdCluster → VdCluster
  release c = record c {
    meta = record (c.meta) { finalizers = E.remove_finalizer cluster_finalizer c.meta.finalizers };
  }

  abbrev pub mark_ready : VdCluster → VdCluster
  mark_ready c = record c { status = record { ready = true } }

  -- `reconcileDelete`
  reconcile_delete : M VdCluster Result
  reconcile_delete = do modify release; pure no_requeue

  -- `helper.Patch(ctx, vdCluster)`
  patch_now : State VdCluster → Option Error × State VdCluster
  patch_now s =
      let c = patch_cluster s.object in (E.answer s.calls c, record s { calls = c ∷ s.calls })

  -- What runs before the deferred patch.
  unfoldable pub handle : M VdCluster Result
  unfolding reconcile_delete
  handle = do
    c ← get
    if c.meta.deleted then reconcile_delete else (modify mark_ready >> pure no_requeue)

  with_helper : VdCluster → M (Unit {0}) Result
  unfolding patch_now
  with_helper c = do
    error ← send E (new_cluster_helper c)
    elim error [ some e ↦ raise e | none ↦ focus c (deferred patch_now handle) ]

  with_owner : VdCluster → Fetched (Option OwnerCluster) → M (Unit {0}) Result
  unfolding with_helper
  with_owner c (found none) = pure no_requeue
  with_owner c (found (some owner)) =
      if E.is_paused owner c.meta then pure no_requeue else with_helper c
  with_owner c (missing e) = raise e
  with_owner c (broken e) = raise e

  with_cluster : Fetched VdCluster → M (Unit {0}) Result
  unfolding with_owner
  with_cluster (found c) = send E (get_owner_cluster c.meta) >>= with_owner c
  with_cluster (missing e) = pure no_requeue
  with_cluster (broken e) = raise e

  unfoldable pub reconcile : ObjectKey → M (Unit {0}) Result
  unfolding with_cluster
  reconcile key = send E (get_vd_cluster key) >>= with_cluster
