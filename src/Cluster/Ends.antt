-- ===== src/Cluster/Ends.antt =====
-- What a run of the cluster's `Reconcile` stores.
use cluster_api_provider_vmw.Base.{
  ◌≡◌, some, none, List, [], ◌∷◌, arith, Bool, true, false, not, if◌then◌else◌,
}
use cluster_api_provider_vmw.Api.Cluster.{VdCluster, cluster_finalizer}
use cluster_api_provider_vmw.Remote.{
  Call, ObjectKey, OwnerCluster, found, get_vd_cluster, get_owner_cluster, new_cluster_helper,
  patch_cluster, Env, IsLawful, has,
}
use cluster_api_provider_vmw.Program.{no_requeue, with_patch_error, ◌>>=◌, deferred}
use cluster_api_provider_vmw.Cluster.{release, mark_ready, handle, reconcile}

-- A cluster that is being deleted is let go, another one is ready.
abbrev pub is_settled : VdCluster → VdCluster → Bool
is_settled before after =
    if before.meta.deleted
    then not (has cluster_finalizer after.meta.finalizers)
    else after.status.ready

module _ (E : Env) (key : ObjectKey) (c : VdCluster) (owner : OwnerCluster) where
  settled : VdCluster
  settled = if c.meta.deleted then release E c else mark_ready E c

  settled_lem : IsLawful E → is_settled c settled ≡ true
  unfolding settled
  settled_lem lawful =
      let r = lawful.has-remove_finalizer cluster_finalizer c.meta.finalizers in grind arith

  -- If the cluster and its owner are found, it is not paused and the patch helper is built, then a run
  -- of `Reconcile` stores one cluster, without the finalizer if the cluster is being deleted and ready
  -- otherwise, and returns the error of that patch if there is one.
  pub reconcile-stores :
      IsLawful E
      → E.answer [] (get_vd_cluster key) ≡ found c
      → E.answer (get_vd_cluster key ∷ []) (get_owner_cluster c.meta) ≡ found (some owner)
      → E.is_paused owner c.meta ≡ false
      → E.answer (get_owner_cluster c.meta ∷ get_vd_cluster key ∷ []) (new_cluster_helper c) ≡ none
      → (let calls : List Call =
            new_cluster_helper c ∷ get_owner_cluster c.meta ∷ get_vd_cluster key ∷ [] in
          (c' : VdCluster) × (is_settled c c' ≡ true)
          × (reconcile E key (record { object = tt; calls = [] }) ≡ (
            with_patch_error no_requeue (E.answer calls (patch_cluster c')),
            record { object = tt; calls = patch_cluster c' ∷ calls },
          )))
  unfolding reconcile settled deferred handle ◌>>=◌
  reconcile-stores lawful a b p h = (settled, settled_lem lawful, ground arith)
