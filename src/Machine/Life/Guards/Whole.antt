-- ===== src/Machine/Life/Guards/Whole.antt =====
-- When a virtual machine is created and when it is deleted: a whole run of the handler.
use cluster_api_provider_vmw.Base.{
  ◌≡◌, refl, sym, ◌∙◌, String, Bool, true, false, Option, none, some, is_some, [], any, arith,
  nat_eq, if◌then◌else◌,
}
use cluster_api_provider_vmw.Api.Machine.{VdMachine, machine_finalizer}
use cluster_api_provider_vmw.Remote.{
  Error, OwnerMachine, OwnerCluster, Http, success, failure, get_power_state, Env, IsLawful, has,
}
use cluster_api_provider_vmw.Program.{
  State, M, ◌>>=◌, pure, raise, send, Result, no_requeue, ◌>>◌, modify,
}
use cluster_api_provider_vmw.Program.Keeps.{
  Keeps, Leads, Leads-bind, Leads-get, Leads-if, Leads-modify,
}
use cluster_api_provider_vmw.Machine.Core.{core, Holds, send-Frame, Frame-Keeps, modify-Keeps}
use cluster_api_provider_vmw.Client.{new_vd_client}
use cluster_api_provider_vmw.Machine.Core.Frames.{new_vd_client-Frame}
use cluster_api_provider_vmw.Machine.Power.{powered_off}
use cluster_api_provider_vmw.Machine.Delete.{delete_known, release, reconcile_delete}
use cluster_api_provider_vmw.Machine.Normal.{may_start, reconcile_normal}
use cluster_api_provider_vmw.Machine.Reconcile.{
  dispatch, after_observe, handle, patch, patch_now, unlink,
}
use cluster_api_provider_vmw.Machine.Fields.{set_state}
use cluster_api_provider_vmw.Machine.Delete.Ends.{is_delete}
use cluster_api_provider_vmw.Machine.Life.{is_create, handled}
use cluster_api_provider_vmw.Machine.Life.Guards.{
  IsFresh, IsGuarded, Fresh, Guarded, Fresh-Guarded, normal-Guarded, delete_known-Leads,
  any-lifecycle_create, any-lifecycle_delete,
}

delete_by : Env → Option String → M VdMachine Result
delete_by E o = elim o [
  | none ↦ modify (release E) >> pure no_requeue
  | some vm_id ↦ new_vd_client E >> delete_known E vm_id
]

dispatch_by : Env → OwnerCluster → OwnerMachine → Bool → M VdMachine Result
dispatch_by E cluster owner b = if b then reconcile_delete E else reconcile_normal E cluster owner

module _ (E : Env) (deleted : Bool) (vm_id : Option String) (start : Bool) where
  delete-Guarded :
      (o : Option String) (s : State VdMachine)
      → deleted ≡ true
      → vm_id ≡ o
      → Fresh deleted vm_id s
      → Guarded deleted vm_id start (delete_by E o s).1
  unfolding delete_by ◌>>=◌
  delete-Guarded none s d e h = ground arith
  delete-Guarded (some v) s d e h =
      (Leads-bind (new_vd_client E) (λ _. delete_known E v) (Frame-Keeps _ (new_vd_client-Frame E))
          (Fresh-Guarded deleted vm_id start)
          λ _. delete_known-Leads E deleted vm_id start v d e).at
        s h

module _ (E : Env) (lawful : IsLawful E) (deleted : Bool) (vm_id : Option String) where
  module _ (cluster : OwnerCluster) (owner : OwnerMachine) where
    abbrev Q : State VdMachine → Type 0
    Q = Guarded deleted vm_id (may_start cluster owner)

    by-Guarded :
        (b : Bool) (s : State VdMachine)
        → deleted ≡ b
        → Fresh deleted vm_id s
        → Q (dispatch_by E cluster owner b s).1
    unfolding dispatch_by reconcile_delete ◌>>=◌ delete_by
    by-Guarded true s d h =
        delete-Guarded E deleted vm_id (may_start cluster owner) s.object.spec.vm_id s d
          (sym h.of.vm_same) h
    by-Guarded false s d h = (normal-Guarded E lawful deleted vm_id cluster owner d).at s h

    dispatch-Guarded : Leads (Fresh deleted vm_id) Q (dispatch E cluster owner)
    unfolding dispatch dispatch_by
    dispatch-Guarded =
        Leads-get _ λ s h. by-Guarded s.object.meta.deleted s (sym h.of.deleted_same) h

    set_state-Fresh :
        (state : String) → Keeps (Holds (IsFresh deleted vm_id)) (modify (set_state (some state)))
    set_state-Fresh state = modify-Keeps _ _ (λ s h. ground arith)

    patch-Fresh : Keeps (Holds (IsFresh deleted vm_id)) (patch E)
    unfolding patch patch_now
    patch-Fresh = record { at = λ s h. ground arith }

    unlink-Guarded :
        (start : Bool) (s : State VdMachine)
        → Fresh deleted vm_id s
        → Guarded deleted vm_id start (record s { object = unlink s.object })
    unlink-Guarded start s h = record {
      of = record {
        creates = λ e. grind (arith, h.of.not_created);
        deletes = λ e. grind (arith, h.of.not_deleted);
      };
    }

    after_patch : Option Error → M VdMachine Result
    after_patch error = elim error [ none ↦ dispatch E cluster owner | some e ↦ raise e ]

    after_patch-Guarded : (error : Option Error) → Leads (Fresh deleted vm_id) Q (after_patch error)
    unfolding after_patch ◌>>=◌
    after_patch-Guarded none = dispatch-Guarded
    after_patch-Guarded (some e) = record { at = λ s h. Fresh-Guarded deleted vm_id _ s h }

    after_observe-Guarded :
        (reply : Http String) → Leads (Fresh deleted vm_id) Q (after_observe E cluster owner reply)
    unfolding after_observe after_patch ◌>>=◌
    after_observe-Guarded (success state) =
        Leads-bind _ _ (set_state-Fresh state) (Fresh-Guarded deleted vm_id _)
          λ _. Leads-bind _ _ patch-Fresh (Fresh-Guarded deleted vm_id _) after_patch-Guarded
    after_observe-Guarded (failure none e) = record {
      at = λ s h. Fresh-Guarded deleted vm_id _ s h;
    }
    after_observe-Guarded (failure (some code) e) =
        Leads-if (nat_eq code 404) (modify unlink >> pure no_requeue) (raise e)
          (Leads-modify unlink (pure no_requeue) (unlink-Guarded (may_start cluster owner)))
          (record { at = λ s h. Fresh-Guarded deleted vm_id _ s h })

    handle_by : Option String → M VdMachine Result
    handle_by o = elim o [
      | none ↦ dispatch E cluster owner
      | some vm ↦ send E (get_power_state vm) >>= after_observe E cluster owner
    ]

    handle_by-Guarded : (o : Option String) → Leads (Fresh deleted vm_id) Q (handle_by o)
    unfolding handle_by
    handle_by-Guarded none = dispatch-Guarded
    handle_by-Guarded (some vm) =
        Leads-bind _ _ (Frame-Keeps _ (send-Frame E (get_power_state vm) refl))
          (Fresh-Guarded deleted vm_id _) after_observe-Guarded

    handle-Leads : Leads (Fresh deleted vm_id) Q (handle E cluster owner)
    unfolding handle handle_by
    handle-Leads =
        Leads-bind _ _ (Frame-Keeps _ (new_vd_client-Frame E)) (Fresh-Guarded deleted vm_id _)
          λ _. Leads-get _ λ s h. (handle_by-Guarded s.object.spec.vm_id).at s h

module _ (E : Env) (lawful : IsLawful E) (cluster : OwnerCluster) (owner : OwnerMachine) where
  whole-Guarded :
      (m : VdMachine)
      → IsGuarded m.meta.deleted m.spec.vm_id
          (may_start cluster owner)
          (core (handled E cluster owner m []))
  whole-Guarded m =
      ((handle-Leads E lawful m.meta.deleted m.spec.vm_id cluster owner).at
        (record { object = m; calls = [] })
        (record {
          of = record {
            deleted_same = refl;
            vm_same = refl;
            not_created = refl;
            not_deleted = refl;
          };
        })).of

  -- If a run of the handler that starts with no calls made sends a request to create a virtual
  -- machine, then the machine is not being deleted and had no virtual machine, the cluster is
  -- provisioned and the bootstrap secret named, and the finalizer is on the machine afterwards,
  -- provided that adding a finalizer leaves it there.
  pub handle-creates :
      (m : VdMachine)
      → any is_create (handled E cluster owner m []).calls ≡ true
      → (m.meta.deleted ≡ false)
        × (m.spec.vm_id ≡ none)
        × (may_start cluster owner ≡ true)
        × (has machine_finalizer (handled E cluster owner m []).object.meta.finalizers ≡ true)
  handle-creates m e =
      (whole-Guarded m).creates (any-lifecycle_create (handled E cluster owner m []).calls ∙ e)

  -- If a run of the handler that starts with no calls made sends a request to delete a virtual
  -- machine, then the machine is being deleted, it had a virtual machine, and its status says
  -- afterwards that this is powered off.
  pub handle-deletes :
      (m : VdMachine)
      → any is_delete (handled E cluster owner m []).calls ≡ true
      → (m.meta.deleted ≡ true)
        × (is_some m.spec.vm_id ≡ true)
        × ((handled E cluster owner m []).object.status.state ≡ some powered_off)
  handle-deletes m e =
      (whole-Guarded m).deletes (any-lifecycle_delete (handled E cluster owner m []).calls ∙ e)
