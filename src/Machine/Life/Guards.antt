-- ===== src/Machine/Life/Guards.antt =====
-- When a virtual machine is created and when it is deleted: the steps.
pub mod Whole
use cluster_api_provider_vmw.Base.{
  ◌≡◌, refl, sym, ◌==◌, eq_iff, String, Bool, true, false, Option, none, some, is_some, List, [],
  ◌∷◌, any, arith, nat_eq, Bool-cases, inl, inr, if◌then◌else◌,
}
use cluster_api_provider_vmw.Api.Machine.{ObjectMeta, VdMachine, machine_finalizer}
use cluster_api_provider_vmw.Remote.{
  Call, create_vm, delete_vm, OwnerMachine, OwnerCluster, Http, success, failure, get_power_state,
  Env, IsLawful, has, Error,
}
use cluster_api_provider_vmw.Program.{State, M, ◌>>=◌, get, pure, Result, no_requeue}
use cluster_api_provider_vmw.Program.Keeps.{Keeps, Leads, Leads-bind, Leads-get, Leads-modify}
use cluster_api_provider_vmw.Machine.Core.{
  Core, core, Holds, send-Frame, Frame-Keeps, modify-Keeps, lifecycle,
}
use cluster_api_provider_vmw.Machine.Core.Frames.{new_vd_client-Frame}
use cluster_api_provider_vmw.Machine.Create.{reconcile_create_vm}
use cluster_api_provider_vmw.Machine.Power.{powered_off}
use cluster_api_provider_vmw.Machine.Delete.{delete_known, release, reconcile_delete}
use cluster_api_provider_vmw.Machine.Normal.{
  create_or_update, update_machine, may_start, hold, reconcile_normal,
}
use cluster_api_provider_vmw.Machine.Reconcile.{
  dispatch, after_observe, handle, patch, patch_now, unlink,
}
use cluster_api_provider_vmw.Machine.Fields.{set_state}
use cluster_api_provider_vmw.Machine.Delete.Ends.{is_delete}
use cluster_api_provider_vmw.Machine.Life.{is_create}
use cluster_api_provider_vmw.Machine.Life.Order.{HasDeeds, update_machine-HasDeeds}

pub any-lifecycle_create :
    (calls : List Call) → any is_create (lifecycle calls) ≡ any is_create calls
any-lifecycle_create [] = refl
any-lifecycle_create (create_vm _ _ ∷ calls) = refl
any-lifecycle_create (_ ∷ calls) = any-lifecycle_create calls

pub any-lifecycle_delete :
    (calls : List Call) → any is_delete (lifecycle calls) ≡ any is_delete calls
any-lifecycle_delete [] = refl
any-lifecycle_delete (delete_vm _ ∷ calls) = refl
any-lifecycle_delete (_ ∷ calls) = any-lifecycle_delete calls

-- Before a machine is created or deleted.
pub record IsFresh (deleted : Bool) (vm_id : Option String) (c : Core) : Type 0 where
  pub deleted_same : c.meta.deleted ≡ deleted
  pub vm_same : c.vm_id ≡ vm_id
  pub not_created : any is_create c.calls ≡ false
  pub not_deleted : any is_delete c.calls ≡ false

-- The same, with the finalizer added.
record IsHeld (deleted : Bool) (vm_id : Option String) (c : Core) : Type 0 where
  fresh : IsFresh deleted vm_id c
  held : has machine_finalizer c.meta.finalizers ≡ true

-- What a creation and a deletion need.
pub record IsGuarded (deleted : Bool) (vm_id : Option String) (start : Bool) (c : Core)
    : Type 0 where
  pub creates :
      any is_create c.calls ≡ true
      → (deleted ≡ false)
        × (vm_id ≡ none)
        × (start ≡ true)
        × (has machine_finalizer c.meta.finalizers ≡ true)
  pub deletes :
      any is_delete c.calls ≡ true
      → (deleted ≡ true) × (is_some vm_id ≡ true) × (c.state ≡ some powered_off)

module _ (deleted : Bool) (vm_id : Option String) where
  abbrev pub Fresh : State VdMachine → Type 0
  Fresh = Holds (IsFresh deleted vm_id)

  abbrev Held : State VdMachine → Type 0
  Held = Holds (IsHeld deleted vm_id)

  abbrev pub Guarded : Bool → State VdMachine → Type 0
  Guarded start = Holds (IsGuarded deleted vm_id start)

  pub Fresh-Guarded : (start : Bool) (s : State VdMachine) → Fresh s → Guarded start s
  Fresh-Guarded start s h = record {
    of = record { creates = λ e. grind arith; deletes = λ e. grind arith };
  }

  Held-Guarded : (start : Bool) (s : State VdMachine) → Held s → Guarded start s
  Held-Guarded start s h = Fresh-Guarded start s (record { of = h.of.fresh })

start_if : Env → Bool → OwnerMachine → M VdMachine Result
start_if E b owner = if b then create_or_update E owner else pure no_requeue

module _ (E : Env) (lawful : IsLawful E) where
  module _ (deleted : Bool) (vm_id : Option String) where
    create_vm-Guarded :
        (s : State VdMachine)
        → deleted ≡ false
        → vm_id ≡ none
        → (Held deleted vm_id) s
        → Guarded deleted vm_id true (reconcile_create_vm E s).1
    unfolding reconcile_create_vm ◌>>=◌
    create_vm-Guarded s d v h = ground arith

    update_machine-Guarded :
        (v : String) (owner : OwnerMachine) (s : State VdMachine)
        → (Held deleted vm_id) s
        → Guarded deleted vm_id true (update_machine E v owner s).1
    update_machine-Guarded v owner s h =
        let k = (update_machine-HasDeeds E s.object.meta false false v owner).at s (record {
          of = record {
            meta_same = refl;
            created_same = h.of.fresh.not_created;
            deleted_same = h.of.fresh.not_deleted;
          };
        }) in
        record {
          of = record {
            creates = λ e. grind (arith, k.of.created_same);
            deletes = λ e. grind (arith, k.of.deleted_same);
          };
        }

    by_vm : OwnerMachine → Option String → M VdMachine Result
    by_vm owner o = elim o [ none ↦ reconcile_create_vm E | some v ↦ update_machine E v owner ]

    by_vm-Guarded :
        (owner : OwnerMachine) (o : Option String) (s : State VdMachine)
        → deleted ≡ false
        → vm_id ≡ o
        → (Held deleted vm_id) s
        → Guarded deleted vm_id true (by_vm owner o s).1
    unfolding by_vm
    by_vm-Guarded owner none s d v h = create_vm-Guarded s d v h
    by_vm-Guarded owner (some vm) s d v h = update_machine-Guarded vm owner s h

    create_or_update-Guarded :
        (owner : OwnerMachine)
        → deleted ≡ false
        → Leads (Held deleted vm_id) (Guarded deleted vm_id true) (create_or_update E owner)
    unfolding create_or_update by_vm
    create_or_update-Guarded owner d =
        Leads-bind _ _ (Frame-Keeps _ (new_vd_client-Frame E)) (Held-Guarded deleted vm_id true)
          λ _.
            Leads-get _
              λ s h. by_vm-Guarded owner s.object.spec.vm_id s d (sym h.of.fresh.vm_same) h

    hold-Held :
        (s : State VdMachine)
        → (Fresh deleted vm_id) s
        → (Held deleted vm_id) (record s { object = hold E s.object })
    hold-Held s h = record {
      of = record {
        fresh = record {
          deleted_same = h.of.deleted_same;
          vm_same = h.of.vm_same;
          not_created = h.of.not_created;
          not_deleted = h.of.not_deleted;
        };
        held = lawful.has-add_finalizer machine_finalizer s.object.meta.finalizers;
      };
    }

    start-Guarded :
        (b : Bool) (owner : OwnerMachine) (s : State VdMachine)
        → deleted ≡ false
        → (Held deleted vm_id) s
        → Guarded deleted vm_id b (start_if E b owner s).1
    unfolding start_if ◌>>=◌
    start-Guarded true owner s d h = (create_or_update-Guarded owner d).at s h
    start-Guarded false owner s d h = Held-Guarded deleted vm_id false s h

    pub normal-Guarded :
        (cluster : OwnerCluster) (owner : OwnerMachine)
        → deleted ≡ false
        → Leads
            (Fresh deleted vm_id)
            (Guarded deleted vm_id (may_start cluster owner))
            (reconcile_normal E cluster owner)
    unfolding reconcile_normal start_if
    normal-Guarded cluster owner d =
        Leads-modify (hold E) _
          λ s h. start-Guarded (may_start cluster owner) owner _ d (hold-Held s h)

module _ (E : Env) (deleted : Bool) (vm_id : Option String) where
  -- The state that is observed decides between a deletion and a power-off.
  delete_in-Guarded :
      (start : Bool) (v : String) (o : Option String) (s : State VdMachine)
      → deleted ≡ true
      → vm_id ≡ some v
      → s.object.status.state ≡ o
      → (Fresh deleted vm_id) s
      → Guarded deleted vm_id start (delete_known E v s).1
  unfolding delete_known ◌>>=◌
  delete_in-Guarded start v none s d e state h = ground arith
  delete_in-Guarded start v (some x) s d e state h = let off = eq_iff x powered_off in ground arith

  pub delete_known-Leads :
      (start : Bool) (v : String)
      → deleted ≡ true
      → vm_id ≡ some v
      → Leads (Fresh deleted vm_id) (Guarded deleted vm_id start) (delete_known E v)
  delete_known-Leads start v d e = record {
    at = λ s h. delete_in-Guarded start v s.object.status.state s d e refl h;
  }
