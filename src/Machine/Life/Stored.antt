-- ===== src/Machine/Life/Stored.antt =====
-- What a run of `Reconcile` stores.
use cluster_api_provider_vmw.Base.{
  ◌≡◌, refl, ◌∙◌, any, true, Option, none, some, List, [], ◌∷◌, arith,
}
use cluster_api_provider_vmw.Api.Machine.{VdMachine}
use cluster_api_provider_vmw.Remote.{
  Error, ObjectKey, OwnerMachine, OwnerCluster, Fetched, found, missing, broken, Call,
  patch_machine, change_power_state, on, off, get_vd_machine, Env,
}
use cluster_api_provider_vmw.Program.{State, M, ◌>>=◌, focus, deferred}
use cluster_api_provider_vmw.Machine.Core.{lifecycle, core}
use cluster_api_provider_vmw.Machine.Reconcile.{
  patch_now, handle, after_helper, with_helper, with_cluster, with_owner, with_machine, reconcile,
}
use cluster_api_provider_vmw.Machine.Life.{IsSound, StoredSound, is_power_on, handled}
use cluster_api_provider_vmw.Machine.Life.Sound.{Sound, handle-Sound, deferred-Sound}

-- The other calls store no machine.
lifecycle-StoredSound : (calls : List Call) → StoredSound (lifecycle calls) → StoredSound calls
lifecycle-StoredSound [] h = h
lifecycle-StoredSound (patch_machine m ∷ calls) h = (h.0, lifecycle-StoredSound calls h.1)
lifecycle-StoredSound (_ ∷ calls) h = lifecycle-StoredSound calls h

abbrev Stores : {A : Type 0} → M (Unit {0}) A → Type 0
Stores m = (s : State (Unit {0})) → lifecycle s.calls ≡ [] → StoredSound (lifecycle (m s).1.calls)

module _ (E : Env) where
  fresh-Sound :
      (m : VdMachine) (calls : List Call)
      → IsSound m
      → lifecycle calls ≡ []
      → Sound (core (record { object = m; calls = calls }))
  fresh-Sound m calls sound quiet = ground arith

  handle-Stores :
      (m : VdMachine) (cluster : OwnerCluster) (owner : OwnerMachine)
      → IsSound m
      → Stores (focus m (deferred (patch_now E) (handle E cluster owner)))
  handle-Stores m cluster owner sound s quiet =
      ((deferred-Sound E _ (handle-Sound E cluster owner)).at
        (record { object = m; calls = s.calls })
        (record { of = fresh-Sound m s.calls sound quiet })).of.stored

  after_helper-Stores :
      (m : VdMachine) (cluster : OwnerCluster) (owner : OwnerMachine) (error : Option Error)
      → IsSound m
      → Stores (after_helper E m cluster owner error)
  unfolding after_helper ◌>>=◌
  after_helper-Stores m cluster owner none sound s quiet =
      handle-Stores m cluster owner sound s quiet
  after_helper-Stores m cluster owner (some e) sound s quiet = ground arith

  with_helper-Stores :
      (m : VdMachine) (cluster : OwnerCluster) (owner : OwnerMachine)
      → IsSound m
      → Stores (with_helper E m cluster owner)
  unfolding with_helper ◌>>=◌
  with_helper-Stores m cluster owner sound s quiet =
      after_helper-Stores m cluster owner _ sound _ quiet

  with_cluster-Stores :
      (m : VdMachine) (owner : OwnerMachine) (reply : Fetched OwnerCluster)
      → IsSound m
      → Stores (with_cluster E m owner reply)
  unfolding with_cluster ◌>>=◌
  with_cluster-Stores m owner (found cluster) sound s quiet =
      ground (arith, with_helper-Stores m cluster owner sound s quiet)
  with_cluster-Stores m owner _ sound s quiet = ground arith

  with_owner-Stores :
      (m : VdMachine) (reply : Fetched (Option OwnerMachine))
      → IsSound m
      → Stores (with_owner E m reply)
  unfolding with_owner ◌>>=◌
  with_owner-Stores m (found none) sound s quiet = ground arith
  with_owner-Stores m (found (some owner)) sound s quiet =
      with_cluster-Stores m owner _ sound _ quiet
  with_owner-Stores m (missing e) sound s quiet = ground arith
  with_owner-Stores m (broken e) sound s quiet = ground arith

  with_machine-Stores :
      (reply : Fetched VdMachine)
      → ((m : VdMachine) → reply ≡ found m → IsSound m)
      → Stores (with_machine E reply)
  unfolding with_machine ◌>>=◌
  with_machine-Stores (found m) sound s quiet = with_owner-Stores m _ (sound m refl) _ quiet
  with_machine-Stores (missing e) sound s quiet = ground arith
  with_machine-Stores (broken e) sound s quiet = ground arith

  -- If the machine that is fetched is sound, then so is every machine that a run of `Reconcile`
  -- stores, whatever the services answer and however the run ends.
  pub reconcile-StoredSound :
      (key : ObjectKey)
      → ((m : VdMachine) → E.answer [] (get_vd_machine key) ≡ found m → IsSound m)
      → StoredSound (reconcile E key (record { object = tt; calls = [] })).1.calls
  unfolding reconcile ◌>>=◌
  reconcile-StoredSound key sound =
      let s : State (Unit {0}) = record { object = tt; calls = get_vd_machine key ∷ [] } in
      let reply = E.answer [] (get_vd_machine key) in
      lifecycle-StoredSound (with_machine E reply s).1.calls
        (with_machine-Stores reply sound s refl)

any-lifecycle_power_on :
    (calls : List Call) → any is_power_on (lifecycle calls) ≡ any is_power_on calls
any-lifecycle_power_on [] = refl
any-lifecycle_power_on (change_power_state _ on ∷ calls) = refl
any-lifecycle_power_on (change_power_state _ off ∷ calls) = any-lifecycle_power_on calls
any-lifecycle_power_on (_ ∷ calls) = any-lifecycle_power_on calls

module _ (E : Env) (cluster : OwnerCluster) (owner : OwnerMachine) where
  -- If a run of the handler on a sound machine that starts with no calls made sends a request to
  -- power a virtual machine on, then the machine has its bootstrap data marked as provided afterwards.
  pub handle-powers :
      (m : VdMachine)
      → IsSound m
      → any is_power_on (handled E cluster owner m []).calls ≡ true
      → (handled E cluster owner m []).object.status.initialization.bootstrap_data_provided ≡ true
  handle-powers m sound e =
      ((handle-Sound E cluster owner).at (record { object = m; calls = [] })
          (record { of = fresh-Sound E m [] sound refl })).of.powered
        (any-lifecycle_power_on (handled E cluster owner m []).calls ∙ e)
