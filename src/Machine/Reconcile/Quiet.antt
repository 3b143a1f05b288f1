-- ===== src/Machine/Reconcile/Quiet.antt =====
-- When a run of `Reconcile` does no more than read.
use cluster_api_provider_vmw.Base.{
  ◌≡◌, refl, Bool, true, false, Option, none, some, [], ◌∷◌, any, arith,
}
use cluster_api_provider_vmw.Api.Machine.{VdMachine}
use cluster_api_provider_vmw.Remote.{
  Call, Fetched, found, missing, broken, ObjectKey, OwnerMachine, OwnerCluster, get_vd_machine,
  get_owner_machine, get_cluster, Env,
}
use cluster_api_provider_vmw.Program.{State, ◌>>=◌}
use cluster_api_provider_vmw.Machine.Reconcile.{with_cluster, with_owner, with_machine, reconcile}

-- The call does more than read the machine, its owner and its cluster.
abbrev pub is_act : Call → Bool
is_act (get_vd_machine _) = false
is_act (get_owner_machine _) = false
is_act (get_cluster _) = false
is_act _ = true

module _ (E : Env) (key : ObjectKey) where
  -- The machine, its owner and its cluster are there, and there is no pause.
  pub record IsActive : Type 0 where
    pub machine : VdMachine
    pub owner : OwnerMachine
    pub cluster : OwnerCluster
    pub machine_found : E.answer [] (get_vd_machine key) ≡ found machine
    pub owner_found :
        E.answer (get_vd_machine key ∷ []) (get_owner_machine machine.meta) ≡ found (some owner)
    pub cluster_found :
        E.answer (get_owner_machine machine.meta ∷ get_vd_machine key ∷ []) (get_cluster owner.meta)
        ≡ found cluster
    pub unpaused : E.is_paused cluster machine.meta ≡ false

  cluster_acts :
      (m : VdMachine) (owner : OwnerMachine) (reply : Fetched OwnerCluster) (s : State (Unit {0}))
      → any is_act s.calls ≡ false
      → any is_act (with_cluster E m owner reply s).1.calls ≡ true
      → (cluster : OwnerCluster) × (reply ≡ found cluster) × (E.is_paused cluster m.meta ≡ false)
  unfolding with_cluster ◌>>=◌
  cluster_acts m owner (found cluster) s quiet acts = (cluster, refl, ground arith)
  cluster_acts m owner (missing e) s quiet acts = ground arith
  cluster_acts m owner (broken e) s quiet acts = ground arith

  owner_acts :
      (m : VdMachine) (reply : Fetched (Option OwnerMachine)) (s : State (Unit {0}))
      → any is_act s.calls ≡ false
      → any is_act (with_owner E m reply s).1.calls ≡ true
      → (owner : OwnerMachine) × (reply ≡ found (some owner))
        × ((cluster : OwnerCluster) × (E.answer s.calls (get_cluster owner.meta) ≡ found cluster)
            × (E.is_paused cluster m.meta ≡ false))
  unfolding with_owner ◌>>=◌
  owner_acts m (found none) s quiet acts = ground arith
  owner_acts m (found (some owner)) s quiet acts =
      (owner, refl, cluster_acts m owner _ _ quiet acts)
  owner_acts m (missing e) s quiet acts = ground arith
  owner_acts m (broken e) s quiet acts = ground arith

  machine_acts :
      (reply : Fetched VdMachine)
      → E.answer [] (get_vd_machine key) ≡ reply
      → any is_act
          (with_machine E reply (record { object = tt; calls = get_vd_machine key ∷ [] })).1.calls
        ≡ true
      → IsActive
  unfolding with_machine ◌>>=◌
  machine_acts (found m) e acts =
      let s : State (Unit {0}) = record {
        object = tt;
        calls = get_owner_machine m.meta ∷ get_vd_machine key ∷ [];
      } in
      let o = owner_acts m _ s refl acts in
      record {
        machine = m;
        owner = o.0;
        cluster = o.2.0;
        machine_found = e;
        owner_found = o.1;
        cluster_found = o.2.1;
        unpaused = o.2.2;
      }
  machine_acts (missing x) e acts = ground arith
  machine_acts (broken x) e acts = ground arith

  -- If a run of `Reconcile` makes any call but the reads of the machine, its owner and its cluster,
  -- then these three are there, and neither the machine nor its cluster is paused.
  pub reconcile-acts :
      any is_act (reconcile E key (record { object = tt; calls = [] })).1.calls ≡ true → IsActive
  unfolding reconcile ◌>>=◌
  reconcile-acts acts = machine_acts (E.answer [] (get_vd_machine key)) refl acts
