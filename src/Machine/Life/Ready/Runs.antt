-- ===== src/Machine/Life/Ready/Runs.antt =====
-- Three runs of the handler bring a new machine up.
use cluster_api_provider_vmw.Base.{
  ◌≡◌, refl, ap, ◌∙◌, ◌*◌, String, Bool, true, false, none, some, ◌∷◌, arith,
}
use cluster_api_provider_vmw.Api.Machine.{VdMachine, VdMachineSpec, VdNetwork}
use cluster_api_provider_vmw.Remote.{
  OwnerMachine, OwnerCluster, Env, get_power_state, patch_machine, success,
}
use cluster_api_provider_vmw.Program.{
  State, M, pure, Result, no_requeue, requeue, millisecond, second, is_zero, ◌then_unless_requeue◌,
}
use cluster_api_provider_vmw.Program.Yields.{
  Yields, Yields-bind, Yields-pure, Yields-get, Yields-modify, Yields-send, Yields-some,
  Yields-none, Yields-then, Yields-else,
}
use cluster_api_provider_vmw.Client.{new_vd_client}
use cluster_api_provider_vmw.Client.Starts.{IsConfigured, new_vd_client_configured}
use cluster_api_provider_vmw.Machine.Fields.{set_state}
use cluster_api_provider_vmw.Machine.Create.{reconcile_create_vm}
use cluster_api_provider_vmw.Machine.Hardware.{reconcile_hardware}
use cluster_api_provider_vmw.Machine.Bootstrap.{reconcile_bootstrap_data}
use cluster_api_provider_vmw.Machine.Power.{reconcile_power_state}
use cluster_api_provider_vmw.Machine.Normal.{
  start_machine, update_machine, create_or_update, reconcile_normal, may_start, hold,
}
use cluster_api_provider_vmw.Machine.Reconcile.{patch, patch_now, dispatch, after_observe, handle}
use cluster_api_provider_vmw.Machine.Life.Ready.{IsPlain, Stage, Serves}
use cluster_api_provider_vmw.Machine.Life.Ready.Steps.{
  To, Comes, Yields-To, hardware_lem, adapters_new, adapters_old, pools_lem, folders_lem, vnc_new,
  vnc_old, power_lem,
}
use cluster_api_provider_vmw.Machine.Life.Ready.Last.{
  IsUp, reconcile_bootstrap_data-Yields, reconcile_addresses_lem,
}

-- A step that asks for no other run, and the rest.
Yields-unless :
    {R : Result → State VdMachine → Type 0} (P : VdMachine → Type 0) (m rest : M VdMachine Result)
    (s : State VdMachine)
    → Yields (To no_requeue P) m s
    → ((t : State VdMachine) → P t.object → Yields R rest t)
    → Yields R (m then_unless_requeue rest) s
Yields-unless P m rest s h k =
    Yields-bind m _ s h
      λ res t q. Yields-then (is_zero res) rest (pure res) t (ap is_zero q.0) (k t q.1)

-- A step that asks for another run.
Yields-stop :
    (P : VdMachine → Type 0) (n : Result) (m rest : M VdMachine Result) (s : State VdMachine)
    → is_zero n ≡ false
    → Yields (To n P) m s
    → Yields (To n P) (m then_unless_requeue rest) s
Yields-stop P n m rest s e h = Yields-bind m _ s h λ res t q.
    Yields-else (is_zero res) rest (pure res) t (ap is_zero q.0 ∙ e) (Yields-pure res t q)

module _ (E : Env) (spec : VdMachineSpec) (state adapters vnc provided : Bool) where
  pub client-Yields :
      (url username password : String) (s : State VdMachine)
      → IsConfigured E url username password
      → Stage spec state adapters vnc provided s.object
      → Yields (λ _ t. Stage spec state adapters vnc provided t.object) (new_vd_client E) s
  client-Yields url username password s configured h =
      let e = new_vd_client_configured E url username password s configured in
      record { value = _; end = _; same = e; holds = h }

  patch_lem :
      (s : State VdMachine)
      → E.answer s.calls (patch_machine s.object) ≡ none
      → Stage spec state adapters vnc provided s.object
      → Comes none (Stage spec state adapters vnc provided) (patch E s)
  unfolding patch patch_now
  patch_lem s e h = ground arith

  pub dispatch-Yields :
      {R : Result → State VdMachine → Type 0} (cluster : OwnerCluster) (owner : OwnerMachine)
      (url username password : String) (s : State VdMachine)
      → IsConfigured E url username password
      → may_start cluster owner ≡ true
      → Stage spec state adapters vnc provided s.object
      → ((t : State VdMachine)
          → Stage spec state adapters vnc provided t.object
          → Yields R
              (elim t.object.spec.vm_id [
                | none ↦ reconcile_create_vm E
                | some vm_id ↦ update_machine E vm_id owner
              ])
              t)
      → Yields R (dispatch E cluster owner) s
  unfolding dispatch reconcile_normal create_or_update
  dispatch-Yields cluster owner url username password s configured ready h k = Yields-get _ s (
      Yields-else s.object.meta.deleted _ _ s h.1 (
        Yields-modify (hold E) _ s (
          Yields-then (may_start cluster owner) _ _ _ ready (
            Yields-bind (new_vd_client E) _ _ (client-Yields url username password _ configured h)
              λ _ t l. Yields-get _ t (k t l)))))

module _ (E : Env) (vm_id : String) (network : VdNetwork) (spec : VdMachineSpec)
    (owner : OwnerMachine) where
  pub update_refresh :
      (provided : Bool) (s : State VdMachine)
      → Serves E vm_id network
      → IsPlain spec network
      → Stage spec true false false provided s.object
      → Yields
          (To (requeue millisecond) (Stage spec true true true provided))
          (update_machine E vm_id owner)
          s
  unfolding update_machine
  update_refresh provided s serves plain h =
      Yields-bind (reconcile_hardware E vm_id) _ s
        (Yields-To _ _ tt s
          (hardware_lem E vm_id network spec true false false provided s serves h))
        λ _ t k.
          Yields-unless _ _ _ t
            (Yields-To _ _ no_requeue t
              (adapters_new E vm_id network spec true false provided t serves plain k.1))
            λ u l.
              Yields-unless _ _ _ u
                (Yields-To _ _ no_requeue u
                  (pools_lem E vm_id network spec true true false provided u plain l))
                λ v n.
                  Yields-unless _ _ _ v
                    (Yields-To _ _ no_requeue v
                      (folders_lem E vm_id network spec true true false provided v plain n))
                    λ w o.
                      Yields-stop _ (requeue millisecond) _ _ w refl
                        (vnc_new E vm_id network spec true true provided w serves o)

  -- The calls of the last run lead to a machine that is up.
  start_machine-Yields :
      (secret provider_id : String) (s : State VdMachine) (serves : Serves E vm_id network)
      → IsPlain spec network
      → owner.data_secret_name ≡ some secret
      → spec.provider_id ≡ some provider_id
      → Stage spec true true true false s.object
      → Yields
          (To (requeue (10 * second)) (IsUp E vm_id network spec (serves.nic ∷ serves.nics)))
          (start_machine E vm_id owner)
          s
  unfolding start_machine
  start_machine-Yields secret provider_id s serves plain named linked h =
      Yields-bind (reconcile_bootstrap_data E vm_id owner) _ s
        (reconcile_bootstrap_data-Yields E vm_id network spec true true true owner secret
          provider_id s serves plain named linked h)
        λ _ t k.
          Yields-bind (reconcile_power_state E vm_id) _ t
            (Yields-To _ _ tt t (power_lem E vm_id network spec true true true t serves k.1))
            λ _ u l.
              Yields-unless _ _ _ u
                (Yields-To _ _ no_requeue u
                  (reconcile_addresses_lem E vm_id network spec true true true u serves plain l.1))
                λ v n. Yields-pure (requeue (10 * second)) v (refl, n)

  pub update_start :
      (secret provider_id : String) (s : State VdMachine) (serves : Serves E vm_id network)
      → IsPlain spec network
      → owner.data_secret_name ≡ some secret
      → spec.provider_id ≡ some provider_id
      → Stage spec true true true false s.object
      → Yields
          (To (requeue (10 * second)) (IsUp E vm_id network spec (serves.nic ∷ serves.nics)))
          (update_machine E vm_id owner)
          s
  unfolding update_machine
  update_start secret provider_id s serves plain named linked h =
      Yields-bind (reconcile_hardware E vm_id) _ s
        (Yields-To _ _ tt s (hardware_lem E vm_id network spec true true true false s serves h))
        λ _ t k.
          Yields-unless _ _ _ t
            (Yields-To _ _ no_requeue t
              (adapters_old E vm_id network spec true true false t plain k.1))
            λ u l.
              Yields-unless _ _ _ u
                (Yields-To _ _ no_requeue u
                  (pools_lem E vm_id network spec true true true false u plain l))
                λ v n.
                  Yields-unless _ _ _ v
                    (Yields-To _ _ no_requeue v
                      (folders_lem E vm_id network spec true true true false v plain n))
                    λ w o.
                      Yields-unless _ _ _ w
                        (Yields-To _ _ no_requeue w
                          (vnc_old E vm_id network spec true true false w plain o))
                        λ x p. start_machine-Yields secret provider_id x serves plain named linked p

  set_state_lem :
      (name : String) (state adapters vnc provided : Bool) (m : VdMachine)
      → Stage spec state adapters vnc provided m
      → Stage spec true adapters vnc provided (set_state (some name) m)
  set_state_lem name state adapters vnc provided m h = ground arith

  -- A run for a machine with a virtual machine gets to the steps that bring it up.
  pub handle_linked :
      {R : Result → State VdMachine → Type 0} (state adapters vnc provided : Bool)
      (cluster : OwnerCluster) (url username password : String) (s : State VdMachine)
      → Serves E vm_id network
      → IsConfigured E url username password
      → may_start cluster owner ≡ true
      → spec.vm_id ≡ some vm_id
      → Stage spec state adapters vnc provided s.object
      → ((t : State VdMachine)
          → Stage spec true adapters vnc provided t.object
          → Yields R (update_machine E vm_id owner) t)
      → Yields R (handle E cluster owner) s
  unfolding handle after_observe
  handle_linked state adapters vnc provided cluster url username password s serves configured ready
        linked h k =
      let known = λ (t : State VdMachine) (q : t.object.spec ≡ spec).
        ap (λ (x : VdMachineSpec). x.vm_id) q ∙ linked in
      Yields-bind (new_vd_client E) _ s
        (client-Yields E spec state adapters vnc provided url username password s configured h)
        λ _ t l.
          let (name, told) = serves.tells_state t.calls in
          Yields-get _ t (
            Yields-some t.object.spec.vm_id vm_id _ _ t (known t l.0) (
              Yields-send E (get_power_state vm_id) (success name) _ t told (
                Yields-modify (set_state (some name)) _ _ (
                  Yields-bind (patch E) _ _
                    (Yields-To _ (patch E) none _ (
                      patch_lem E spec true adapters vnc provided _ (serves.stores _ _)
                        (set_state_lem name state adapters vnc provided t.object l)))
                    λ error u n. Yields-none error _ _ u n.0 (
                      dispatch-Yields E spec true adapters vnc provided cluster owner url username
                        password u configured ready n.1
                        λ v o.
                          Yields-some v.object.spec.vm_id vm_id _ _ v (known v o.0) (k v o))))))
