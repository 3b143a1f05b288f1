-- ===== src/Machine/Life/Ready/Steps.antt =====
-- The steps of `reconcileNormal` under such a service.
use cluster_api_provider_vmw.Base.{
  ◌≡◌, refl, ◌<>◌, ◌==◌, String, Bool, true, false, some, List, [], ◌∷◌, All, arith, is_some,
}
use cluster_api_provider_vmw.Api.Machine.{
  Vnc, VdMachine, VdMachineSpec, VdNetwork, VdNetworkEthernet,
}
use cluster_api_provider_vmw.Remote.{Env, get_vm_params, success}
use cluster_api_provider_vmw.Program.{
  State, Outcome, M, done, pure, modify, ◌>>=◌, ◌>>◌, no_requeue, requeue, millisecond,
}
use cluster_api_provider_vmw.Program.Yields.{
  Yields, Yields-run, Yields-same, Yields-pure, Yields-if, Yields-deref, Yields-send, Yields-bind,
}
use cluster_api_provider_vmw.Machine.Fields.{set_vnc_status}
use cluster_api_provider_vmw.Machine.Hardware.{reconcile_hardware, wanted_or}
use cluster_api_provider_vmw.Machine.Adapters.{reconcile_network_adapters, refresh_adapters}
use cluster_api_provider_vmw.Machine.Ipam.{reconcile_network_addresses, await_addresses}
use cluster_api_provider_vmw.Machine.Folders.{
  reconcile_shared_folders, shared_folders_equal, add_folders, entries_agree,
}
use cluster_api_provider_vmw.Machine.Vnc.{
  reconcile_vnc, update_vnc_status, read_param, ask, compare_vnc, key_prefixes,
}
use cluster_api_provider_vmw.Machine.Power.{reconcile_power_state}
use cluster_api_provider_vmw.Machine.Life.Ready.{IsPlain, HasNoPool, Stage, Serves}

-- Where a step ends, with the value that it returns.
abbrev pub To : {A : Type 0} → A → (VdMachine → Type 0) → A → State VdMachine → Type 0
To a P b t = (b ≡ a) × P t.object

pub Yields-To :
    {A : Type 0} (P : VdMachine → Type 0) (m : M VdMachine A) (a : A) (s : State VdMachine)
    → ((m s).0 ≡ done a) × P (m s).1.object
    → Yields (To a P) m s
Yields-To P m a s h = Yields-run m a s h.0 (refl, h.1)

-- What a step comes to.
abbrev pub Comes : {A : Type 0} → A → (VdMachine → Type 0) → Outcome A × State VdMachine → Type 0
Comes a P r = (r.0 ≡ done a) × P r.1.object

module _ (E : Env) (vm_id : String) (network : VdNetwork) (spec : VdMachineSpec) where
  pub hardware_lem :
      (state : Bool) (adapters vnc provided : Bool) (s : State VdMachine)
      → Serves E vm_id network
      → Stage spec state adapters vnc provided s.object
      → Comes tt (Stage spec state adapters vnc provided) (reconcile_hardware E vm_id s)
  unfolding reconcile_hardware ◌>>=◌
  hardware_lem state adapters vnc provided s serves h =
      let answered =
        serves.echoes s.calls (wanted_or s.object.spec.cpu s.object.status.hardware.cpu)
          (wanted_or s.object.spec.memory s.object.status.hardware.memory) in
      ground arith

  pub adapters_new :
      (state : Bool) (vnc provided : Bool) (s : State VdMachine)
      → Serves E vm_id network
      → IsPlain spec network
      → Stage spec state false vnc provided s.object
      → Comes no_requeue (Stage spec state true vnc provided) (reconcile_network_adapters E vm_id s)
  unfolding reconcile_network_adapters refresh_adapters ◌>>=◌
  adapters_new state vnc provided s serves plain h = let d = serves.devices s.calls in ground arith

  pub adapters_old :
      (state : Bool) (vnc provided : Bool) (s : State VdMachine)
      → IsPlain spec network
      → Stage spec state true vnc provided s.object
      → Comes no_requeue (Stage spec state true vnc provided) (reconcile_network_adapters E vm_id s)
  unfolding reconcile_network_adapters ◌>>=◌
  adapters_old state vnc provided s plain h = ground arith

  await_lem :
      (m : VdMachine) (ethernets : List VdNetworkEthernet) (s : State VdMachine)
      → All HasNoPool ethernets
      → await_addresses E m ethernets s ≡ (done no_requeue, s)
  unfolding await_addresses ◌>>=◌
  await_lem m [] s h = refl
  await_lem m (e ∷ ethernets) s h =
      let rest = await_lem m ethernets s h.1 in let none_here = h.0 in ground arith

  pub pools_lem :
      (state : Bool) (adapters vnc provided : Bool) (s : State VdMachine)
      → IsPlain spec network
      → Stage spec state adapters vnc provided s.object
      → Comes no_requeue (Stage spec state adapters vnc provided) (reconcile_network_addresses E s)
  unfolding reconcile_network_addresses ◌>>=◌
  pools_lem state adapters vnc provided s plain h =
      let e = await_lem s.object network.ethernets s plain.no_pools in ground arith

  pub folders_lem :
      (state : Bool) (adapters vnc provided : Bool) (s : State VdMachine)
      → IsPlain spec network
      → Stage spec state adapters vnc provided s.object
      → Comes no_requeue
          (Stage spec state adapters vnc provided)
          (reconcile_shared_folders E vm_id s)
  unfolding reconcile_shared_folders shared_folders_equal add_folders entries_agree ◌>>=◌
  folders_lem state adapters vnc provided s plain h = ground arith

  ask-Yields :
      (P : VdMachine → Type 0) (key : String) (s : State VdMachine)
      → Serves E vm_id network
      → P s.object
      → Yields
          (λ answer t. ((value : String) × (answer ≡ some value)) × P t.object)
          (ask E vm_id key)
          s
  unfolding ask
  ask-Yields P key s serves h =
      let (value, e) = serves.params s.calls key in
      Yields-send E (get_vm_params vm_id key) (success (some value)) _ s e
        (Yields-pure (some value) _ ((value, refl), h))

  read_param-Yields :
      (P : VdMachine → Type 0) (key : String) (prefixes : List String) (value : String)
      (s : State VdMachine)
      → Serves E vm_id network
      → P s.object
      → Yields (λ _ t. P t.object) (read_param E vm_id key prefixes value) s
  unfolding read_param
  read_param-Yields P key [] value s serves h = Yields-pure value s h
  read_param-Yields P key (prefix ∷ prefixes) value s serves h =
      Yields-bind (ask E vm_id (prefix <> ".vnc." <> key)) _ s (ask-Yields P _ s serves h)
        λ answer t k. Yields-deref answer k.0.0 _ t k.0.1 (
          Yields-if (k.0.0 == "") (read_param E vm_id key prefixes k.0.0) (pure k.0.0) t
            (read_param-Yields P key prefixes k.0.0 t serves k.1) (Yields-pure k.0.0 t k.1))

  set_vnc_lem :
      (state adapters provided : Bool) (status : Vnc) (s : State VdMachine)
      → Stage spec state adapters false provided s.object
      → Comes tt (Stage spec state adapters true provided) (modify (set_vnc_status (some status)) s)
  unfolding ◌>>=◌
  set_vnc_lem state adapters provided status s h = ground arith

  update_vnc_status-Yields :
      (state adapters provided : Bool) (s : State VdMachine)
      → Serves E vm_id network
      → Stage spec state adapters false provided s.object
      → Yields (To tt (Stage spec state adapters true provided)) (update_vnc_status E vm_id) s
  unfolding update_vnc_status
  update_vnc_status-Yields state adapters provided s serves h =
      let P = Stage spec state adapters false provided in
      Yields-bind (read_param E vm_id "enabled" key_prefixes "") _ s
        (read_param-Yields P _ _ _ s serves h)
        λ enabled t k.
          Yields-bind (read_param E vm_id "port" key_prefixes "") _ t
            (read_param-Yields P _ _ _ t serves k)
            λ port u l.
              Yields-bind (read_param E vm_id "password" key_prefixes "") _ u
                (read_param-Yields P _ _ _ u serves l)
                λ password v n.
                  Yields-To (Stage spec state adapters true provided) (modify _) tt v
                    (set_vnc_lem state adapters provided _ v n)

  reconcile_vnc_unknown :
      (s : State VdMachine)
      → is_some s.object.status.vnc ≡ false
      → reconcile_vnc E vm_id s ≡ (update_vnc_status E vm_id >> pure (requeue millisecond)) s
  unfolding reconcile_vnc ◌>>=◌
  reconcile_vnc_unknown s e = ground arith

  pub vnc_new :
      (state adapters provided : Bool) (s : State VdMachine)
      → Serves E vm_id network
      → Stage spec state adapters false provided s.object
      → Yields
          (To (requeue millisecond) (Stage spec state adapters true provided))
          (reconcile_vnc E vm_id)
          s
  vnc_new state adapters provided s serves h =
      Yields-same (reconcile_vnc E vm_id) (update_vnc_status E vm_id >> pure (requeue millisecond))
        s (reconcile_vnc_unknown s (ground arith))
        (Yields-bind (update_vnc_status E vm_id) _ s
          (update_vnc_status-Yields state adapters provided s serves h)
          λ _ t k. Yields-pure (requeue millisecond) t (refl, k.1))

  pub vnc_old :
      (state : Bool) (adapters provided : Bool) (s : State VdMachine)
      → IsPlain spec network
      → Stage spec state adapters true provided s.object
      → Comes no_requeue (Stage spec state adapters true provided) (reconcile_vnc E vm_id s)
  unfolding reconcile_vnc compare_vnc ◌>>=◌
  vnc_old state adapters provided s plain h = ground arith

  pub power_lem :
      (adapters vnc provided : Bool) (s : State VdMachine)
      → Serves E vm_id network
      → Stage spec true adapters vnc provided s.object
      → Comes tt (Stage spec true adapters vnc provided) (reconcile_power_state E vm_id s)
  unfolding reconcile_power_state ◌>>=◌
  power_lem adapters vnc provided s serves h = let a = serves.powers_on s.calls in ground arith
