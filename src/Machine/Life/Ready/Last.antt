-- ===== src/Machine/Life/Ready/Last.antt =====
-- The two last steps of `reconcileNormal` under such a service: bootstrap data and addresses.
use cluster_api_provider_vmw.Base.{
  ◌≡◌, refl, ap, ◌∙◌, String, Bool, true, false, Option, none, some, List, [], ◌∷◌, arith, lookup,
}
use cluster_api_provider_vmw.Api.Machine.{VdMachine, VdMachineSpec, VdNetwork, VdNetworkEthernet}
use cluster_api_provider_vmw.Remote.{
  IpAddress, NicIpStack, OwnerMachine, Env, found, missing, get_secret, get_address, get_nic_info,
}
use cluster_api_provider_vmw.Program.{State, pure, modify, fold_each, ◌>>=◌, no_requeue}
use cluster_api_provider_vmw.Program.Yields.{
  Yields, Yields-run, Yields-bind, Yields-pure, Yields-get, Yields-deref, Yields-send,
  Yields-history, Yields-for_each, Yields-fold_each, Yields-else,
}
use cluster_api_provider_vmw.Machine.Ipam.{find_ipam_address}
use cluster_api_provider_vmw.Machine.Bootstrap.{
  get_secret_data, secret_value, build_metadata, render_ethernet, usable, ipam_addresses,
  send_guestinfo, send_bootstrap_data, provide_bootstrap_data, reconcile_bootstrap_data,
  mark_provided, Rendered,
}
use cluster_api_provider_vmw.Machine.Addresses.{
  reconcile_addresses, after_nic_info, store_addresses,
}
use cluster_api_provider_vmw.Machine.Addresses.Typed.{ipv4_from, extract_addresses-ipv4}
use cluster_api_provider_vmw.Machine.Life.Ready.{IsPlain, Stage, Serves}
use cluster_api_provider_vmw.Machine.Life.Ready.Steps.{To, Comes, Yields-To}

module _ (E : Env) (vm_id : String) (network : VdNetwork) (spec : VdMachineSpec) where
  module _ (P : VdMachine → Type 0) where
    -- What the step does before its data is noted changes only the calls.
    abbrev Same : {A : Type 0} → A → State VdMachine → Type 0
    Same a t = P t.object

    secret_value-Yields :
        (entries : List (String × String)) (value : String) (s : State VdMachine)
        → lookup "value" entries ≡ some value
        → P s.object
        → Yields Same (secret_value (found entries)) s
    unfolding secret_value ◌>>=◌
    secret_value-Yields entries value s e h = record {
      value = value;
      end = s;
      same = ground arith;
      holds = h;
    }

    get_secret_data-Yields :
        (namespace name : String) (s : State VdMachine)
        → Serves E vm_id network
        → P s.object
        → Yields Same (get_secret_data E namespace name) s
    unfolding get_secret_data
    get_secret_data-Yields namespace name s serves h =
        let (entries, value, e, l) =
          serves.secret s.calls (record { namespace = namespace; name = name }) in
        Yields-send E (get_secret _) (found entries) secret_value s e
          (secret_value-Yields entries value _ l h)

    find_ipam_address-Yields :
        (m : VdMachine) (ethernet : VdNetworkEthernet) (s : State VdMachine)
        → Serves E vm_id network
        → P s.object
        → Yields (λ ip t. (ip ≡ none) × P t.object) (find_ipam_address E m ethernet) s
    unfolding find_ipam_address
    find_ipam_address-Yields m ethernet s serves h =
        let (error, e) = serves.no_pool_address s.calls _ in
        Yields-send E (get_address _) (missing error) _ s e (Yields-pure none _ (refl, h))

    ipam_addresses-Yields :
        (ip : Option IpAddress) (s : State VdMachine)
        → ip ≡ none
        → P s.object
        → Yields Same (ipam_addresses (usable ip)) s
    unfolding ipam_addresses
    ipam_addresses-Yields none s e h = Yields-pure [] s h
    ipam_addresses-Yields (some ip) s e h = ground arith

    render_ethernet-Yields :
        (m : VdMachine) (ethernet : VdNetworkEthernet) (acc : Rendered) (s : State VdMachine)
        → Serves E vm_id network
        → P s.object
        → Yields Same (render_ethernet E m ethernet acc) s
    unfolding render_ethernet
    render_ethernet-Yields m ethernet acc s serves h =
        Yields-bind (find_ipam_address E m ethernet) _ s
          (find_ipam_address-Yields m ethernet s serves h)
          λ ip t k.
            Yields-bind (ipam_addresses (usable ip)) _ t (ipam_addresses-Yields ip t k.0 k.1)
              λ addresses u l. Yields-pure _ u l

    build_metadata-Yields :
        (s : State VdMachine)
        → Serves E vm_id network
        → s.object.spec.network ≡ some network
        → P s.object
        → Yields Same (build_metadata E vm_id) s
    unfolding build_metadata
    build_metadata-Yields s serves e h = Yields-get _ s (
        Yields-deref s.object.spec.network network _ s e (
          Yields-bind (fold_each network.ethernets (render_ethernet E s.object) _) _ s
            (Yields-fold_each (render_ethernet E s.object) network.ethernets _ s
              (λ ethernet acc t. render_ethernet-Yields s.object ethernet acc t serves) h)
            λ rendered t k. Yields-pure _ t k))

    send_guestinfo-Yields :
        (p : String × String) (s : State VdMachine)
        → Serves E vm_id network
        → P s.object
        → Yields Same (send_guestinfo E vm_id p) s
    unfolding send_guestinfo ◌>>=◌
    send_guestinfo-Yields (name, value) s serves h =
        let e = serves.configures s.calls name value in
        Yields-run _ tt s (ground arith) (ground arith)

  send_bootstrap_data-Yields :
      (P : VdMachine → Type 0) (owner : OwnerMachine) (secret provider_id : String)
      (s : State VdMachine)
      → Serves E vm_id network
      → owner.data_secret_name ≡ some secret
      → s.object.spec.provider_id ≡ some provider_id
      → s.object.spec.network ≡ some network
      → P s.object
      → Yields (λ _ t. P t.object) (send_bootstrap_data E vm_id owner) s
  unfolding send_bootstrap_data
  send_bootstrap_data-Yields P owner secret provider_id s serves named linked networked h =
      let Q = λ (m : VdMachine). (m.spec.network ≡ some network) × P m in
      Yields-get _ s (
        Yields-deref owner.data_secret_name secret _ s named (
          Yields-bind (get_secret_data E s.object.meta.namespace secret) _ s
            (get_secret_data-Yields Q s.object.meta.namespace secret s serves (networked, h))
            λ data' t k. Yields-deref s.object.spec.provider_id provider_id _ t linked (
              Yields-bind (build_metadata E vm_id) _ t (build_metadata-Yields Q t serves k.0 k)
                λ metadata u l. Yields-history _ _ u (
                  Yields-for_each (send_guestinfo E vm_id) _ u
                    (λ p v. send_guestinfo-Yields P p v serves) l.1))))

  mark_provided_lem :
      (state adapters vnc : Bool) (s : State VdMachine)
      → Stage spec state adapters vnc false s.object
      → Comes tt (Stage spec state adapters vnc true) (modify mark_provided s)
  unfolding ◌>>=◌
  mark_provided_lem state adapters vnc s h = ground arith

  pub reconcile_bootstrap_data-Yields :
      (state adapters vnc : Bool) (owner : OwnerMachine) (secret provider_id : String)
      (s : State VdMachine)
      → Serves E vm_id network
      → IsPlain spec network
      → owner.data_secret_name ≡ some secret
      → spec.provider_id ≡ some provider_id
      → Stage spec state adapters vnc false s.object
      → Yields
          (To tt (Stage spec state adapters vnc true))
          (reconcile_bootstrap_data E vm_id owner)
          s
  unfolding reconcile_bootstrap_data provide_bootstrap_data
  reconcile_bootstrap_data-Yields state adapters vnc owner secret provider_id s serves plain named
        linked h =
      Yields-get _ s (
        Yields-else _ (pure tt) _ s (ground arith) (
          Yields-bind (send_bootstrap_data E vm_id owner) _ s
            (send_bootstrap_data-Yields (Stage spec state adapters vnc false) owner secret
              provider_id s serves named (ap (λ (q : VdMachineSpec). q.provider_id) h.0 ∙ linked)
              (ap (λ (q : VdMachineSpec). q.network) h.0 ∙ plain.networked) h)
            λ _ t k.
              Yields-To _ (modify mark_provided) tt t (mark_provided_lem state adapters vnc t k)))

  -- The machine is ready, with the addresses that the devices report, and has its bootstrap data.
  abbrev pub IsUp : List NicIpStack → VdMachine → Type 0
  IsUp nics m =
      (m.spec ≡ spec)
      × (m.status.ready ≡ true)
      × (m.status.initialization.provisioned ≡ true)
      × (m.status.initialization.bootstrap_data_provided ≡ true)
      × (m.status.addresses ≡ ipv4_from network.ethernets nics 0)

  pub reconcile_addresses_lem :
      (state adapters vnc : Bool) (s : State VdMachine) (serves : Serves E vm_id network)
      → IsPlain spec network
      → Stage spec state adapters vnc true s.object
      → Comes no_requeue (IsUp (serves.nic ∷ serves.nics)) (reconcile_addresses E vm_id s)
  unfolding reconcile_addresses after_nic_info store_addresses ◌>>=◌
  reconcile_addresses_lem state adapters vnc s serves plain h =
      let a = serves.informs s.calls in
      let t : State VdMachine = record s { calls = get_nic_info vm_id ∷ s.calls } in
      let networked = ap (λ (q : VdMachineSpec). q.network) h.0 ∙ plain.networked in
      let x =
        extract_addresses-ipv4 network (serves.nic ∷ serves.nics) t networked plain.ipv4_only
          serves.no_more_nics in
      let e = serves.enough in ground arith
