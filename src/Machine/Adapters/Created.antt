-- ===== src/Machine/Adapters/Created.antt =====
-- Which adapters `reconcileNetworkAdapters` makes, and under which numbers.
use mathlib.Core.List.{Mem}
use mathlib.Core.List.Perm
use mathlib.Core.Path.{subst}
use cluster_api_provider_vmw.Base.{
  ℕ, suc, ◌+◌, ◌<>◌, String, ◌≡◌, refl, ◌∙◌, false, Option, none, some, is_some, List, [], ◌∷◌,
  ◌++◌, ap, map, length, All, any, get_elem?, arith,
}
use cluster_api_provider_vmw.Text.{itoa}
use cluster_api_provider_vmw.Api.Machine.{VdMachine, VdNetworkAdapter}
use cluster_api_provider_vmw.Remote.{
  Call, config_vm_params, get_all_nic_devices, NicDevice, success, Env, IsLawful,
}
use cluster_api_provider_vmw.Program.{
  State, M, done, ◌>>=◌, or_wrap, Result, pure, requeue, no_requeue, millisecond, ◌>>◌,
}
use cluster_api_provider_vmw.Program.Keeps.{
  Keeps, Keeps-pure, Keeps-deref, Keeps-bind, Keeps-if, Keeps-or_wrap,
}
use cluster_api_provider_vmw.Program.Keeps.Values.{
  Keeps-bind_value, Keeps-bind_deref, Keeps-bind_history, Keeps-if_value, Keeps-for_each_mem,
}
use cluster_api_provider_vmw.Machine.Fields.{set_adapters}
use cluster_api_provider_vmw.Machine.Adapters.{
  adapter_param, adapter_of, adapter_params, elements, virtual_dev_of, spec_adapters, same_adapter,
  contains, send_param, create_adapter, create_missing, refresh_adapters,
}
use cluster_api_provider_vmw.Machine.Adapters.Present.{IsTyped, alike, contains_lem, map-IsTyped}

-- The call sets one of the five parameters of an adapter that the spec lists at the place `index`
-- and that has no like among the devices. The number of the adapter is `index` behind the count of
-- the devices.
pub record Creates (vm_id : String) (nics : List NicDevice) (wanted : List VdNetworkAdapter)
    (c : Call) : Type 0 where
  pub index : ℕ
  pub adapter : VdNetworkAdapter
  pub listed : get_elem? wanted index ≡ some adapter
  pub missing : any (λ b. alike b adapter) (map adapter_of nics) ≡ false
  pub type : String
  pub type_is : adapter.type ≡ some type
  pub vmnet : String
  pub vmnet_is : adapter.vmnet ≡ some vmnet
  pub key : String
  pub value : String
  pub parameter :
      Mem {A = String × String}
        (key, value)
        (("connectionType", type)
          ∷ ("virtualDev", elim adapter.virtual_dev [ none ↦ "vmxnet3" | some dev ↦ dev ])
          ∷ ("vnet", vmnet)
          ∷ ("present", "TRUE")
          ∷ ("addressType", "generated")
          ∷ [])
  pub call :
      c ≡ config_vm_params vm_id ("ethernet" <> itoa (length nics + index) <> "." <> key) value

-- The calls since the earlier ones are all of a kind.
pub record Adds (Q : Call → Type 0) (earlier : List Call) (s : State VdMachine) : Type 0 where
  pub new : List Call
  pub same : s.calls ≡ new ++ earlier
  pub all : All Q new

module _ (E : Env) (vm_id : String) (lawful : IsLawful E) (Q : Call → Type 0)
    (earlier : List Call) where
  abbrev P : State VdMachine → Type 0
  P = Adds Q earlier

  same_adapter-Keeps : (a b : VdNetworkAdapter) → Keeps P (same_adapter a b)
  unfolding same_adapter
  same_adapter-Keeps a b = Keeps-bind _ _ (Keeps-deref _) λ t. Keeps-bind _ _ (Keeps-deref _) λ u.
      Keeps-if _ _ _
        (Keeps-bind _ _ (Keeps-deref _) λ v. Keeps-bind _ _ (Keeps-deref _) λ w. Keeps-pure _)
        (Keeps-pure _)

  contains-Keeps :
      (status : List VdNetworkAdapter) (a : VdNetworkAdapter) → Keeps P (contains status a)
  unfolding contains
  contains-Keeps [] a = Keeps-pure _
  contains-Keeps (b ∷ status) a =
      Keeps-bind _ _ (same_adapter-Keeps b a)
        λ same. Keeps-if same _ _ (Keeps-pure _) (contains-Keeps status a)

  send_param-Keeps :
      (number : ℕ) (p : String × String)
      → Q (config_vm_params vm_id (adapter_param number p.0) p.1)
      → Keeps P (send_param E vm_id number p)
  unfolding send_param ◌>>=◌
  send_param-Keeps number (name, value) q = record {
    at = λ s h.
        let c : Call = config_vm_params vm_id (adapter_param number name) value in
        let t : P (record s { calls = c ∷ s.calls }) = record {
          new = c ∷ h.new;
          same = ap (λ calls. c ∷ calls) h.same;
          all = (q, h.all);
        } in
        let reply = E.answer s.calls (config_vm_params vm_id (adapter_param number name) value) in
        let k : Keeps P (or_wrap "failed to create network adapter: " reply) = Keeps-or_wrap _ _ in
        k.at _ t;
  }

  create_adapter-Keeps :
      (number : ℕ) (a : VdNetworkAdapter)
      → ((type vmnet key value : String)
          → a.type ≡ some type
          → a.vmnet ≡ some vmnet
          → Mem (key, value) (adapter_params type (virtual_dev_of a) vmnet)
          → Q (config_vm_params vm_id (adapter_param number key) value))
      → Keeps P (create_adapter E vm_id number a)
  unfolding create_adapter
  create_adapter-Keeps number a q = Keeps-bind_deref a.type _ λ type t.
      Keeps-bind_deref a.vmnet _ λ vmnet v. Keeps-bind_history _ _ λ calls.
        Keeps-for_each_mem _ _ λ p m. send_param-Keeps number p (
          q type vmnet p.0 p.1 t v
            ((Perm.mem_iff (lawful.order-perm (String × String) calls _)).0 m))

  -- What the loop over the rest of the adapters needs.
  abbrev Allows : List VdNetworkAdapter → ℕ → List VdNetworkAdapter → Type 0
  Allows status number adapters =
      (index : ℕ) (a : VdNetworkAdapter)
      → get_elem? adapters index ≡ some a
      → any (λ b. alike b a) status ≡ false
      → (type vmnet key value : String) → a.type ≡ some type
      → a.vmnet ≡ some vmnet
      → Mem (key, value) (adapter_params type (virtual_dev_of a) vmnet)
      → Q (config_vm_params vm_id (adapter_param (number + index) key) value)

  -- A loop that found nothing like a typed adapter.
  contains-missing :
      (status : List VdNetworkAdapter) (a : VdNetworkAdapter) (type vmnet : String)
      (s : State VdMachine)
      → All IsTyped status
      → a.type ≡ some type
      → a.vmnet ≡ some vmnet
      → (contains status a s).0 ≡ done false
      → any (λ b. alike b a) status ≡ false
  contains-missing status a type vmnet s ts t v e =
      let k = contains_lem status a s ts (ap is_some t, ap is_some v) in ground arith

  create_missing-Keeps :
      (status : List VdNetworkAdapter) (number : ℕ) (adapters : List VdNetworkAdapter)
      → All IsTyped status
      → Allows status number adapters
      → Keeps P (create_missing E vm_id status number adapters)
  unfolding create_missing
  create_missing-Keeps status number [] ts q = Keeps-pure _
  create_missing-Keeps status number (a ∷ adapters) ts q =
      Keeps-bind_value _ _ (contains-Keeps status a) λ s present found.
        Keeps-bind _ _
          (Keeps-if_value present _ _ (λ _. Keeps-pure _)
            λ e. create_adapter-Keeps number a λ type vmnet key value t v m.
              let e' : number + 0 ≡ number = omega arith in
              subst (λ n. Q (config_vm_params vm_id (adapter_param n key) value)) e'
                (q 0 a refl (contains-missing status a type vmnet s ts t v (found ∙ ap done e)) type
                  vmnet key value t v m))
          λ _.
            create_missing-Keeps status (suc number) adapters ts
              λ index b at missing type vmnet key value t v m.
                let e : number + suc index ≡ suc number + index = omega arith in
                subst (λ n. Q (config_vm_params vm_id (adapter_param n key) value)) e
                  (q (suc index) b at missing type vmnet key value t v m)

module _ (E : Env) (vm_id : String) (lawful : IsLawful E) (nics : List NicDevice)
    (earlier : List Call) where
  -- What follows the answer of the service.
  add_missing : Option (List VdNetworkAdapter) → M VdMachine Result
  add_missing o = elim o [
    | none ↦ pure no_requeue
    | some adapters ↦
        create_missing E vm_id (map adapter_of nics) (length nics) adapters
        >> pure (requeue millisecond)
  ]

  add_missing-Keeps :
      (o : Option (List VdNetworkAdapter))
      → Keeps (Adds (Creates vm_id nics (elements o)) earlier) (add_missing o)
  unfolding add_missing
  add_missing-Keeps none = Keeps-pure _
  add_missing-Keeps (some adapters) =
      Keeps-bind _ _
        (create_missing-Keeps E vm_id lawful (Creates vm_id nics adapters) earlier
          (map adapter_of nics) (length nics) adapters (map-IsTyped nics)
          λ index a listed missing type vmnet key value t v m. record {
            index = index;
            adapter = a;
            listed = listed;
            missing = missing;
            type = type;
            type_is = t;
            vmnet = vmnet;
            vmnet_is = v;
            key = key;
            value = value;
            parameter = m;
            call = refl;
          })
        λ _. Keeps-pure _

-- When the service has answered with the devices of the virtual machine, every later call of the
-- adapter step, on every outcome, makes an adapter of the spec that has no like among the devices
-- (no device with its type and its network): it sets one of the five parameters connectionType,
-- virtualDev (vmxnet3 where the spec names none), vnet, present (TRUE) and addressType (generated)
-- to the value for that adapter, under the name `ethernet<n>.<parameter>`, where n is the number of
-- devices plus the place of the adapter in the spec. A walk over a map is taken to meet each entry
-- once.
pub refresh_adapters-Creates :
    (E : Env) (vm_id : String) (nics : List NicDevice) (s : State VdMachine)
    → IsLawful E
    → E.answer s.calls (get_all_nic_devices vm_id) ≡ success nics
    → Adds
        (Creates vm_id nics (elements (spec_adapters s.object)))
        (get_all_nic_devices vm_id ∷ s.calls)
        (refresh_adapters E vm_id s).1
unfolding refresh_adapters add_missing ◌>>=◌
refresh_adapters-Creates E vm_id nics s lawful e =
    let s' : State VdMachine = record {
      object = set_adapters (some (map adapter_of nics)) s.object;
      calls = get_all_nic_devices vm_id ∷ s.calls;
    } in
    rw e (
      (add_missing-Keeps E vm_id lawful nics s'.calls (spec_adapters s'.object)).at s'
        (record { new = []; same = refl; all = tt }))
