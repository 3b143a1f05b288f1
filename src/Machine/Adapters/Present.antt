-- ===== src/Machine/Adapters/Present.antt =====
-- When an adapter counts as present.
use cluster_api_provider_vmw.Base.{
  map, String, ◌≡◌, ◌==◌, ◌&&◌, refl, Option, some, none, List, [], ◌∷◌, arith, Bool, true, false,
  is_some, All, any,
}
use cluster_api_provider_vmw.Api.Machine.{VdMachine, VdNetworkAdapter}
use cluster_api_provider_vmw.Remote.{NicDevice}
use cluster_api_provider_vmw.Program.{State, done, ◌>>=◌}
use cluster_api_provider_vmw.Machine.Adapters.{adapter_of, same_adapter, contains, contains_all}

abbrev pub same_text : Option String → Option String → Bool
same_text none o = false
same_text (some s) none = false
same_text (some s) (some t) = s == t

-- The adapter has a type and a network, which the schema does not require.
abbrev pub IsTyped : VdNetworkAdapter → Type 0
IsTyped a = (is_some a.type ≡ true) × (is_some a.vmnet ≡ true)

-- The same type and the same network.
abbrev pub alike : VdNetworkAdapter → VdNetworkAdapter → Bool
alike a b = same_text a.type b.type && same_text a.vmnet b.vmnet

-- Each adapter of the second list has its like in the first.
abbrev pub covers : List VdNetworkAdapter → List VdNetworkAdapter → Bool
covers status [] = true
covers status (a ∷ adapters) = any (λ b. alike b a) status && covers status adapters

-- What the service lists has a type and a network.
pub map-IsTyped : (nics : List NicDevice) → All IsTyped (map adapter_of nics)
map-IsTyped [] = tt
map-IsTyped (nic ∷ nics) = ((refl, refl), map-IsTyped nics)

same_adapter_lem :
    (a b : VdNetworkAdapter) (s : State VdMachine)
    → IsTyped a
    → IsTyped b
    → same_adapter a b s ≡ (done (alike a b), s)
unfolding same_adapter ◌>>=◌
same_adapter_lem a b s ta tb = ground arith

pub contains_lem :
    (status : List VdNetworkAdapter) (a : VdNetworkAdapter) (s : State VdMachine)
    → All IsTyped status
    → IsTyped a
    → contains status a s ≡ (done (any (λ b. alike b a) status), s)
unfolding contains ◌>>=◌
contains_lem [] a s ts t = refl
contains_lem (b ∷ status) a s ts t =
    let rest = contains_lem status a s ts.1 t in
    let head = same_adapter_lem b a s ts.0 t in ground arith

-- For adapters that all have a type and a network, the test whether the status has all the adapters
-- of the spec returns without a panic, without a call and without a change, and it says whether each
-- adapter of the spec has one in the status with the same type and the same network.
pub contains_all_lem :
    (status adapters : List VdNetworkAdapter) (s : State VdMachine)
    → All IsTyped status
    → All IsTyped adapters
    → contains_all status adapters s ≡ (done (covers status adapters), s)
unfolding contains_all ◌>>=◌
contains_all_lem status [] s ts t = refl
contains_all_lem status (a ∷ adapters) s ts t =
    let rest = contains_all_lem status adapters s ts t.1 in
    let head = contains_lem status a s ts t.0 in ground arith
