-- ===== src/Machine/Ipam/Claims.antt =====
-- Which address claims `reconcileNetworkAddresses` creates.
use mathlib.Core.List.{Mem}
use cluster_api_provider_vmw.Base.{◌≡◌, some, List, [], ◌∷◌, ◌++◌}
use cluster_api_provider_vmw.Api.Machine.{VdMachine, VdNetworkEthernet, ObjectReference}
use cluster_api_provider_vmw.Remote.{
  Error, Call, missing, IpAddressClaim, ObjectKey, get_claim, create_claim, get_address, Env,
}
use cluster_api_provider_vmw.Program.{State}
use cluster_api_provider_vmw.Program.Keeps.{Keeps}
use cluster_api_provider_vmw.Machine.Ipam.{claim_name, spec_ethernets}

module _ (E : Env) (m : VdMachine) where
  abbrev pub claim_key : VdNetworkEthernet → ObjectKey
  claim_key ethernet = record { namespace = m.meta.namespace; name = claim_name m ethernet }

  -- The claim is for an ethernet of the machine with a pool, it has the name that belongs to the
  -- ethernet and names the pool, and the call before was the question for this very claim, answered
  -- with not found.
  pub record IsWanted (claim : IpAddressClaim) (before : List Call) : Type 0 where
    pub ethernet : VdNetworkEthernet
    pub listed : Mem ethernet (spec_ethernets m)
    pub ref : ObjectReference
    pub pooled : ethernet.ipam_ref ≡ some ref
    pub named : (claim.namespace ≡ m.meta.namespace) × (claim.name ≡ claim_name m ethernet)
    pub from_pool :
        (some claim.api_group ≡ ref.api_group) × (claim.kind ≡ ref.kind) × (claim.pool ≡ ref.name)
    pub earlier : List Call
    pub asked : before ≡ get_claim (claim_key ethernet) ∷ earlier
    pub error : Error
    pub absent : E.answer earlier (get_claim (claim_key ethernet)) ≡ missing error

  -- A call of the step, after the calls before it.
  abbrev pub IsDue : Call → List Call → Type 0
  IsDue (get_claim key) before = key.namespace ≡ m.meta.namespace
  IsDue (get_address key) before = key.namespace ≡ m.meta.namespace
  IsDue (create_claim claim) before = IsWanted claim before
  IsDue _ before = ⊥

  -- The new calls, the latest first, are all of that kind.
  abbrev pub AllDue : List Call → List Call → Type 0
  AllDue [] earlier = Unit
  AllDue (c ∷ new) earlier = IsDue c (new ++ earlier) × AllDue new earlier

  pub record AsksDue (earlier : List Call) (s : State VdMachine) : Type 0 where
    pub new : List Call
    pub same : s.calls ≡ new ++ earlier
    pub due : AllDue new earlier
