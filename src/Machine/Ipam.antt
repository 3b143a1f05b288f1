-- ===== src/Machine/Ipam.antt =====
-- `reconcileNetworkAddresses` and `findIpamAddress`
pub mod Claims
use cluster_api_provider_vmw.Base.{
  String, ◌<>◌, ◌==◌, Option, none, some, List, [], ◌∷◌, if◌then◌else◌,
}
use cluster_api_provider_vmw.Api.Machine.{VdMachine, VdNetworkEthernet, ObjectReference}
use cluster_api_provider_vmw.Remote.{
  Error, Fetched, found, missing, broken, IpAddressClaim, IpAddress, get_claim, create_claim,
  get_address, Env,
}
use cluster_api_provider_vmw.Program.{
  M, pure, raise, deref, get, send, ◌>>=◌, ◌>>◌, Result, no_requeue, requeue, second,
  ◌then_unless_requeue◌,
}

-- `vdMachine.Name + "-" + ethernet.Name`
abbrev pub claim_name : VdMachine → VdNetworkEthernet → String
claim_name m ethernet = m.meta.name <> "-" <> ethernet.name

-- `err != nil`
abbrev pub or_stop : Option Error → M VdMachine (Unit {0})
or_stop none = pure tt
or_stop (some e) = raise e

-- The address of an answer, empty where the object is missing.
abbrev pub address_or_stop : Fetched IpAddress → M VdMachine String
address_or_stop (found a) = pure a.address
address_or_stop (missing _) = pure ""
address_or_stop (broken e) = raise e

abbrev pub spec_ethernets : VdMachine → List VdNetworkEthernet
spec_ethernets m = elim m.spec.network [ none ↦ [] | some network ↦ network.ethernets ]

module _ (E : Env) where
  -- The claim that the code goes on with: the one that is there, or a new one. The reference
  -- names the pool.
  unfoldable pub claim_or_create :
      VdMachine → String → ObjectReference → Fetched IpAddressClaim → M VdMachine String
  claim_or_create m name ref (found claim) = pure claim.name
  claim_or_create m name ref (missing _) = do
    api_group ← deref ref.api_group
    error ← send E (
        create_claim (record {
          name = name;
          namespace = m.meta.namespace;
          api_group = api_group;
          kind = ref.kind;
          pool = ref.name;
        }))
    or_stop error
    pure name
  claim_or_create m name ref (broken e) = raise ("failed to get ipclaim " <> e)

  -- The body of the loop for an ethernet with an `IpamRef`.
  unfoldable pub await_address :
      VdMachine → VdNetworkEthernet → ObjectReference → M VdMachine Result
  unfolding claim_or_create
  await_address m ethernet ref = do
    let name = claim_name m ethernet
    fetched ← send E (get_claim (record { namespace = m.meta.namespace; name = name }))
    claim ← claim_or_create m name ref fetched
    reply ← send E (get_address (record { namespace = m.meta.namespace; name = claim }))
    address ← address_or_stop reply
    if address == "" then pure (requeue second) else pure no_requeue

  unfoldable pub await_addresses : VdMachine → List VdNetworkEthernet → M VdMachine Result
  await_addresses m [] = pure no_requeue
  await_addresses m (ethernet ∷ ethernets) =
      elim ethernet.ipam_ref [ none ↦ pure no_requeue | some ref ↦ await_address m ethernet ref ]
      then_unless_requeue await_addresses m ethernets

  unfoldable pub reconcile_network_addresses : M VdMachine Result
  reconcile_network_addresses = do m ← get; await_addresses m (spec_ethernets m)

  unfoldable pub find_ipam_address : VdMachine → VdNetworkEthernet → M VdMachine (Option IpAddress)
  find_ipam_address m ethernet = do
    reply ←
        send E (get_address (record { namespace = m.meta.namespace; name = claim_name m ethernet }))
    elim reply [ found a ↦ pure (some a) | missing _ ↦ pure none | broken e ↦ raise e ]
