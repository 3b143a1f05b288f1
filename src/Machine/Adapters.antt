-- ===== src/Machine/Adapters.antt =====
-- `reconcileNetworkAdapters` and `contains`
pub mod Present
pub mod Created
pub mod Settles
use cluster_api_provider_vmw.Base.{
  ℕ, suc, String, ◌<>◌, Bool, true, false, Option, none, some, List, [], ◌∷◌, map, ◌==◌, is_some,
  length, if◌then◌else◌,
}
use cluster_api_provider_vmw.Text.{itoa}
use cluster_api_provider_vmw.Api.Machine.{VdMachine, VdNetworkAdapter}
use cluster_api_provider_vmw.Remote.{NicDevice, get_all_nic_devices, config_vm_params, Env}
use cluster_api_provider_vmw.Program.{
  M, pure, deref, get, history, modify, send, for_each, or_wrap, ◌>>=◌, ◌>>◌, Result, no_requeue,
  requeue, millisecond,
}
use cluster_api_provider_vmw.Machine.Fields.{set_adapters}

-- `vdMachine.Spec.Network.Adapters`, nil where there is no network.
abbrev pub spec_adapters : VdMachine → Option (List VdNetworkAdapter)
spec_adapters m = elim m.spec.network [ none ↦ none | some network ↦ network.adapters ]

-- `len` and `range` of a slice that may be nil.
abbrev pub elements {ℓ} : {A : Type ℓ} → Option (List A) → List A
elements none = []
elements (some xs) = xs

-- `*a.Type == *adapter.Type && *a.Vmnet == *adapter.Vmnet`
unfoldable pub same_adapter : VdNetworkAdapter → VdNetworkAdapter → M VdMachine Bool
same_adapter a adapter = do
  t ← deref a.type
  u ← deref adapter.type
  if t == u then (do v ← deref a.vmnet; w ← deref adapter.vmnet; pure (v == w)) else pure false

-- `contains`, with `slices.ContainsFunc`, which stops at the first hit.
unfoldable pub contains : List VdNetworkAdapter → VdNetworkAdapter → M VdMachine Bool
contains [] adapter = pure false
contains (a ∷ adapters) adapter = do
  same ← same_adapter a adapter
  if same then pure true else contains adapters adapter

-- The loop that computes `containsAll`.
unfoldable pub contains_all : List VdNetworkAdapter → List VdNetworkAdapter → M VdMachine Bool
contains_all status [] = pure true
contains_all status (adapter ∷ adapters) = do
  present ← contains status adapter
  if present then contains_all status adapters else pure false

-- `fmt.Sprintf("ethernet%d.%s", number, name)`
abbrev pub adapter_param : ℕ → String → String
adapter_param number name = "ethernet" <> itoa number <> "." <> name

-- `adapter.VirtualDev`, or vmxnet3.
abbrev pub virtual_dev_of : VdNetworkAdapter → String
virtual_dev_of adapter = elim adapter.virtual_dev [ none ↦ "vmxnet3" | some dev ↦ dev ]

-- The map `params`.
abbrev pub adapter_params : String → String → String → List (String × String)
adapter_params type virtual_dev vmnet =
    ("connectionType", type)
    ∷ ("virtualDev", virtual_dev)
    ∷ ("vnet", vmnet)
    ∷ ("present", "TRUE")
    ∷ ("addressType", "generated")
    ∷ []

-- A device of the service as an adapter of the status.
abbrev pub adapter_of : NicDevice → VdNetworkAdapter
adapter_of nic = record { type = some nic.type; vmnet = some nic.vmnet; virtual_dev = none }

module _ (E : Env) (vm_id : String) where
  unfoldable pub send_param : ℕ → String × String → M VdMachine (Unit {0})
  send_param number (name, value) = do
    reply ← send E (config_vm_params vm_id (adapter_param number name) value)
    or_wrap "failed to create network adapter: " reply

  -- The adapter gets the number `number`.
  unfoldable pub create_adapter : ℕ → VdNetworkAdapter → M VdMachine (Unit {0})
  create_adapter number adapter = do
    type ← deref adapter.type
    vmnet ← deref adapter.vmnet
    params ←
        history
          (λ h. E.order (String × String) h (adapter_params type (virtual_dev_of adapter) vmnet))
    for_each params (send_param number)

  -- The second loop, from the adapter with the number `number` on.
  unfoldable pub create_missing :
      List VdNetworkAdapter → ℕ → List VdNetworkAdapter → M VdMachine (Unit {0})
  create_missing status number [] = pure tt
  create_missing status number (adapter ∷ adapters) = do
    present ← contains status adapter
    if present then pure tt else create_adapter number adapter
    create_missing status (suc number) adapters

  -- From `logger.Info("reconcile network adapters")` on.
  unfoldable pub refresh_adapters : M VdMachine Result
  refresh_adapters = do
    reply ← send E (get_all_nic_devices vm_id)
    nics ← or_wrap "failed to get VM network adapters: " reply
    let status = map adapter_of nics
    modify (set_adapters (some status))
    m ← get
    elim (spec_adapters m) [
      | none ↦ pure no_requeue
      | some adapters ↦ create_missing status (length nics) adapters >> pure (requeue millisecond)
    ]

  unfoldable pub reconcile_network_adapters : M VdMachine Result
  reconcile_network_adapters = do
    m ← get
    elim (spec_adapters m) [
      | none ↦ if is_some m.status.network_adapters then pure no_requeue else refresh_adapters
      | some adapters ↦ contains_all (elements m.status.network_adapters) adapters >>= λ all.
          if all then pure no_requeue else refresh_adapters
    ]
