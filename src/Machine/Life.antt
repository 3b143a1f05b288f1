-- ===== src/Machine/Life.antt =====
-- What holds of a machine from one step to the next: the facts, and the proofs in the modules below.
pub mod Ready
pub mod Stale
pub mod Observed
pub mod Failed
pub mod Steady
pub mod Sound
pub mod Stored
pub mod Order
pub mod Guards
use cluster_api_provider_vmw.Base.{
  ℕ, String, ◌≡◌, ◌≤◌, Bool, true, false, Option, none, some, List, [], ◌∷◌, length,
}
use cluster_api_provider_vmw.Api.Machine.{
  VdMachine, VdNetwork, VdNetworkEthernet, MachineAddress, InitializationStatus,
}
use cluster_api_provider_vmw.Remote.{
  Call, create_vm, change_power_state, on, patch_machine, OwnerCluster, OwnerMachine, Env,
}
use cluster_api_provider_vmw.Machine.Create.{provider_id_of}
use cluster_api_provider_vmw.Program.{State}
use cluster_api_provider_vmw.Machine.Reconcile.{handle}

-- The provider id, where there is one, is that of the virtual machine.
abbrev pub IsLink : Option String → Option String → Type 0
IsLink none vm_id = Unit
IsLink (some provider_id) none = ⊥
IsLink (some provider_id) (some vm_id) = provider_id ≡ provider_id_of vm_id

abbrev pub ethernets_of : Option VdNetwork → List VdNetworkEthernet
ethernets_of none = []
ethernets_of (some network) = network.ethernets

-- A machine is ready exactly if it is provisioned, and then it has its bootstrap data and at
-- least as many addresses as ethernets.
pub record IsReport (ready : Bool) (initialization : InitializationStatus)
    (addresses : List MachineAddress) (network : Option VdNetwork) : Type 0 where
  pub same : ready ≡ initialization.provisioned
  pub bootstrapped : ready ≡ true → initialization.bootstrap_data_provided ≡ true
  pub addressed : ready ≡ true → length (ethernets_of network) ≤ length addresses

pub record IsSound (m : VdMachine) : Type 0 where
  pub linked : IsLink m.spec.provider_id m.spec.vm_id
  pub reported : IsReport m.status.ready m.status.initialization m.status.addresses m.spec.network

-- Every machine that was stored is sound.
abbrev pub StoredSound : List Call → Type 0
StoredSound [] = Unit
StoredSound (patch_machine m ∷ calls) = IsSound m × StoredSound calls
StoredSound (_ ∷ calls) = StoredSound calls

abbrev pub is_power_on : Call → Bool
is_power_on (change_power_state _ on) = true
is_power_on _ = false

abbrev pub is_create : Call → Bool
is_create (create_vm _ _) = true
is_create _ = false

-- A run of the handler on a machine.
abbrev pub handled : Env → OwnerCluster → OwnerMachine → VdMachine → List Call → State VdMachine
handled E cluster owner m calls = (handle E cluster owner (record { object = m; calls = calls })).1
