-- ===== src/Machine/Life/Ready.antt =====
-- How far a machine has come, and a service that does as it is told: the terms in which its way to
-- readiness is stated. The machine asks for no adapters, folders, VNC or addresses from a pool.
pub mod Steps
pub mod Last
pub mod Runs
pub mod Up
use cluster_api_provider_vmw.Base.{
  ℕ, ◌≤◌, ◌≡◌, String, Bool, true, false, Option, none, some, List, [], ◌∷◌, All, is_some, length,
  lookup, ltb,
}
use cluster_api_provider_vmw.Api.Machine.{VdMachine, VdMachineSpec, VdNetwork, VdNetworkEthernet}
use cluster_api_provider_vmw.Remote.{
  Error, Call, success, found, missing, ObjectKey, NicDevice, NicIpStack, Env, on,
  change_power_state, get_power_state, config_vm_params, get_vm_params, get_all_nic_devices,
  get_nic_info, patch_machine, get_secret, get_address,
}
use cluster_api_provider_vmw.Machine.Hardware.Settles.{Echoes}
use cluster_api_provider_vmw.Machine.Addresses.Typed.{IsIpv4Only, ipv4_from}

abbrev pub HasNoPool : VdNetworkEthernet → Type 0
HasNoPool ethernet = ethernet.ipam_ref ≡ none

-- A spec that asks for nothing but ethernets without IPv6.
pub record IsPlain (spec : VdMachineSpec) (network : VdNetwork) : Type 0 where
  pub networked : spec.network ≡ some network
  pub no_adapters : network.adapters ≡ none
  pub no_pools : All HasNoPool network.ethernets
  pub ipv4_only : All IsIpv4Only network.ethernets
  pub no_folders : spec.shared_folders ≡ []
  pub no_vnc : spec.vnc ≡ none

-- The machine is not being deleted and not ready yet, and these parts of its status are known.
abbrev pub Stage : VdMachineSpec → (state adapters vnc provided : Bool) → VdMachine → Type 0
Stage spec state adapters vnc provided m =
    (m.spec ≡ spec)
    × (m.meta.deleted ≡ false)
    × (is_some m.status.state ≡ state)
    × (is_some m.status.network_adapters ≡ adapters)
    × (is_some m.status.vnc ≡ vnc)
    × (m.status.shared_folders ≡ [])
    × (m.status.addresses ≡ [])
    × (m.status.initialization.bootstrap_data_provided ≡ provided)

-- The service answers each call for the virtual machine, the Kubernetes API stores the machine, has
-- the secret and no address from a pool. The devices are not more than the ethernets, and they have
-- as many IPv4 addresses at least.
pub record Serves (E : Env) (vm_id : String) (network : VdNetwork) : Type 0 where
  pub echoes : Echoes E vm_id
  pub devices :
      (calls : List Call)
      → (devices : List NicDevice) × (E.answer calls (get_all_nic_devices vm_id) ≡ success devices)
  pub params :
      (calls : List Call) (key : String)
      → (value : String) × (E.answer calls (get_vm_params vm_id key) ≡ success (some value))
  pub configures :
      (calls : List Call) (name value : String)
      → E.answer calls (config_vm_params vm_id name value) ≡ success tt
  pub tells_state :
      (calls : List Call)
      → (state : String) × (E.answer calls (get_power_state vm_id) ≡ success state)
  pub powers_on :
      (calls : List Call)
      → (state : String) × (E.answer calls (change_power_state vm_id on) ≡ success state)
  pub nic : NicIpStack
  pub nics : List NicIpStack
  pub informs : (calls : List Call) → E.answer calls (get_nic_info vm_id) ≡ success (nic ∷ nics)
  pub no_more_nics : length (nic ∷ nics) ≤ length network.ethernets
  pub enough :
      ltb (length (ipv4_from network.ethernets (nic ∷ nics) 0)) (length network.ethernets) ≡ false
  pub stores : (calls : List Call) (m : VdMachine) → E.answer calls (patch_machine m) ≡ none
  pub secret :
      (calls : List Call) (key : ObjectKey)
      → (entries : List (String × String)) × (value : String) × (E.answer calls (get_secret key)
          ≡ found entries)
        × (lookup "value" entries ≡ some value)
  pub no_pool_address :
      (calls : List Call) (key : ObjectKey)
      → (e : Error) × (E.answer calls (get_address key) ≡ missing e)
