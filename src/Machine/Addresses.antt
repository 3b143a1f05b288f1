-- ===== src/Machine/Addresses.antt =====
-- `reconcileAddresses` and `extractAddresses`
pub mod Typed
pub mod Ipv4
use cluster_api_provider_vmw.Base.{
  ℕ, suc, String, Bool, true, false, not, ◌&&◌, Option, none, some, List, [], ◌∷◌, ◌++◌, ◌*◌, ◌<>◌,
  length, ltb, nat_eq, if◌then◌else◌, get_elem?,
}
use cluster_api_provider_vmw.Api.Machine.{VdMachine, VdNetworkEthernet, MachineAddress}
use cluster_api_provider_vmw.Remote.{get_nic_info, Http, success, failure, NicIpStack, Env}
use cluster_api_provider_vmw.Text.Ip.{Ip, parse_cidr}
use cluster_api_provider_vmw.Text.Ip.Print.{is_ipv4, ip_string}
use cluster_api_provider_vmw.Program.{
  M, pure, raise, crash, deref, get, modify, send, fold_each, ◌>>=◌, ◌>>◌, Result, no_requeue,
  requeue, second,
}
use cluster_api_provider_vmw.Machine.Fields.{with_status}

-- `clusterv1.MachineInternalIP`
abbrev pub internal_ip : String
internal_ip = "InternalIP"

-- The type of the addresses of the i-th device.
abbrev pub type_ip_of : Option VdNetworkEthernet → String
type_ip_of none = internal_ip
type_ip_of (some ethernet) = elim ethernet.type_ip [ none ↦ internal_ip | some t ↦ t ]

abbrev pub dhcp6_of : Option VdNetworkEthernet → Option Bool
dhcp6_of none = none
dhcp6_of (some ethernet) = ethernet.dhcp6

-- `ip.To4() == nil`, which also holds of the nil address that a failed parse gives.
abbrev pub is_not_ipv4 : Option Ip → Bool
is_not_ipv4 none = true
is_not_ipv4 (some ip) = not (is_ipv4 ip)

-- `dhcp6 != nil && !*dhcp6 && ip.To4() == nil`
abbrev pub is_skipped : Option Bool → Option Ip → Bool
is_skipped none ip = false
is_skipped (some dhcp6) ip = not dhcp6 && is_not_ipv4 ip

abbrev pub mark_ready : List MachineAddress → VdMachine → VdMachine
mark_ready addresses = with_status λ status. record status {
  addresses = addresses;
  ready = true;
  initialization = record (status.initialization) { provisioned = true };
}

unfoldable pub store_addresses : List MachineAddress → M VdMachine Result
store_addresses addresses = do
  m ← get
  network ← deref m.spec.network
  if ltb (length addresses) (length network.ethernets)
      then pure (requeue (10 * second))
      else (modify (mark_ready addresses) >> pure no_requeue)

-- The body of the inner loop: the error of the parse is looked at after the test for IPv4.
unfoldable pub add_address :
    String → Option Bool → String → List MachineAddress → M VdMachine (List MachineAddress)
add_address type_ip dhcp6 cidr addresses =
    if is_skipped dhcp6 (parse_cidr cidr) then pure addresses else elim (parse_cidr cidr) [
      | none ↦ raise ("invalid CIDR address: " <> cidr)
      | some ip ↦ pure (addresses ++ (record { type = type_ip; address = ip_string ip } ∷ []))
    ]

-- The outer loop from the i-th device on. A machine without a network panics at the first one.
unfoldable pub extract_from :
    List NicIpStack → ℕ → List MachineAddress → M VdMachine (List MachineAddress)
extract_from [] i addresses = pure addresses
extract_from (nic ∷ nics) i addresses = do
  m ← get
  network ← deref m.spec.network
  let ethernet = get_elem? network.ethernets i
  addresses' ← fold_each nic.ip (add_address (type_ip_of ethernet) (dhcp6_of ethernet)) addresses
  extract_from nics (suc i) addresses'

unfoldable pub extract_addresses : List NicIpStack → M VdMachine (List MachineAddress)
extract_addresses nics = extract_from nics 0 []

unfoldable pub after_nic_info : Http (List NicIpStack) → M VdMachine Result
after_nic_info (failure none e) = crash
after_nic_info (failure (some code) e) =
    if nat_eq code 500 then pure (requeue (10 * second)) else raise e
after_nic_info (success []) = pure (requeue (10 * second))
after_nic_info (success (nic ∷ nics)) = extract_addresses (nic ∷ nics) >>= store_addresses

unfoldable pub reconcile_addresses : Env → String → M VdMachine Result
reconcile_addresses E vm_id = do
  m ← get
  if ltb 0 (length m.status.addresses)
      then pure no_requeue
      else (send E (get_nic_info vm_id) >>= after_nic_info)
