-- ===== src/Machine/Addresses/Typed.antt =====
-- What `extractAddresses` collects for a machine that takes no IPv6 addresses.
use cluster_api_provider_vmw.Base.{
  ℕ, zero, suc, ◌+◌, ◌≤◌, ◌<◌, String, ◌≡◌, refl, sym, ap, ◌∙◌, Option, none, some, List, [], ◌∷◌,
  ◌++◌, length, get_elem?, arith, false, All, if◌then◌else◌,
}
use mathlib.Core.List.{append-nil, append_assoc}
use cluster_api_provider_vmw.Api.Machine.{VdMachine, VdNetwork, VdNetworkEthernet, MachineAddress}
use cluster_api_provider_vmw.Remote.{NicIpStack}
use cluster_api_provider_vmw.Text.Ip.{Ip, parse_cidr}
use cluster_api_provider_vmw.Text.Ip.Print.{is_ipv4, ip_string}
use cluster_api_provider_vmw.Program.{State, done, ◌>>=◌, fold_each, get, deref, pure}
use cluster_api_provider_vmw.Program.Returns.{bind-done}
use cluster_api_provider_vmw.Machine.Addresses.{
  type_ip_of, dhcp6_of, add_address, extract_from, extract_addresses,
}

-- The address in CIDR form, if it is one of IPv4, with the type.
abbrev pub ipv4_at : String → Option Ip → List MachineAddress
ipv4_at type none = []
ipv4_at type (some ip) =
    if is_ipv4 ip then record { type = type; address = ip_string ip } ∷ [] else []

-- The IPv4 addresses of a list of networks in CIDR form, each with the type.
abbrev pub ipv4_of : String → List String → List MachineAddress
ipv4_of type [] = []
ipv4_of type (cidr ∷ cidrs) = ipv4_at type (parse_cidr cidr) ++ ipv4_of type cidrs

-- Those of all the devices from the i-th on, each with the type that its ethernet asks for.
abbrev pub ipv4_from : List VdNetworkEthernet → List NicIpStack → ℕ → List MachineAddress
ipv4_from ethernets [] i = []
ipv4_from ethernets (nic ∷ nics) i =
    ipv4_of (type_ip_of (get_elem? ethernets i)) nic.ip ++ ipv4_from ethernets nics (suc i)

-- The ethernet takes no IPv6 address.
abbrev pub IsIpv4Only : VdNetworkEthernet → Type 0
IsIpv4Only ethernet = ethernet.dhcp6 ≡ some false

ipv4_only_at :
    (ethernets : List VdNetworkEthernet) (i : ℕ)
    → All IsIpv4Only ethernets
    → i < length ethernets
    → dhcp6_of (get_elem? ethernets i) ≡ some false
ipv4_only_at [] i h lt = ground (arith, lt)
ipv4_only_at (e ∷ ethernets) zero h lt = h.0
ipv4_only_at (e ∷ ethernets) (suc i) h lt = ipv4_only_at ethernets i h.1 (omega (arith, lt))

pure_end : (acc : List MachineAddress) (s : State VdMachine) → pure acc s ≡ (done (acc ++ []), s)
unfolding ◌>>=◌
pure_end acc s = ap (λ r. (done r, s)) (sym (append-nil acc))

get_lem : (s : State VdMachine) → get s ≡ (done s.object, s)
unfolding ◌>>=◌
get_lem s = refl

deref_lem :
    (o : Option VdNetwork) (network : VdNetwork) (s : State VdMachine)
    → o ≡ some network
    → deref o s ≡ (done network, s)
unfolding ◌>>=◌
deref_lem o network s e = rw e refl

add_address_lem :
    (type cidr : String) (acc : List MachineAddress) (s : State VdMachine)
    → add_address type (some false) cidr acc s ≡ (done (acc ++ ipv4_at type (parse_cidr cidr)), s)
unfolding add_address ◌>>=◌
add_address_lem type cidr acc s = let e = append-nil acc in ground arith

fold_lem :
    (type : String) (cidrs : List String) (acc : List MachineAddress) (s : State VdMachine)
    → fold_each cidrs (add_address type (some false)) acc s ≡ (done (acc ++ ipv4_of type cidrs), s)
unfolding fold_each
fold_lem type [] acc s = pure_end acc s
fold_lem type (cidr ∷ cidrs) acc s =
    bind-done _ _ s s _ (add_address_lem type cidr acc s)
    ∙ (fold_lem type cidrs (acc ++ ipv4_at type (parse_cidr cidr)) s
        ∙ ap (λ r. (done r, s))
            (append_assoc acc (ipv4_at type (parse_cidr cidr)) (ipv4_of type cidrs)))

device_lem :
    (ethernet : Option VdNetworkEthernet) (nic : NicIpStack) (acc : List MachineAddress)
    (s : State VdMachine)
    → dhcp6_of ethernet ≡ some false
    → fold_each nic.ip (add_address (type_ip_of ethernet) (dhcp6_of ethernet)) acc s
      ≡ (done (acc ++ ipv4_of (type_ip_of ethernet) nic.ip), s)
device_lem ethernet nic acc s e = rw e (fold_lem (type_ip_of ethernet) nic.ip acc s)

extract_from_lem :
    (network : VdNetwork) (nics : List NicIpStack) (i : ℕ) (acc : List MachineAddress)
    (s : State VdMachine)
    → s.object.spec.network ≡ some network
    → All IsIpv4Only network.ethernets
    → i + length nics ≤ length network.ethernets
    → extract_from nics i acc s ≡ (done (acc ++ ipv4_from network.ethernets nics i), s)
unfolding extract_from
extract_from_lem network [] i acc s e only le = pure_end acc s
extract_from_lem network (nic ∷ nics) i acc s e only le =
    let ethernet = get_elem? network.ethernets i in
    let here = ipv4_of (type_ip_of ethernet) nic.ip in
    let d =
      device_lem ethernet nic acc s (ipv4_only_at network.ethernets i only (omega (arith, le))) in
    let rest = extract_from_lem network nics (suc i) (acc ++ here) s e only (omega (arith, le)) in
    bind-done get _ s s _ (get_lem s)
    ∙ (bind-done _ _ s s _ (deref_lem s.object.spec.network network s e)
        ∙ (bind-done _ _ s s _ d
            ∙ (rest
                ∙ ap (λ r. (done r, s))
                    (append_assoc acc here (ipv4_from network.ethernets nics (suc i))))))

pub extract_addresses-ipv4 :
    (network : VdNetwork) (nics : List NicIpStack) (s : State VdMachine)
    → s.object.spec.network ≡ some network
    → All IsIpv4Only network.ethernets
    → length nics ≤ length network.ethernets
    → extract_addresses nics s ≡ (done (ipv4_from network.ethernets nics 0), s)
unfolding extract_addresses
extract_addresses-ipv4 network nics s e only le =
    extract_from_lem network nics 0 [] s e only (omega (arith, le))
