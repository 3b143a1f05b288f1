-- ===== src/Machine/Addresses/Ipv4.antt =====
-- What `extractAddresses` makes of an IPv4 address.
use cluster_api_provider_vmw.Base.{
  ℕ, ◌≤◌, ◌<◌, String, ◌≡◌, refl, Bool, false, Option, none, some, List, [], ◌∷◌, ◌++◌, arith,
}
use cluster_api_provider_vmw.Text.Ip.RoundTrip.{
  dotted, cidr, ip_of, parse_cidr-cidr, ip_string-ip_of,
}
use cluster_api_provider_vmw.Api.Machine.{VdMachine, MachineAddress}
use cluster_api_provider_vmw.Program.{State, done, ◌>>=◌}
use cluster_api_provider_vmw.Machine.Addresses.{is_skipped, add_address}

is_skipped_ipv4 :
    (dhcp6 : Option Bool) (a b c d : ℕ) → is_skipped dhcp6 (some (ip_of a b c d)) ≡ false
is_skipped_ipv4 none a b c d = refl
is_skipped_ipv4 (some dhcp6) a b c d = ground arith

-- An IPv4 address that the service reports in dotted form with a prefix length up to 32 is
-- collected as that dotted form, with the type asked for, whatever is said about IPv6.
pub add_address-cidr :
    (a b c d n : ℕ) (type : String) (dhcp6 : Option Bool) (acc : List MachineAddress)
    (s : State VdMachine)
    → a < 256
    → b < 256
    → c < 256
    → d < 256
    → n ≤ 32
    → add_address type dhcp6 (cidr a b c d n) acc s
      ≡ (done (acc ++ record { type = type; address = dotted a b c d } ∷ []), s)
unfolding add_address ◌>>=◌
add_address-cidr a b c d n type dhcp6 acc s ha hb hc hd hn =
    let p = parse_cidr-cidr a b c d n ha hb hc hd hn in
    let k = is_skipped_ipv4 dhcp6 a b c d in
    let t = ip_string-ip_of a b c d in rw p (rw k (rw t refl))
