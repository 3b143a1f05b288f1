-- ===== src/Text/Ip/Tests.antt =====
-- Addresses as Go reads and prints them.
use cluster_api_provider_vmw.Base.{String, ◌≡◌, refl, Option, none, some, Bool, true, false}
use cluster_api_provider_vmw.Text.Ip.{parse_cidr}
use cluster_api_provider_vmw.Text.Ip.Print.{is_ipv4, ip_string}

reads : String → Option (Bool × String)
unfolding parse_cidr ip_string
reads s = elim (parse_cidr s) [ none ↦ none | some ip ↦ some (is_ipv4 ip, ip_string ip) ]

ipv4_read : reads "10.0.0.5/24" ≡ some (true, "10.0.0.5")
unfolding reads
ipv4_read = refl

ipv6_read : reads "fe80::20c:29FF:fe00:1/64" ≡ some (false, "fe80::20c:29ff:fe00:1")
unfolding reads
ipv6_read = refl

long_read : reads "2001:db8:0:0:1:0:0:1/64" ≡ some (false, "2001:db8::1:0:0:1")
unfolding reads
long_read = refl

unspecified_read : reads "::/0" ≡ some (false, "::")
unfolding reads
unspecified_read = refl

mapped_read : reads "::ffff:10.0.0.5/96" ≡ some (true, "10.0.0.5")
unfolding reads
mapped_read = refl

ends_read : reads "1::/16" ≡ some (false, "1::")
unfolding reads
ends_read = refl

refused :
    (reads "10.0.0.5" ≡ none)
    × (reads "10.0.0.05/24" ≡ none)
    × (reads "10.0.0.5/33" ≡ none)
    × (reads "10.0.0.256/24" ≡ none)
    × (reads "10.0.0./24" ≡ none)
    × (reads "fe80::1%eth0/64" ≡ none)
    × (reads "1:2:3:4:5:6:7::8:9/64" ≡ none)
    × (reads "1:2:3/64" ≡ none)
    × (reads "10.0.0.5/2a" ≡ none)
    × (reads "1::2::3/64" ≡ none)
    × (reads "12345::/64" ≡ none)
unfolding reads
refused = (refl, refl, refl, refl, refl, refl, refl, refl, refl, refl, refl)
