-- ===== src/Text/Ip/Print.antt =====
-- `IP.To4` and `IP.String`
use cluster_api_provider_vmw.Base.{
  ℕ, suc, ◌+◌, ◌*◌, ◌/◌, ◌%◌, String, ◌<>◌, Bool, true, false, ◌&&◌, none, some, List, [], ◌∷◌,
  take, drop, map, ltb, leb, nat_eq, if◌then◌else◌, get_elem?,
}
use cluster_api_provider_vmw.Text.{itoa}
use cluster_api_provider_vmw.Text.Ip.{Ip, v4_prefix}

-- The two lists of bytes are the same.
abbrev same_bytes : List ℕ → List ℕ → Bool
same_bytes [] [] = true
same_bytes (a ∷ as') (b ∷ bs) = nat_eq a b && same_bytes as' bs
same_bytes _ _ = false

-- `ip.To4() != nil` for sixteen bytes.
abbrev pub is_ipv4 : Ip → Bool
is_ipv4 ip = same_bytes (take 12 ip.bytes) v4_prefix

-- The texts with the separator between them.
unfoldable pub join : String → List String → String
join sep [] = ""
join sep (s ∷ []) = s
join sep (s ∷ t ∷ rest) = s <> (sep <> join sep (t ∷ rest))

abbrev hex_digits : List String
hex_digits =
    "0" ∷ "1" ∷ "2" ∷ "3" ∷ "4" ∷ "5" ∷ "6" ∷ "7" ∷ "8" ∷ "9" ∷ "a" ∷ "b" ∷ "c" ∷ "d" ∷ "e" ∷ "f"
    ∷ []

abbrev hex_digit : ℕ → String
hex_digit n = elim (get_elem? hex_digits n) [ none ↦ "" | some d ↦ d ]

-- `appendHex` of a number below 2 ^ 16
abbrev hex : ℕ → String
hex n =
    if ltb n 16
    then hex_digit n
    else if ltb n 256
    then hex_digit (n / 16) <> hex_digit (n % 16)
    else if ltb n 4096
    then hex_digit (n / 256) <> (hex_digit (n / 16 % 16) <> hex_digit (n % 16))
    else hex_digit (n / 4096)
      <> (hex_digit (n / 256 % 16) <> (hex_digit (n / 16 % 16) <> hex_digit (n % 16)))

-- The groups of two bytes.
unfoldable pub words : List ℕ → List ℕ
words (a ∷ b ∷ rest) = (a * 256 + b) ∷ words rest
words _ = []

-- The zeros at the front.
unfoldable pub zeros : List ℕ → ℕ
zeros [] = 0
zeros (n ∷ rest) = let more = zeros rest in if nat_eq n 0 then suc more else 0

-- The first of the longest runs of at least two zeros: its start and length.
unfoldable pub longest : List ℕ → ℕ → ℕ × ℕ → ℕ × ℕ
longest [] i best = best
longest (n ∷ rest) i (start, len) =
    let here = zeros (n ∷ rest) in
    longest rest (suc i) (if leb 2 here && ltb len here then (i, here) else (start, len))

-- `netip.Addr.string6`: the run is written as two colons.
unfoldable pub print_ipv6 : List ℕ → String
unfolding words zeros longest join
print_ipv6 bytes =
    let ws = words bytes in
    let (start, len) = longest ws 0 (0, 0) in
    if nat_eq len 0
    then join ":" (map hex ws)
    else join ":" (map hex (take start ws)) <> ("::" <> join ":" (map hex (drop (start + len) ws)))

-- `IP.String`
unfoldable pub ip_string : Ip → String
unfolding join print_ipv6 itoa
ip_string ip = if is_ipv4 ip then join "." (map itoa (drop 12 ip.bytes)) else print_ipv6 ip.bytes
