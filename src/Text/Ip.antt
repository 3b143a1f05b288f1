-- ===== src/Text/Ip.antt =====
-- What the controllers use of Go's packages net and net/netip: `net.ParseCIDR`, `IP.To4` and
-- `IP.String`. Texts are read byte by byte.
pub mod Print
pub mod RoundTrip
mod Tests
use cluster_api_provider_vmw.Base.{
  ℕ, zero, suc, ◌+◌, ◌-◌, ◌*◌, ◌/◌, ◌%◌, String, Bool, true, false, not, ◌&&◌, ◌||◌, Option, none,
  some, List, [], ◌∷◌, ◌++◌, length, take, drop, replicate, is_some, ltb, leb, nat_eq,
  if◌then◌else◌,
}
use cluster_api_provider_vmw.Text.Base64.{bytes_of}

-- `IP`: sixteen bytes. An IPv4 address stands behind ten zeros and two bytes 0xff.
pub record Ip : Type 0 where
  pub bytes : List ℕ

abbrev pub v4_prefix : List ℕ
v4_prefix = 0 ∷ 0 ∷ 0 ∷ 0 ∷ 0 ∷ 0 ∷ 0 ∷ 0 ∷ 0 ∷ 0 ∷ 0xff ∷ 0xff ∷ []

-- `netip.Addr`, without a zone: the bytes of `As16`, and whether it was written as IPv4.
pub record Addr : Type 0 where
  pub bytes : List ℕ
  pub bit_len : ℕ

infixl 5 ◌>>=?◌
abbrev pub ◌>>=?◌ {ℓ κ} : {A : Type ℓ} {B : Type κ} → Option A → (A → Option B) → Option B
none >>=? f = none
some a >>=? f = f a

abbrev pub guard {ℓ} : {A : Type ℓ} → Bool → Option A → Option A
guard true o = o
guard false o = none

abbrev pub is_digit : ℕ → Bool
is_digit c = leb b'0' c && leb c b'9'

abbrev pub is_empty {ℓ} : {A : Type ℓ} → List A → Bool
is_empty [] = true
is_empty (x ∷ xs) = false

-- The loop of `parseIPv4Fields`: the bytes left, whether a field has just begun, the value and the
-- number of digits of the field, and the fields before it.
unfoldable pub fields : List ℕ → Bool → ℕ → ℕ → List ℕ → Option (List ℕ)
fields [] begins val digits done = guard (nat_eq (length done) 3) (some (done ++ val ∷ []))
fields (c ∷ rest) begins val digits done =
    let more = fields rest false (val * 10 + (c - b'0')) (suc digits) done in
    let next = fields rest true 0 0 (done ++ val ∷ []) in
    if is_digit c
    then guard (not (nat_eq digits 1 && nat_eq val 0) && ltb (val * 10 + (c - b'0')) 256) more
    else if nat_eq c b'.'
    then guard (not begins && not (is_empty rest) && ltb (length done) 3) next
    else none

-- `parseIPv4`
unfoldable pub parse_ipv4 : List ℕ → Option Addr
parse_ipv4 s =
    fields s true 0 0 [] >>=? λ bytes. some (record { bytes = v4_prefix ++ bytes; bit_len = 32 })

-- The value of a hexadecimal digit.
abbrev hex_value : ℕ → Option ℕ
hex_value c =
    if is_digit c
    then some (c - b'0')
    else if leb b'a' c && leb c b'f'
    then some (c - b'a' + 10)
    else if leb b'A' c && leb c b'F'
    then some (c - b'A' + 10)
    else none

-- A group of hexadecimal digits: how many, their value, and what follows. Four digits at most are
-- below 2 ^ 16, so the test for an overflow never fails.
pub record Group : Type 0 where
  pub off : ℕ
  pub acc : ℕ
  pub rest : List ℕ

unfoldable pub scan_group : List ℕ → ℕ → ℕ → Option Group
scan_group [] off acc = some (record { off = off; acc = acc; rest = [] })
scan_group (c ∷ rest) off acc = elim (hex_value c) [
  | none ↦ some (record { off = off; acc = acc; rest = c ∷ rest })
  | some d ↦ let more = scan_group rest (suc off) (acc * 16 + d) in guard (leb off 3) more
]

-- What follows the loop of `parseIPv6`: the text must be used up, and the ellipsis is expanded.
unfoldable pub expand : List ℕ → List ℕ → Option ℕ → Option (List ℕ)
expand (c ∷ rest) bytes ellipsis = none
expand [] bytes none = guard (nat_eq (length bytes) 16) (some bytes)
expand [] bytes (some at) =
    guard (ltb (length bytes) 16)
      (some (take at bytes ++ (replicate (16 - length bytes) 0 ++ drop at bytes)))

-- An IPv4 address in the place of the last two groups.
abbrev embed : List ℕ → List ℕ → Option ℕ → Option (List ℕ)
embed s bytes ellipsis =
    guard ((is_some ellipsis || nat_eq (length bytes) 12) && leb (length bytes + 4) 16)
      (fields s true 0 0 [] >>=? λ v4. expand [] (bytes ++ v4) ellipsis)

-- The loop of `parseIPv6`, with the groups that still have room.
unfoldable pub groups : ℕ → List ℕ → List ℕ → Option ℕ → Option (List ℕ)
-- What follows a group that is not an IPv4 address.
groups zero s bytes ellipsis = expand s bytes ellipsis
groups (suc n) s bytes ellipsis = scan_group s 0 0 >>=? λ group.
    let bytes' = bytes ++ (group.acc / 256) ∷ (group.acc % 256) ∷ [] in
    guard (not (nat_eq group.off 0)) (elim group.rest [
      | [] ↦ expand [] bytes' ellipsis
      | c ∷ rest ↦
          let plain = groups n rest bytes' ellipsis in
          let behind = λ (rest' : List ℕ). groups n rest' bytes' (some (length bytes')) in
          if nat_eq c b'.'
          then embed s bytes ellipsis
          else guard (nat_eq c b':' && not (is_empty rest)) (elim rest [
            | [] ↦ none
            | d ∷ rest' ↦
                if nat_eq d b':'
                then guard (not (is_some ellipsis)) (
                    if is_empty rest'
                    then expand [] bytes' (some (length bytes'))
                    else behind rest')
                else plain
          ])
    ])

-- The leading ellipsis.
unfoldable pub begin_groups : List ℕ → Option (List ℕ)
begin_groups (a ∷ b ∷ s) =
    if nat_eq a b':' && nat_eq b b':'
    then (if is_empty s then some (replicate 16 0) else groups 8 s [] (some 0))
    else groups 8 (a ∷ b ∷ s) [] none
begin_groups s = groups 8 s [] none

abbrev contains_byte : ℕ → List ℕ → Bool
contains_byte c [] = false
contains_byte c (d ∷ s) = nat_eq d c || contains_byte c s

-- `parseIPv6`. An address with a zone is refused: here if the zone is empty or the rest is no
-- address, and otherwise by `ParseCIDR`.
unfoldable pub parse_ipv6 : List ℕ → Option Addr
parse_ipv6 s =
    guard (not (contains_byte b'%' s))
      (begin_groups s >>=? λ bytes. some (record { bytes = bytes; bit_len = 128 }))

-- `netip.ParseAddr`: the first of the three characters decides.
unfoldable pub choose_addr : List ℕ → List ℕ → Option Addr
choose_addr s [] = none
choose_addr s (c ∷ rest) =
    if nat_eq c b'.'
    then parse_ipv4 s
    else if nat_eq c b':'
    then parse_ipv6 s
    else if nat_eq c b'%'
    then none
    else choose_addr s rest

abbrev pub parse_addr : List ℕ → Option Addr
parse_addr s = choose_addr s s

-- `strings.Cut(s, "/")`: what stands before the first slash, and behind it.
unfoldable pub cut : List ℕ → List ℕ → Option (List ℕ × List ℕ)
cut before [] = none
cut before (c ∷ rest) =
    let more = cut (before ++ c ∷ []) rest in if nat_eq c b'/' then some (before, rest) else more

-- `dtoi` on a text that must be digits to its end.
unfoldable pub dtoi : List ℕ → ℕ → Option ℕ
dtoi [] n = some n
dtoi (c ∷ rest) n =
    let more = dtoi rest (n * 10 + (c - b'0')) in
    guard (is_digit c && ltb (n * 10 + (c - b'0')) 0xff_ffff) more

unfoldable pub prefix_len : List ℕ → Option ℕ
prefix_len [] = none
prefix_len (c ∷ rest) = dtoi (c ∷ rest) 0

unfoldable pub parse_cidr_bytes : List ℕ → Option Ip
parse_cidr_bytes s = cut [] s >>=? λ (parts : List ℕ × List ℕ). parse_addr parts.0 >>=? λ addr.
    prefix_len parts.1 >>=? λ n. guard (leb n addr.bit_len) (some (record { bytes = addr.bytes }))

-- `net.ParseCIDR`, of which the callers use the address. To open this is to open its parts too.
unfoldable pub parse_cidr : String → Option Ip
unfolding bytes_of fields parse_ipv4 scan_group expand groups begin_groups parse_ipv6 choose_addr
    cut dtoi prefix_len parse_cidr_bytes
parse_cidr s = parse_cidr_bytes (bytes_of s)
