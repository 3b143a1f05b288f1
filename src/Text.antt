-- ===== src/Text.antt =====
-- The functions of Go's standard library on texts that the controllers call.
pub mod Base64
pub mod Escape
pub mod Ip
pub mod Digits
use Prim.Native.Char.{Char}
use Prim.Native.String.{count}
use text.Mathlib.Text.{starts_with}
use cluster_api_provider_vmw.Base.{
  ℕ, zero, suc, ◌-◌, ◌/◌, ◌%◌, String, ◌<>◌, Bool, true, false, Option, none, some, List, [], ◌∷◌,
  ◌||◌, ◌==◌, ltb, get_elem?, if◌then◌else◌,
}

-- The character at a position, counted in characters.
unfoldable pub nth : String → ℕ → Option Char
nth String.[] i = none
nth (String.◌∷◌ c s) zero = some c
nth (String.◌∷◌ c s) (suc i) = nth s i

abbrev pub append_char : String → Char → String
append_char s c = s <> String.◌∷◌ c String.[]

abbrev digits : List String
digits = "0" ∷ "1" ∷ "2" ∷ "3" ∷ "4" ∷ "5" ∷ "6" ∷ "7" ∷ "8" ∷ "9" ∷ []

abbrev pub digit : ℕ → String
digit n = elim (get_elem? digits n) [ none ↦ "" | some d ↦ d ]

-- The digits of a number from its last one, with fuel.
unfoldable pub itoa_fuel : ℕ → ℕ → String
itoa_fuel zero n = ""
itoa_fuel (suc fuel) n =
    let front = itoa_fuel fuel (n / 10) in if ltb n 10 then digit n else front <> digit (n % 10)

-- `strconv.Itoa` on a number that is not negative. Each round drops a digit, so `n + 1` rounds do.
unfoldable pub itoa : ℕ → String
unfolding itoa_fuel
itoa n = itoa_fuel (suc n) n

-- `strconv.FormatBool`
abbrev pub format_bool : Bool → String
format_bool true = "true"
format_bool false = "false"

-- `strings.ToUpper(strconv.FormatBool(b))`
abbrev pub upper_bool : Bool → String
upper_bool true = "TRUE"
upper_bool false = "FALSE"

-- `strconv.ParseBool`
unfoldable pub parse_bool : String → Option Bool
parse_bool s =
    if s == "1" || s == "t" || s == "T" || s == "TRUE" || s == "true" || s == "True"
    then some true
    else if s == "0" || s == "f" || s == "F" || s == "FALSE" || s == "false" || s == "False"
    then some false
    else none

-- `strings.ReplaceAll` from a position on, where the first characters still belong to a match.
unfoldable pub replace_from : String → String → String → ℕ → String
replace_from old new String.[] skip = ""
replace_from old new (String.◌∷◌ c s) (suc skip) = replace_from old new s skip
replace_from old new (String.◌∷◌ c s) zero =
    let here = starts_with (String.◌∷◌ c s) old in
    let rest = replace_from old new s (if here then count old - 1 else 0) in
    if here then new <> rest else String.◌∷◌ c rest

-- `strings.ReplaceAll(s, old, new)` for an `old` that is not empty.
unfoldable pub replace_all : String → String → String → String
unfolding replace_from
replace_all s old new = replace_from old new s 0
