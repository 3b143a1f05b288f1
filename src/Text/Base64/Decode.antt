-- ===== src/Text/Base64/Decode.antt =====
-- What was encoded in base 64 decodes to the bytes that it was made of.
use Prim.Native.Char.{Char, char, code}
use mathlib.Core.Bool.{false≢true}
use cluster_api_provider_vmw.Base.{
  ℕ, zero, suc, ◌+◌, ◌*◌, ◌/◌, ◌%◌, ◌<◌, String, ◌≡◌, refl, ap, ◌∙◌, Bool, true, false, ◌&&◌,
  Option, none, some, List, [], ◌∷◌, ◌++◌, All, nat_eq, if◌then◌else◌, arith,
}
use cluster_api_provider_vmw.Text.{nth}
use cluster_api_provider_vmw.Text.Base64.{
  utf8, bytes_of, sextets, alphabet, symbol_before, symbols, encode_base64,
}

-- The place of a character in a text, or the length of the text.
unfoldable pub index_of : Char → String → ℕ
index_of c String.[] = 0
index_of c (String.◌∷◌ d s) =
    let more = index_of c s in if nat_eq (code d) (code c) then 0 else suc more

-- The numbers of the symbols, and the bytes of the numbers.
unfoldable pub numbers : String → List ℕ
numbers String.[] = []
numbers (String.◌∷◌ c s) = index_of c alphabet ∷ numbers s

unfoldable pub bytes_from : List ℕ → List ℕ
bytes_from (a ∷ b ∷ c ∷ d ∷ rest) =
    let more = bytes_from rest in
    let first = a * 4 + b / 16 in
    if nat_eq c 64
    then first ∷ []
    else if nat_eq d 64
    then first ∷ (b % 16 * 16 + c / 4) ∷ []
    else first ∷ (b % 16 * 16 + c / 4) ∷ (c % 4 * 64 + d) ∷ more
bytes_from _ = []

-- The decoder.
unfoldable pub decode_base64 : String → List ℕ
unfolding numbers bytes_from
decode_base64 s = bytes_from (numbers s)

abbrev IsByte : ℕ → Type 0
IsByte b = b < 256

abbrev IsSextet : ℕ → Type 0
IsSextet i = i < 65

sextets-IsSextet : (bs : List ℕ) → All IsByte bs → All IsSextet (sextets bs)
unfolding sextets
sextets-IsSextet [] h = tt
sextets-IsSextet (a ∷ []) h = ground arith
sextets-IsSextet (a ∷ b ∷ []) h = ground arith
sextets-IsSextet (a ∷ b ∷ c ∷ rest) h = let more = sextets-IsSextet rest h.1.1.1 in ground arith

bytes_from-sextets : (bs : List ℕ) → All IsByte bs → bytes_from (sextets bs) ≡ bs
unfolding sextets bytes_from
bytes_from-sextets [] h = refl
bytes_from-sextets (a ∷ []) h = ground arith
bytes_from-sextets (a ∷ b ∷ []) h = ground arith
bytes_from-sextets (a ∷ b ∷ c ∷ rest) h = let more = bytes_from-sextets rest h.1.1.1 in ground arith

abbrev placed_in : Option Char → ℕ → Bool
placed_in none i = false
placed_in (some c) i = nat_eq (index_of c alphabet) i

-- The test on one number, and on all below a bound.
abbrev placed : ℕ → Bool
placed i = placed_in (nth alphabet i) i

abbrev all_below : (ℕ → Bool) → ℕ → Bool
all_below test zero = true
all_below test (suc n) = test n && all_below test n

all_below_at : (test : ℕ → Bool) (n i : ℕ) → all_below test n ≡ true → i < n → test i ≡ true
all_below_at test zero i h lt = ground (arith, lt)
all_below_at test (suc n) i h lt = let rest = all_below_at test n i in grind arith

all_placed : all_below placed 65 ≡ true
unfolding index_of nth
all_placed = refl

code-lt : (c : Char) → code c < 0x11_0000
code-lt (char n p) = ground arith

utf8-IsByte : (c : ℕ) → c < 0x11_0000 → All IsByte (utf8 c)
unfolding utf8
utf8-IsByte c h = ground arith

All-append : (xs ys : List ℕ) → All IsByte xs → All IsByte ys → All IsByte (xs ++ ys)
All-append [] ys hx hy = hy
All-append (x ∷ xs) ys hx hy = (hx.0, All-append xs ys hx.1 hy)

bytes_of-IsByte : (s : String) → All IsByte (bytes_of s)
unfolding bytes_of
bytes_of-IsByte String.[] = tt
bytes_of-IsByte (String.◌∷◌ c s) =
    All-append (utf8 (code c)) (bytes_of s) (utf8-IsByte (code c) (code-lt c)) (bytes_of-IsByte s)

eq_of_nat_eq : (a b : ℕ) → nat_eq a b ≡ true → a ≡ b
eq_of_nat_eq a b h = ground arith

numbers-symbol :
    (o : Option Char) (i : ℕ) (is : List ℕ) (s : String)
    → placed_in o i ≡ true
    → numbers s ≡ is
    → numbers (symbol_before o s) ≡ i ∷ is
unfolding numbers symbol_before
numbers-symbol none i is s p e = absurd (false≢true p)
numbers-symbol (some c) i is s p e =
    ap (λ k. k ∷ numbers s) (eq_of_nat_eq (index_of c alphabet) i p) ∙ ap (λ r. i ∷ r) e

numbers-symbols : (is : List ℕ) → All IsSextet is → numbers (symbols is) ≡ is
unfolding symbols numbers
numbers-symbols [] h = refl
numbers-symbols (i ∷ is) h =
    numbers-symbol (nth alphabet i) i is (symbols is) (all_below_at placed 65 i all_placed h.0)
      (numbers-symbols is h.1)

-- Decoding gives the bytes of the text.
pub decode-encode_base64 : (s : String) → decode_base64 (encode_base64 s) ≡ bytes_of s
unfolding decode_base64 encode_base64
decode-encode_base64 s =
    ap bytes_from
      (numbers-symbols (sextets (bytes_of s)) (sextets-IsSextet (bytes_of s) (bytes_of-IsByte s)))
    ∙ bytes_from-sextets (bytes_of s) (bytes_of-IsByte s)
