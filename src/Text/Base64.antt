-- ===== src/Text/Base64.antt =====
-- `base64.StdEncoding.EncodeToString([]byte(s))`: the bytes of the text in UTF-8, as groups of
-- six bits.
pub mod Decode
use Prim.Native.Char.{Char, code}
use cluster_api_provider_vmw.Base.{
  ℕ, ◌+◌, ◌*◌, ◌/◌, ◌%◌, String, Option, none, some, List, [], ◌∷◌, ◌++◌, ltb, if◌then◌else◌,
}
use cluster_api_provider_vmw.Text.{nth}

unfoldable utf8 : ℕ → List ℕ
utf8 c =
    if ltb c 0x80
    then c ∷ []
    else if ltb c 0x800
    then (0xc0 + c / 64) ∷ (0x80 + c % 64) ∷ []
    else if ltb c 0x1_0000
    then (0xe0 + c / 4096) ∷ (0x80 + c / 64 % 64) ∷ (0x80 + c % 64) ∷ []
    else (0xf0 + c / 262144) ∷ (0x80 + c / 4096 % 64) ∷ (0x80 + c / 64 % 64) ∷ (0x80 + c % 64) ∷ []

-- `[]byte(s)`
unfoldable pub bytes_of : String → List ℕ
unfolding utf8
bytes_of String.[] = []
bytes_of (String.◌∷◌ c s) = utf8 (code c) ++ bytes_of s

-- Three bytes make four groups; 64 stands for the padding.
unfoldable pub sextets : List ℕ → List ℕ
sextets [] = []
sextets (a ∷ []) = (a / 4) ∷ (a % 4 * 16) ∷ 64 ∷ 64 ∷ []
sextets (a ∷ b ∷ []) = (a / 4) ∷ (a % 4 * 16 + b / 16) ∷ (b % 16 * 4) ∷ 64 ∷ []
sextets (a ∷ b ∷ c ∷ rest) =
    (a / 4) ∷ (a % 4 * 16 + b / 16) ∷ (b % 16 * 4 + c / 64) ∷ (c % 64) ∷ sextets rest

abbrev alphabet : String
alphabet = "ABCDEFGHIJKLMNOPQRSTUVWXYZabcdefghijklmnopqrstuvwxyz0123456789+/="

unfoldable symbol_before : Option Char → String → String
symbol_before none s = s
symbol_before (some c) s = String.◌∷◌ c s

-- Each group is below the length of the table, so no group is dropped.
unfoldable symbols : List ℕ → String
unfolding nth symbol_before
symbols [] = ""
symbols (i ∷ rest) = symbol_before (nth alphabet i) (symbols rest)

unfoldable pub encode_base64 : String → String
unfolding bytes_of sextets symbols
encode_base64 s = symbols (sextets (bytes_of s))
