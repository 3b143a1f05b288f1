-- ===== src/Text/Ip/RoundTrip.antt =====
-- An IPv4 address that is printed reads back.
use mathlib.Core.List.{append-nil, append_assoc}
use text.Mathlib.TextLemmas
use cluster_api_provider_vmw.Base.{
  ℕ, zero, suc, ◌+◌, ◌/◌, ◌%◌, ◌≤◌, ◌<◌, String, ◌<>◌, ◌≡◌, ◌≢◌, refl, sym, ap, ◌∙◌, true, false,
  some, List, [], ◌∷◌, ◌++◌, length, All, ltb, if◌then◌else◌, arith,
}
use cluster_api_provider_vmw.Text.{digit, itoa}
use cluster_api_provider_vmw.Text.Digits.{itoa_step, itoa-digit}
use cluster_api_provider_vmw.Text.Base64.{bytes_of}
use cluster_api_provider_vmw.Text.Ip.{
  Ip, v4_prefix, fields, parse_ipv4, choose_addr, cut, dtoi, prefix_len, parse_cidr_bytes,
  parse_cidr, is_empty,
}
use cluster_api_provider_vmw.Text.Ip.Print.{ip_string}

bytes_of-append : (s t : String) → bytes_of (s <> t) ≡ bytes_of s ++ bytes_of t
unfolding bytes_of
bytes_of-append String.[] t = ap bytes_of (TextLemmas.nil-append t)
bytes_of-append (String.◌∷◌ c s) t =
    ap bytes_of (TextLemmas.cons-append c s t) ∙ simp (bytes_of-append s t, append_assoc)

bytes_of-digit : (k : ℕ) → k < 10 → bytes_of (digit k) ≡ (b'0' + k) ∷ []
unfolding bytes_of
bytes_of-digit zero h = refl
bytes_of-digit (suc zero) h = refl
bytes_of-digit (suc (suc zero)) h = refl
bytes_of-digit (suc (suc (suc zero))) h = refl
bytes_of-digit (suc (suc (suc (suc zero)))) h = refl
bytes_of-digit (suc (suc (suc (suc (suc zero))))) h = refl
bytes_of-digit (suc (suc (suc (suc (suc (suc zero)))))) h = refl
bytes_of-digit (suc (suc (suc (suc (suc (suc (suc zero))))))) h = refl
bytes_of-digit (suc (suc (suc (suc (suc (suc (suc (suc zero)))))))) h = refl
bytes_of-digit (suc (suc (suc (suc (suc (suc (suc (suc (suc zero))))))))) h = refl
bytes_of-digit (suc (suc (suc (suc (suc (suc (suc (suc (suc (suc k)))))))))) h =
    absurd (omega (arith, h))

-- The digits of a number below 1000.
abbrev pub decimal : ℕ → List ℕ
decimal n =
    if ltb n 10
    then (b'0' + n) ∷ []
    else if ltb n 100
    then (b'0' + n / 10) ∷ (b'0' + n % 10) ∷ []
    else (b'0' + n / 100) ∷ (b'0' + n / 10 % 10) ∷ (b'0' + n % 10) ∷ []

one_digit : (n : ℕ) → n < 10 → bytes_of (itoa n) ≡ (b'0' + n) ∷ []
one_digit n h = rw (itoa-digit n h) (bytes_of-digit n h)

more_digits :
    (n : ℕ) → 10 ≤ n → bytes_of (itoa n) ≡ bytes_of (itoa (n / 10)) ++ (b'0' + n % 10) ∷ []
more_digits n h =
    ap bytes_of (itoa_step n h)
    ∙ (bytes_of-append (itoa (n / 10)) (digit (n % 10))
        ∙ ap (λ d. bytes_of (itoa (n / 10)) ++ d) (bytes_of-digit (n % 10) (omega arith)))

bytes_of-itoa : (n : ℕ) → n < 1000 → bytes_of (itoa n) ≡ decimal n
bytes_of-itoa n h =
    let a = one_digit n in
    let b = more_digits n in
    let c = one_digit (n / 10) in
    let d = more_digits (n / 10) in let e = one_digit (n / 10 / 10) in ground arith

-- A field of an address that is read to its end.
fields_end :
    (a : ℕ) (done : List ℕ)
    → a < 256
    → length done ≡ 3
    → fields (decimal a) true 0 0 done ≡ some (done ++ a ∷ [])
unfolding fields
fields_end a done h l = ground arith

-- A field that a dot ends.
fields_dot :
    (a : ℕ) (rest done : List ℕ)
    → a < 256
    → length done < 3
    → is_empty rest ≡ false
    → fields (decimal a ++ b'.' ∷ rest) true 0 0 done ≡ fields rest true 0 0 (done ++ a ∷ [])
unfolding fields
fields_dot a rest done h l e = ground arith

decimal-nonempty : (a : ℕ) (rest : List ℕ) → is_empty (decimal a ++ rest) ≡ false
decimal-nonempty a rest = ground arith

dtoi_lem : (n : ℕ) → n < 100 → prefix_len (decimal n) ≡ some n
unfolding dtoi prefix_len
dtoi_lem n h = ground arith

-- The bytes of an address in dotted form.
abbrev dotted_bytes : ℕ → ℕ → ℕ → ℕ → List ℕ
dotted_bytes a b c d = decimal a ++ b'.' ∷ (decimal b ++ b'.' ∷ (decimal c ++ b'.' ∷ decimal d))

fields_dotted :
    (a b c d : ℕ)
    → a < 256
    → b < 256
    → c < 256
    → d < 256
    → fields (dotted_bytes a b c d) true 0 0 [] ≡ some (a ∷ b ∷ c ∷ d ∷ [])
fields_dotted a b c d ha hb hc hd =
    fields_dot a _ [] ha (omega arith) (decimal-nonempty b _)
    ∙ (fields_dot b _ (a ∷ []) hb (omega arith) (decimal-nonempty c _)
        ∙ (fields_dot c _ (a ∷ b ∷ []) hc (omega arith) (ground arith)
            ∙ fields_end d (a ∷ b ∷ c ∷ []) hd refl))

choose_digits :
    (s : List ℕ) (a : ℕ) (rest : List ℕ)
    → a < 256
    → choose_addr s (decimal a ++ b'.' ∷ rest) ≡ parse_ipv4 s
unfolding choose_addr
choose_digits s a rest h = ground arith

-- No byte is a slash.
abbrev LacksSlash : List ℕ → Type 0
LacksSlash = All (λ c. c ≢ b'/')

decimal-LacksSlash : (a : ℕ) → a < 256 → LacksSlash (decimal a)
decimal-LacksSlash a h = ground arith

cut_lem :
    (s before rest : List ℕ)
    → LacksSlash s
    → cut before (s ++ b'/' ∷ rest) ≡ some (before ++ s, rest)
unfolding cut
cut_lem [] before rest h = ap (λ b. some (b, rest)) (sym (append-nil before))
cut_lem (c ∷ s) before rest h =
    let more = cut_lem s (before ++ c ∷ []) rest h.1 in
    let assoc = append_assoc before (c ∷ []) s in let lacks = h.0 in ground arith

LacksSlash-append : (s t : List ℕ) → LacksSlash s → LacksSlash t → LacksSlash (s ++ t)
LacksSlash-append [] t hs ht = ht
LacksSlash-append (c ∷ s) t hs ht = (hs.0, LacksSlash-append s t hs.1 ht)

field_LacksSlash :
    (a : ℕ) (rest : List ℕ) → a < 256 → LacksSlash rest → LacksSlash (decimal a ++ b'.' ∷ rest)
field_LacksSlash a rest h hr =
    LacksSlash-append (decimal a) (b'.' ∷ rest) (decimal-LacksSlash a h) ((ground arith, hr))

dotted-LacksSlash :
    (a b c d : ℕ) → a < 256 → b < 256 → c < 256 → d < 256 → LacksSlash (dotted_bytes a b c d)
dotted-LacksSlash a b c d ha hb hc hd =
    field_LacksSlash a _ ha
      (field_LacksSlash b _ hb (field_LacksSlash c _ hc (decimal-LacksSlash d hd)))

-- An IPv4 address in dotted form, and in CIDR form.
abbrev pub dotted : ℕ → ℕ → ℕ → ℕ → String
dotted a b c d = itoa a <> ("." <> (itoa b <> ("." <> (itoa c <> ("." <> itoa d)))))

abbrev pub cidr : ℕ → ℕ → ℕ → ℕ → ℕ → String
cidr a b c d n = dotted a b c d <> ("/" <> itoa n)

bytes_of_field :
    (a : ℕ) (sep : String) (c : ℕ) (t : String) (rest : List ℕ)
    → a < 256
    → bytes_of sep ≡ c ∷ []
    → bytes_of t ≡ rest
    → bytes_of (itoa a <> (sep <> t)) ≡ decimal a ++ c ∷ rest
bytes_of_field a sep c t rest h e f =
    let g = bytes_of-append (itoa a) (sep <> t) in
    let k = bytes_of-append sep t in let d = bytes_of-itoa a (omega (arith, h)) in ground arith

one_byte : (bytes_of "." ≡ b'.' ∷ []) × (bytes_of "/" ≡ b'/' ∷ [])
unfolding bytes_of
one_byte = (refl, refl)

bytes_of-dotted :
    (a b c d : ℕ)
    → a < 256
    → b < 256
    → c < 256
    → d < 256
    → bytes_of (dotted a b c d) ≡ dotted_bytes a b c d
bytes_of-dotted a b c d ha hb hc hd = bytes_of_field a "." b'.' _ _ ha one_byte.0 (
    bytes_of_field b "." b'.' _ _ hb one_byte.0
      (bytes_of_field c "." b'.' _ _ hc one_byte.0 (bytes_of-itoa d (omega (arith, hd)))))

bytes_of-cidr :
    (a b c d n : ℕ)
    → a < 256
    → b < 256
    → c < 256
    → d < 256
    → n ≤ 32
    → bytes_of (cidr a b c d n) ≡ dotted_bytes a b c d ++ b'/' ∷ decimal n
bytes_of-cidr a b c d n ha hb hc hd hn =
    let f = bytes_of-append (dotted a b c d) ("/" <> itoa n) in
    let g = bytes_of-append "/" (itoa n) in
    let h = bytes_of-dotted a b c d ha hb hc hd in
    let k = bytes_of-itoa n (omega (arith, hn)) in let e = one_byte.1 in cc

abbrev pub ip_of : ℕ → ℕ → ℕ → ℕ → Ip
ip_of a b c d = record { bytes = v4_prefix ++ a ∷ b ∷ c ∷ d ∷ [] }

parse_cidr_lem :
    (a b c d n : ℕ)
    → a < 256
    → b < 256
    → c < 256
    → d < 256
    → n ≤ 32
    → parse_cidr_bytes (dotted_bytes a b c d ++ b'/' ∷ decimal n) ≡ some (ip_of a b c d)
unfolding parse_cidr_bytes parse_ipv4
parse_cidr_lem a b c d n ha hb hc hd hn =
    let s = dotted_bytes a b c d in
    let e = cut_lem s [] (decimal n) (dotted-LacksSlash a b c d ha hb hc hd) in
    let f = choose_digits s a (decimal b ++ b'.' ∷ (decimal c ++ b'.' ∷ decimal d)) ha in
    let g = fields_dotted a b c d ha hb hc hd in
    let k = dtoi_lem n (omega (arith, hn)) in rw e (rw f (rw g (rw k (ground arith))))

pub parse_cidr-cidr :
    (a b c d n : ℕ)
    → a < 256
    → b < 256
    → c < 256
    → d < 256
    → n ≤ 32
    → parse_cidr (cidr a b c d n) ≡ some (ip_of a b c d)
unfolding parse_cidr
parse_cidr-cidr a b c d n ha hb hc hd hn =
    ap parse_cidr_bytes (bytes_of-cidr a b c d n ha hb hc hd hn)
    ∙ parse_cidr_lem a b c d n ha hb hc hd hn

pub ip_string-ip_of : (a b c d : ℕ) → ip_string (ip_of a b c d) ≡ dotted a b c d
unfolding ip_string
ip_string-ip_of a b c d = refl
