-- ===== src/Machine/Vnc/Password.antt =====
-- What `generatePassword` comes to.
use Prim.Native.Char.{Char}
use Prim.Native.String.{count}
use text.Mathlib.TextLemmas
use mathlib.Core.Path.{subst}
use cluster_api_provider_vmw.Base.{
  ℕ, zero, suc, ◌+◌, ◌<◌, String, ◌≡◌, refl, sym, ap, ◌∙◌, some, ◌∷◌, arith,
}
use cluster_api_provider_vmw.Text.{nth, append_char}
use cluster_api_provider_vmw.Api.Machine.{VdMachine}
use cluster_api_provider_vmw.Remote.{rand_intn, Env, IsLawful}
use cluster_api_provider_vmw.Program.{State, done}
use cluster_api_provider_vmw.Program.Yields.{Yields, Yields-pure, Yields-send, Yields-deref}
use cluster_api_provider_vmw.Machine.Vnc.{charset, charset_len, generate_from, generate_password}

-- The character stands in the text.
abbrev pub StandsIn : String → Char → Type 0
StandsIn s c = (i : ℕ) × (nth s i ≡ some c)

-- Every character stands in `charset`.
unfoldable pub IsDrawn : String → Type 0
IsDrawn String.[] = Unit
IsDrawn (String.◌∷◌ c s) = StandsIn charset c × IsDrawn s

too_far : (i : ℕ) → i < count "" → ⊥
too_far i lt = let e = TextLemmas.length-nil in omega (arith, lt, e)

nth-lt : (s : String) (i : ℕ) → i < count s → (c : Char) × (nth s i ≡ some c)
unfolding nth
nth-lt String.[] i lt = absurd (too_far i lt)
nth-lt (String.◌∷◌ c s) zero lt = (c, refl)
nth-lt (String.◌∷◌ c s) (suc i) lt = nth-lt s i (omega (arith, lt, TextLemmas.length-cons c s))

IsDrawn-append_char :
    (s : String) (c : Char) → IsDrawn s → StandsIn charset c → IsDrawn (append_char s c)
unfolding IsDrawn
IsDrawn-append_char String.[] c h k = subst IsDrawn (sym (TextLemmas.nil-append _)) (k, tt)
IsDrawn-append_char (String.◌∷◌ d s) c h k =
    subst IsDrawn (sym (TextLemmas.cons-append d s _)) (h.0, IsDrawn-append_char s c h.1 k)

longer : (s : String) (c : Char) (n : ℕ) → count (append_char s c) + n ≡ count s + suc n
longer s c n =
    let a = TextLemmas.length-append s (String.◌∷◌ c String.[]) in
    let b = TextLemmas.length-cons c String.[] in
    let e = TextLemmas.length-nil in omega (arith, a, b, e)

module _ (E : Env) where
  generate_from-Yields :
      (rounds : ℕ) (password : String) (s : State VdMachine)
      → IsLawful E
      → IsDrawn password
      → Yields
          (λ p t. (count p ≡ count password + rounds) × IsDrawn p × (t.object ≡ s.object))
          (generate_from E rounds password)
          s
  unfolding generate_from
  generate_from-Yields zero password s lawful h = Yields-pure password s (omega arith, h, refl)
  generate_from-Yields (suc rounds) password s lawful h =
      let n = E.answer s.calls (rand_intn charset_len) in
      let (c, e) = nth-lt charset n (lawful.rand_intn-lt s.calls charset_len (omega arith)) in
      let rest =
        generate_from-Yields rounds (append_char password c)
          (record s { calls = rand_intn charset_len ∷ s.calls }) lawful
          (IsDrawn-append_char password c h (n, e)) in
      Yields-send E (rand_intn charset_len) n _ s refl (
        Yields-deref (nth charset n) c _ _ e (record {
          value = rest.value;
          end = rest.end;
          same = rest.same;
          holds = (rest.holds.0 ∙ longer password c rounds, rest.holds.1, rest.holds.2);
        }))

  -- The generated password has eight characters, all of them from `charset`. It is found without
  -- an error and without a change to the machine. A random number is taken to lie below the bound
  -- that it is asked for with.
  pub generate_password-IsDrawn :
      (s : State VdMachine)
      → IsLawful E
      → (p : String) × ((generate_password E s).0 ≡ done p)
        × (count p ≡ 8)
        × IsDrawn p
        × ((generate_password E s).1.object ≡ s.object)
  unfolding generate_password IsDrawn
  generate_password-IsDrawn s lawful =
      let y = generate_from-Yields 8 "" s lawful tt in
      (y.value, ap (λ r. r.0) y.same, y.holds.0, y.holds.1, ap (λ r. r.1.object) y.same ∙ y.holds.2)
