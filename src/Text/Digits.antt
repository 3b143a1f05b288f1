-- ===== src/Text/Digits.antt =====
-- The fuel of the decimal text of a number.
use text.Mathlib.TextLemmas
use cluster_api_provider_vmw.Base.{
  String, false, ◌==◌, refl, eq_iff, Bool-cases, inl, inr, ℕ, zero, suc, ◌<◌, ◌/◌, ◌≡◌, arith, ◌≤◌,
  ◌%◌, ◌<>◌,
}
use cluster_api_provider_vmw.Text.{itoa_fuel, itoa, digit}

-- Any two amounts of fuel above the number give the same text.
itoa_fuel_same : (f g n : ℕ) → n < f → n < g → itoa_fuel f n ≡ itoa_fuel g n
unfolding itoa_fuel
itoa_fuel_same zero g n a b = ground (arith, a)
itoa_fuel_same (suc f) zero n a b = ground (arith, b)
itoa_fuel_same (suc f) (suc g) n a b = let rest = itoa_fuel_same f g (n / 10) in grind arith

-- The fuel of `itoa` is enough: more gives the same text, so a number of two digits or more is
-- printed as its front and its last digit.
pub itoa_step : (n : ℕ) → 10 ≤ n → itoa n ≡ itoa (n / 10) <> digit (n % 10)
unfolding itoa itoa_fuel
itoa_step n le =
    let front = itoa_fuel_same n (suc (n / 10)) (n / 10) (omega (arith, le)) (omega arith) in
    grind arith

pub itoa-digit : (n : ℕ) → n < 10 → itoa n ≡ digit n
unfolding itoa itoa_fuel
itoa-digit n h = ground arith

digit-nonempty : (d : ℕ) → d < 10 → (digit d == "") ≡ false
digit-nonempty zero h = refl
digit-nonempty (suc zero) h = refl
digit-nonempty (suc (suc zero)) h = refl
digit-nonempty (suc (suc (suc zero))) h = refl
digit-nonempty (suc (suc (suc (suc zero)))) h = refl
digit-nonempty (suc (suc (suc (suc (suc zero))))) h = refl
digit-nonempty (suc (suc (suc (suc (suc (suc zero)))))) h = refl
digit-nonempty (suc (suc (suc (suc (suc (suc (suc zero))))))) h = refl
digit-nonempty (suc (suc (suc (suc (suc (suc (suc (suc zero)))))))) h = refl
digit-nonempty (suc (suc (suc (suc (suc (suc (suc (suc (suc zero))))))))) h = refl
digit-nonempty (suc (suc (suc (suc (suc (suc (suc (suc (suc (suc d)))))))))) h =
    absurd (omega (arith, h))

append-nonempty : (s t : String) → (t == "") ≡ false → (s <> t == "") ≡ false
append-nonempty s t h = elim (Bool-cases (s <> t == "")) [
  | inl e ↦
      let both = TextLemmas.append-eq-nil_iff.0 ((eq_iff (s <> t) "").0 e) in
      let k = (eq_iff t "").1 both.1 in ground arith
  | inr e ↦ e
]

-- A number of two digits or more has a text.
pub itoa-nonempty : (n : ℕ) → 10 ≤ n → (itoa n == "") ≡ false
itoa-nonempty n le =
    let last = digit-nonempty (n % 10) (omega arith) in
    rw (itoa_step n le) (append-nonempty (itoa (n / 10)) (digit (n % 10)) last)
