-- ===== src/Base/Perms.antt =====
-- Boolean tests on the elements of a list, and reordered lists.
use mathlib.Core.Logic.{∥∥₁_elim, inl, inr}
use mathlib.Core.Path.{◌≡◌, refl, ap, subst, sym}
use mathlib.Core.Bool.{Bool, true, ◌&&◌, Bool-set}
use mathlib.Core.List.{
  List, [], ◌∷◌, Mem, Perm, not-mem-nil, mem-cons_self, mem-cons_of_mem, eq-or-mem_of_mem-cons,
}
use mathlib.Core.List.Perm.{mem_iff}
use native.Mathlib.Omega.{arith}
use cluster_api_provider_vmw.Base.Tests.{Bool-cases}
use cluster_api_provider_vmw.Base.Lists.{any}

-- Every element passes the test.
abbrev pub every {ℓ} : {A : Type ℓ} → (A → Bool) → List A → Bool
every test [] = true
every test (x ∷ xs) = test x && every test xs

module _ {ℓ} {A : Type ℓ} (test : A → Bool) where
  every-Mem : (xs : List A) (x : A) → every test xs ≡ true → Mem x xs → test x ≡ true
  every-Mem [] x h m = absurd (not-mem-nil m)
  every-Mem (y ∷ xs) x h m = ∥∥₁_elim (eq-or-mem_of_mem-cons m) (Bool-set _ _) λ p. elim p [
    | inl e ↦ subst (λ z. test z ≡ true) (sym e) (ground arith)
    | inr there ↦ every-Mem xs x (ground arith) there
  ]

  Mem-every : (xs : List A) → ((x : A) → Mem x xs → test x ≡ true) → every test xs ≡ true
  Mem-every [] h = refl
  Mem-every (x ∷ xs) h =
      let here = h x mem-cons_self in
      let rest = Mem-every xs (λ y m. h y (mem-cons_of_mem _ m)) in ground arith

  any-Mem : (xs : List A) (x : A) → test x ≡ true → Mem x xs → any test xs ≡ true
  any-Mem [] x h m = absurd (not-mem-nil m)
  any-Mem (y ∷ xs) x h m = ∥∥₁_elim (eq-or-mem_of_mem-cons m) (Bool-set _ _) λ p. elim p [
    | inl e ↦ let here = ap test e in ground arith
    | inr there ↦ let rest = any-Mem xs x h there in ground arith
  ]

  Mem-any : (xs : List A) → any test xs ≡ true → (x : A) × (test x ≡ true) × Mem x xs
  Mem-any [] h = ground arith
  Mem-any (x ∷ xs) h = elim (Bool-cases (test x)) [
    | inl e ↦ (x, e, mem-cons_self)
    | inr e ↦ let (y, k, m) = Mem-any xs (ground arith) in (y, k, mem-cons_of_mem _ m)
  ]

  pub every-Perm : (xs ys : List A) → Perm xs ys → every test ys ≡ true → every test xs ≡ true
  every-Perm xs ys p h = Mem-every xs λ x m. every-Mem ys x h ((mem_iff p).0 m)

  pub any-Perm : (xs ys : List A) → Perm xs ys → any test ys ≡ true → any test xs ≡ true
  any-Perm xs ys p h = let (x, k, m) = Mem-any ys h in any-Mem xs x k ((mem_iff p).1 m)
