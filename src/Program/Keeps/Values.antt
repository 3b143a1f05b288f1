-- ===== src/Program/Keeps/Values.antt =====
-- The rules for what an action keeps where the rest of it may use what a part of it came to.
use mathlib.Core.List.{Mem, mem-cons_self, mem-cons_of_mem}
use cluster_api_provider_vmw.Base.{
  ◌≡◌, refl, Bool, true, false, Option, some, List, [], ◌∷◌, if◌then◌else◌,
}
use cluster_api_provider_vmw.Remote.{Call}
use cluster_api_provider_vmw.Program.{
  Outcome, done, fail, panic, exit, State, M, continue, ◌>>=◌, deref, history, for_each,
}
use cluster_api_provider_vmw.Program.Keeps.{Keeps, Keeps-pure, Keeps-bind, Keeps-deref_at}

module _ {ℓ} {O A B : Type 0} {P : State O → Type ℓ} where
  Keeps-continue_value :
      (r : Outcome A) (f : A → M O B)
      → ((a : A) → r ≡ done a → Keeps P (f a))
      → Keeps P (continue r f)
  Keeps-continue_value (done a) f k = k a refl
  Keeps-continue_value (fail e) f k = record { at = λ s h. h }
  Keeps-continue_value panic f k = record { at = λ s h. h }
  Keeps-continue_value exit f k = record { at = λ s h. h }

  -- The rest may use what the first part returned.
  pub Keeps-bind_value :
      (m : M O A) (f : A → M O B)
      → Keeps P m
      → ((s : State O) (a : A) → (m s).0 ≡ done a → Keeps P (f a))
      → Keeps P (m >>= f)
  unfolding ◌>>=◌
  Keeps-bind_value m f km kf = record {
    at = λ s h. (Keeps-continue_value (m s).0 f (kf s)).at (m s).1 (km.at s h);
  }

  pub Keeps-bind_deref :
      (o : Option A) (f : A → M O B)
      → ((a : A) → o ≡ some a → Keeps P (f a))
      → Keeps P (deref o >>= f)
  Keeps-bind_deref o f k = record { at = λ s h. Keeps-deref_at P o f s h λ a e. (k a e).at s h }

  pub Keeps-bind_history :
      (g : List Call → A) (f : A → M O B)
      → ((calls : List Call) → Keeps P (f (g calls)))
      → Keeps P (history g >>= f)
  unfolding ◌>>=◌
  Keeps-bind_history g f k = record { at = λ s h. (k s.calls).at s h }

module _ {ℓ} {O A : Type 0} {P : State O → Type ℓ} where
  pub Keeps-if_value :
      (b : Bool) (m n : M O A)
      → (b ≡ true → Keeps P m)
      → (b ≡ false → Keeps P n)
      → Keeps P (if b then m else n)
  Keeps-if_value true m n km kn = km refl
  Keeps-if_value false m n km kn = kn refl

  pub Keeps-for_each_mem :
      (body : A → M O (Unit {0})) (xs : List A)
      → ((a : A) → Mem a xs → Keeps P (body a))
      → Keeps P (for_each xs body)
  unfolding for_each
  Keeps-for_each_mem body [] k = Keeps-pure tt
  Keeps-for_each_mem body (x ∷ xs) k =
      Keeps-bind (body x) (λ _. for_each xs body) (k x mem-cons_self)
        (λ _. Keeps-for_each_mem body xs λ a m. k a (mem-cons_of_mem _ m))
