-- ===== src/Program/Returns.antt =====
-- What a sequence of actions that returned says of each of them.
use cluster_api_provider_vmw.Base.{
  ◌≡◌, refl, sym, ap, Bool, true, false, if◌then◌else◌, Option, none, some, List, arith,
}
use cluster_api_provider_vmw.Remote.{Call}
use mathlib.Core.Path.{subst}
use cluster_api_provider_vmw.Program.{
  Outcome, done, fail, panic, exit, State, M, continue, ◌>>=◌, pure, deref, get, history,
}

module _ {O A B : Type 0} where
  -- Both parts of a sequence that returned did.
  pub record Returned (m : M O A) (f : A → M O B) (s : State O) (b : B) : Type 0 where
    pub value : A
    pub first : (m s).0 ≡ done value
    pub rest : (f value (m s).1).0 ≡ done b
    pub same : (m >>= f) s ≡ f value (m s).1

  pub bind-done :
      (m : M O A) (f : A → M O B) (s t : State O) (a : A) → m s ≡ (done a, t) → (m >>= f) s ≡ f a t
  unfolding ◌>>=◌
  bind-done m f s t a e = ap (λ r. continue r.0 f r.1) e

  continue-Returned :
      (m : M O A) (f : A → M O B) (s : State O) (b : B) (r : Outcome A)
      → (m s).0 ≡ r
      → (continue r f (m s).1).0 ≡ done b
      → Returned m f s b
  unfolding ◌>>=◌
  continue-Returned m f s b (done a) e h = record {
    value = a;
    first = e;
    rest = h;
    same = rw e refl;
  }
  continue-Returned m f s b (fail x) e h = ground arith
  continue-Returned m f s b panic e h = ground arith
  continue-Returned m f s b exit e h = ground arith

  pub bind-Returned :
      (m : M O A) (f : A → M O B) (s : State O) (b : B)
      → ((m >>= f) s).0 ≡ done b
      → Returned m f s b
  unfolding ◌>>=◌
  bind-Returned m f s b h = continue-Returned m f s b (m s).0 refl h

-- If the action returns from `s`, then `Q` holds where it ends.
pub record Ends {ℓ} {O A : Type 0} (Q : State O → Type ℓ) (m : M O A) (s : State O) : Type ℓ where
  pub at : (a : A) → (m s).0 ≡ done a → Q (m s).1

module _ {ℓ} {O A B : Type 0} {Q : State O → Type ℓ} where
  pub Ends-bind :
      (m : M O A) (f : A → M O B) (s : State O)
      → ((a : A) (t : State O) → Ends Q (f a) t)
      → Ends Q (m >>= f) s
  Ends-bind m f s k = record {
    at = λ b h.
        let r = bind-Returned m f s b h in
        subst (λ q. Q q.1) (sym r.same) ((k r.value (m s).1).at b r.rest);
  }

  -- The rest may use what the first part returned and where it ended.
  pub Ends-bind_value :
      (m : M O A) (f : A → M O B) (s : State O)
      → ((a : A) → (m s).0 ≡ done a → Ends Q (f a) (m s).1)
      → Ends Q (m >>= f) s
  Ends-bind_value m f s k = record {
    at = λ b h.
        let r = bind-Returned m f s b h in
        subst (λ q. Q q.1) (sym r.same) ((k r.value r.first).at b r.rest);
  }

  pub Ends-deref :
      (o : Option A) (f : A → M O B) (s : State O)
      → ((a : A) → o ≡ some a → Ends Q (f a) s)
      → Ends Q (deref o >>= f) s
  unfolding ◌>>=◌
  Ends-deref none f s k = record { at = λ b h. ground arith }
  Ends-deref (some a) f s k = k a refl

  pub Ends-history :
      (g : List Call → A) (f : A → M O B) (s : State O)
      → Ends Q (f (g s.calls)) s
      → Ends Q (history g >>= f) s
  unfolding ◌>>=◌
  Ends-history g f s k = record { at = k.at }

module _ {ℓ} {O B : Type 0} {Q : State O → Type ℓ} where
  pub Ends-pure : (b : B) (s : State O) → Q s → Ends Q (pure b) s
  unfolding ◌>>=◌
  Ends-pure b s h = record { at = λ _ _. h }

  pub Ends-get : (f : O → M O B) (s : State O) → Ends Q (f s.object) s → Ends Q (get >>= f) s
  unfolding ◌>>=◌
  Ends-get f s k = record { at = k.at }

-- The second part may use what the first one came to.
pub Ends-then {ℓ} :
    {O A B : Type 0} {Q R : State O → Type ℓ} (m : M O A) (f : A → M O B) (s : State O)
    → Ends Q m s
    → ((a : A) (t : State O) → Q t → Ends R (f a) t)
    → Ends R (m >>= f) s
Ends-then {R = R} m f s e k = record {
  at = λ b h.
      let r = bind-Returned m f s b h in
      subst (λ q. R q.1) (sym r.same) ((k r.value (m s).1 (e.at r.value r.first)).at b r.rest);
}

module _ {ℓ} {O A : Type 0} {Q : State O → Type ℓ} where
  pub Ends-else :
      (b : Bool) (m n : M O A) (s : State O)
      → b ≡ false
      → Ends Q n s
      → Ends Q (if b then m else n) s
  Ends-else true m n s e k = ground arith
  Ends-else false m n s e k = k
