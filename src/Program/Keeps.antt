-- ===== src/Program/Keeps.antt =====
-- Facts that an action keeps, whatever its outcome, with a rule for each way to build an action.
pub mod Values
use cluster_api_provider_vmw.Base.{
  ◌≡◌, refl, String, Bool, true, false, Option, none, some, List, [], ◌∷◌, if◌then◌else◌,
}
use cluster_api_provider_vmw.Remote.{Error, Call, Reply, Env, Http, success, failure}
use cluster_api_provider_vmw.Program.{
  Outcome, done, fail, panic, exit, State, M, continue, ◌>>=◌, pure, raise, crash, deref, get,
  history, modify, send, ◌>>◌, for_each, fold_each, or_raise, or_wrap, ◌then_unless_requeue◌,
  Result, is_zero,
}

-- `m` keeps `P`, whether it returns, fails, panics or ends the process.
pub record Keeps {ℓ} {O A : Type 0} (P : State O → Type ℓ) (m : M O A) : Type ℓ where
  pub at : (s : State O) → P s → P (m s).1

module _ {ℓ} {O A : Type 0} {P : State O → Type ℓ} where
  pub Keeps-pure : (a : A) → Keeps P (pure a)
  unfolding ◌>>=◌
  Keeps-pure a = record { at = λ s h. h }

  pub Keeps-raise : (e : Error) → Keeps P (raise {A = A} e)
  unfolding ◌>>=◌
  Keeps-raise e = record { at = λ s h. h }

  pub Keeps-crash : Keeps P (crash {A = A})
  unfolding ◌>>=◌
  Keeps-crash = record { at = λ s h. h }

  pub Keeps-deref : (o : Option A) → Keeps P (deref o)
  unfolding ◌>>=◌
  Keeps-deref none = record { at = λ s h. h }
  Keeps-deref (some a) = record { at = λ s h. h }

  pub Keeps-or_raise : (r : Http A) → Keeps P (or_raise r)
  unfolding ◌>>=◌
  Keeps-or_raise (success a) = record { at = λ s h. h }
  Keeps-or_raise (failure _ e) = record { at = λ s h. h }

  pub Keeps-or_wrap : (text : String) (r : Http A) → Keeps P (or_wrap text r)
  unfolding ◌>>=◌
  Keeps-or_wrap text (success a) = record { at = λ s h. h }
  Keeps-or_wrap text (failure _ e) = record { at = λ s h. h }

  pub Keeps-if : (b : Bool) (m n : M O A) → Keeps P m → Keeps P n → Keeps P (if b then m else n)
  Keeps-if true m n km kn = km
  Keeps-if false m n km kn = kn

  pub Keeps-option :
      {B : Type 0} (o : Option B) (m : M O A) (f : B → M O A)
      → Keeps P m
      → ((b : B) → Keeps P (f b))
      → Keeps P (elim o [ none ↦ m | some b ↦ f b ])
  Keeps-option none m f km kf = km
  Keeps-option (some b) m f km kf = kf b

module _ {ℓ} {O A B : Type 0} {P : State O → Type ℓ} where
  Keeps-continue :
      (r : Outcome A) (f : A → M O B) → ((a : A) → Keeps P (f a)) → Keeps P (continue r f)
  Keeps-continue (done a) f k = k a
  Keeps-continue (fail e) f k = record { at = λ s h. h }
  Keeps-continue panic f k = record { at = λ s h. h }
  Keeps-continue exit f k = record { at = λ s h. h }

  pub Keeps-bind :
      (m : M O A) (f : A → M O B) → Keeps P m → ((a : A) → Keeps P (f a)) → Keeps P (m >>= f)
  unfolding ◌>>=◌
  Keeps-bind m f km kf = record { at = λ s h. (Keeps-continue (m s).0 f kf).at (m s).1 (km.at s h) }

  -- What holds behind the first part is kept by the rest.
  pub Keeps-bind_at :
      (m : M O A) (f : A → M O B) (s : State O)
      → P (m s).1
      → ((a : A) → Keeps P (f a))
      → P ((m >>= f) s).1
  unfolding ◌>>=◌
  Keeps-bind_at m f s h kf = (Keeps-continue (m s).0 f kf).at (m s).1 h

  -- The rest may use the object and the calls as they are.
  pub Keeps-history :
      (g : List Call → A) (f : A → M O B) → ((a : A) → Keeps P (f a)) → Keeps P (history g >>= f)
  unfolding ◌>>=◌
  Keeps-history g f kf = record { at = λ s h. (kf (g s.calls)).at s h }

module _ {ℓ} {O B : Type 0} (P : State O → Type ℓ) where
  pub Keeps-deref_at :
      {A : Type 0} (o : Option A) (f : A → M O B) (s : State O)
      → P s
      → ((a : A) → o ≡ some a → P (f a s).1)
      → P ((deref o >>= f) s).1
  unfolding ◌>>=◌
  Keeps-deref_at none f s h k = h
  Keeps-deref_at (some a) f s h k = k a refl

  -- The rest from where a call leaves, with its answer.
  pub Keeps-send_at :
      (E : Env) (c : Call) (f : Reply c → M O B) (s : State O)
      → P (f (E.answer s.calls c) (record s { calls = c ∷ s.calls })).1
      → P ((send E c >>= f) s).1
  unfolding ◌>>=◌
  Keeps-send_at E c f s h = h

module _ {ℓ} {O A : Type 0} {P : State O → Type ℓ} where
  -- The rest may use the object as it is.
  pub Keeps-get : (f : O → M O A) → ((o : O) → Keeps P (f o)) → Keeps P (get >>= f)
  unfolding ◌>>=◌
  Keeps-get f kf = record { at = λ s h. (kf s.object).at s h }

module _ {ℓ} {O A : Type 0} {P : State O → Type ℓ} where
  pub Keeps-for_each :
      (body : A → M O (Unit {0})) (xs : List A)
      → ((a : A) → Keeps P (body a))
      → Keeps P (for_each xs body)
  unfolding for_each
  Keeps-for_each body [] k = Keeps-pure tt
  Keeps-for_each body (x ∷ xs) k =
      Keeps-bind (body x) (λ _. for_each xs body) (k x) (λ _. Keeps-for_each body xs k)

  pub Keeps-fold_each :
      {B : Type 0} (body : A → B → M O B) (xs : List A) (b : B)
      → ((a : A) (b : B) → Keeps P (body a b))
      → Keeps P (fold_each xs body b)
  unfolding fold_each
  Keeps-fold_each body [] b k = Keeps-pure b
  Keeps-fold_each body (x ∷ xs) b k =
      Keeps-bind (body x b) (λ b'. fold_each xs body b') (k x b)
        (λ b'. Keeps-fold_each body xs b' k)

module _ {ℓ} {O : Type 0} {P : State O → Type ℓ} where
  pub Keeps-then :
      (m rest : M O Result) → Keeps P m → Keeps P rest → Keeps P (m then_unless_requeue rest)
  Keeps-then m rest km kr =
      Keeps-bind m (λ res. if is_zero res then rest else pure res) km
        (λ res. Keeps-if (is_zero res) rest (pure res) kr (Keeps-pure res))

-- What holds after an action: `Q` if it returned, and `P` otherwise.
abbrev pub Then {ℓ} : {O A : Type 0} (P Q : State O → Type ℓ) → Outcome A × State O → Type ℓ
Then P Q (done a, s) = Q s
Then P Q (fail e, s) = P s
Then P Q (panic, s) = P s
Then P Q (exit, s) = P s

module _ {ℓ} {O A B : Type 0} {P Q : State O → Type ℓ} where
  Keeps-continue_ensures :
      (r : Outcome A × State O) (f : A → M O B)
      → Then P Q r
      → ((s : State O) → Q s → P s)
      → ((a : A) → Keeps Q (f a))
      → P (continue r.0 f r.1).1
  Keeps-continue_ensures (done a, s) f h weaken kf = weaken _ ((kf a).at s h)
  Keeps-continue_ensures (fail e, s) f h weaken kf = h
  Keeps-continue_ensures (panic, s) f h weaken kf = h
  Keeps-continue_ensures (exit, s) f h weaken kf = h

  -- The rest runs only after a return, so it may use `Q`.
  pub Keeps-bind_ensures :
      (m : M O A) (f : A → M O B)
      → ((s : State O) → P s → Then P Q (m s))
      → ((s : State O) → Q s → P s)
      → ((a : A) → Keeps Q (f a))
      → Keeps P (m >>= f)
  unfolding ◌>>=◌
  Keeps-bind_ensures m f ensured weaken kf = record {
    at = λ s h. Keeps-continue_ensures (m s) f (ensured s h) weaken kf;
  }

-- From `P` the action leads to `R`, whatever its outcome.
pub record Leads {ℓ} {O A : Type 0} (P R : State O → Type ℓ) (m : M O A) : Type ℓ where
  pub at : (s : State O) → P s → R (m s).1

module _ {ℓ} {O A B : Type 0} {P R : State O → Type ℓ} where
  Leads-continue :
      (r : Outcome A) (f : A → M O B) (s : State O)
      → P s
      → ((t : State O) → P t → R t)
      → ((a : A) → Leads P R (f a))
      → R (continue r f s).1
  Leads-continue (done a) f s h weaken kf = (kf a).at s h
  Leads-continue (fail e) f s h weaken kf = weaken s h
  Leads-continue panic f s h weaken kf = weaken s h
  Leads-continue exit f s h weaken kf = weaken s h

  pub Leads-bind :
      (m : M O A) (f : A → M O B)
      → Keeps P m
      → ((t : State O) → P t → R t)
      → ((a : A) → Leads P R (f a))
      → Leads P R (m >>= f)
  unfolding ◌>>=◌
  Leads-bind m f km weaken kf = record {
    at = λ s h. Leads-continue (m s).0 f (m s).1 (km.at s h) weaken kf;
  }

module _ {ℓ} {O A : Type 0} {P R : State O → Type ℓ} where
  pub Leads-get :
      (f : O → M O A) → ((s : State O) → P s → R (f s.object s).1) → Leads P R (get >>= f)
  unfolding ◌>>=◌
  Leads-get f k = record { at = k }

  pub Leads-if :
      (b : Bool) (m n : M O A) → Leads P R m → Leads P R n → Leads P R (if b then m else n)
  Leads-if true m n km kn = km
  Leads-if false m n km kn = kn

  pub Leads-modify :
      (g : O → O) (m : M O A)
      → ((s : State O) → P s → R (m (record s { object = g s.object })).1)
      → Leads P R (modify g >> m)
  unfolding ◌>>=◌
  Leads-modify g m k = record { at = k }
