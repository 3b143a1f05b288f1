-- ===== src/Program/Yields.antt =====
-- Actions that return, with what holds of the value and of the state where they end: total
-- correctness, with a rule for each way to build an action.
use cluster_api_provider_vmw.Base.{
  ◌≡◌, refl, ap, ◌∙◌, Bool, true, false, if◌then◌else◌, Option, none, some, List, [], ◌∷◌, arith,
}
use cluster_api_provider_vmw.Remote.{Call, Reply, Env}
use cluster_api_provider_vmw.Program.{
  done, State, M, ◌>>=◌, ◌>>◌, pure, deref, get, gets, history, modify, send, for_each, fold_each,
}
use cluster_api_provider_vmw.Program.Returns.{bind-done}

pub record Yields {ℓ} {O A : Type 0} (Q : A → State O → Type ℓ) (m : M O A) (s : State O)
    : Type ℓ where
  pub value : A
  pub end : State O
  pub same : m s ≡ (done value, end)
  pub holds : Q value end

module _ {ℓ κ} {O A B : Type 0} {Q : A → State O → Type ℓ} {R : B → State O → Type κ} where
  pub Yields-bind :
      (m : M O A) (f : A → M O B) (s : State O)
      → Yields Q m s
      → ((a : A) (t : State O) → Q a t → Yields R (f a) t)
      → Yields R (m >>= f) s
  Yields-bind m f s h k =
      let r = k h.value h.end h.holds in
      record {
        value = r.value;
        end = r.end;
        same = bind-done m f s h.end h.value h.same ∙ r.same;
        holds = r.holds;
      }

module _ {ℓ} {O A : Type 0} {Q : A → State O → Type ℓ} where
  pub Yields-pure : (a : A) (s : State O) → Q a s → Yields Q (pure a) s
  unfolding ◌>>=◌
  Yields-pure a s h = record { value = a; end = s; same = refl; holds = h }

  pub Yields-run : (m : M O A) (a : A) (s : State O) → (m s).0 ≡ done a → Q a (m s).1 → Yields Q m s
  Yields-run m a s e h = record {
    value = a;
    end = (m s).1;
    same = ap (λ r. (r, (m s).1)) e;
    holds = h;
  }

  pub Yields-same : (m n : M O A) (s : State O) → m s ≡ n s → Yields Q n s → Yields Q m s
  Yields-same m n s e h = record {
    value = h.value;
    end = h.end;
    same = e ∙ h.same;
    holds = h.holds;
  }

  pub Yields-get : (f : O → M O A) (s : State O) → Yields Q (f s.object) s → Yields Q (get >>= f) s
  unfolding ◌>>=◌
  Yields-get f s h = record { value = h.value; end = h.end; same = h.same; holds = h.holds }

  pub Yields-gets :
      {B : Type 0} (g : O → B) (f : B → M O A) (s : State O)
      → Yields Q (f (g s.object)) s
      → Yields Q (gets g >>= f) s
  unfolding ◌>>=◌
  Yields-gets g f s h = record { value = h.value; end = h.end; same = h.same; holds = h.holds }

  pub Yields-history :
      {B : Type 0} (g : List Call → B) (f : B → M O A) (s : State O)
      → Yields Q (f (g s.calls)) s
      → Yields Q (history g >>= f) s
  unfolding ◌>>=◌
  Yields-history g f s h = record { value = h.value; end = h.end; same = h.same; holds = h.holds }

  pub Yields-modify :
      (g : O → O) (m : M O A) (s : State O)
      → Yields Q m (record s { object = g s.object })
      → Yields Q (modify g >> m) s
  unfolding ◌>>=◌
  Yields-modify g m s h = record { value = h.value; end = h.end; same = h.same; holds = h.holds }

  -- A call whose answer is known.
  pub Yields-send :
      (E : Env) (c : Call) (a : Reply c) (f : Reply c → M O A) (s : State O)
      → E.answer s.calls c ≡ a
      → Yields Q (f a) (record s { calls = c ∷ s.calls })
      → Yields Q (send E c >>= f) s
  unfolding ◌>>=◌
  Yields-send E c a f s e h = record {
    value = h.value;
    end = h.end;
    same = rw e h.same;
    holds = h.holds;
  }

  pub Yields-deref :
      {B : Type 0} (o : Option B) (b : B) (f : B → M O A) (s : State O)
      → o ≡ some b
      → Yields Q (f b) s
      → Yields Q (deref o >>= f) s
  unfolding ◌>>=◌
  Yields-deref o b f s e h = record {
    value = h.value;
    end = h.end;
    same = rw e h.same;
    holds = h.holds;
  }

  pub Yields-if :
      (b : Bool) (m n : M O A) (s : State O)
      → Yields Q m s
      → Yields Q n s
      → Yields Q (if b then m else n) s
  Yields-if true m n s h k = h
  Yields-if false m n s h k = k

  pub Yields-then :
      (b : Bool) (m n : M O A) (s : State O)
      → b ≡ true
      → Yields Q m s
      → Yields Q (if b then m else n) s
  Yields-then b m n s e h = record {
    value = h.value;
    end = h.end;
    same = rw e h.same;
    holds = h.holds;
  }

  pub Yields-else :
      (b : Bool) (m n : M O A) (s : State O)
      → b ≡ false
      → Yields Q n s
      → Yields Q (if b then m else n) s
  Yields-else b m n s e h = record {
    value = h.value;
    end = h.end;
    same = rw e h.same;
    holds = h.holds;
  }

  pub Yields-some :
      {B : Type 0} (o : Option B) (b : B) (m : M O A) (f : B → M O A) (s : State O)
      → o ≡ some b
      → Yields Q (f b) s
      → Yields Q (elim o [ none ↦ m | some b ↦ f b ]) s
  Yields-some none b m f s e h = ground arith
  Yields-some (some c) b m f s e h =
      let k = ap (λ o. elim o [ none ↦ c | some x ↦ x ]) e in
      record { value = h.value; end = h.end; same = rw k h.same; holds = h.holds }

  pub Yields-none :
      {B : Type 0} (o : Option B) (m : M O A) (f : B → M O A) (s : State O)
      → o ≡ none
      → Yields Q m s
      → Yields Q (elim o [ none ↦ m | some b ↦ f b ]) s
  Yields-none none m f s e h = h
  Yields-none (some c) m f s e h = ground arith

module _ {ℓ} {O A : Type 0} {P : State O → Type ℓ} where
  pub Yields-for_each :
      (body : A → M O (Unit {0})) (xs : List A) (s : State O)
      → ((a : A) (t : State O) → P t → Yields (λ _ u. P u) (body a) t)
      → P s
      → Yields (λ _ u. P u) (for_each xs body) s
  unfolding for_each
  Yields-for_each body [] s k h = Yields-pure tt s h
  Yields-for_each body (x ∷ xs) s k h =
      Yields-bind (body x) (λ _. for_each xs body) s (k x s h)
        (λ _ t p. Yields-for_each body xs t k p)

  pub Yields-fold_each :
      {B : Type 0} (body : A → B → M O B) (xs : List A) (b : B) (s : State O)
      → ((a : A) (b : B) (t : State O) → P t → Yields (λ _ u. P u) (body a b) t)
      → P s
      → Yields (λ _ u. P u) (fold_each xs body b) s
  unfolding fold_each
  Yields-fold_each body [] b s k h = Yields-pure b s h
  Yields-fold_each body (x ∷ xs) b s k h =
      Yields-bind (body x b) (λ b'. fold_each xs body b') s (k x b s h)
        (λ b' t p. Yields-fold_each body xs b' t k p)
