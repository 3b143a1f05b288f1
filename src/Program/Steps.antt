-- ===== src/Program/Steps.antt =====
-- A sequence of actions whose first part is known runs like the rest.
use cluster_api_provider_vmw.Base.{
  String, ◌≡◌, refl, ap, Bool, true, false, if◌then◌else◌, Option, some, none, ◌∷◌,
}
use cluster_api_provider_vmw.Remote.{success, Error, Call, Reply, Env}
use cluster_api_provider_vmw.Program.{
  Outcome, done, State, M, ◌>>=◌, ◌>>◌, pure, get, modify, send, Result, no_requeue,
  ◌then_unless_requeue◌, deferred, finish, or_wrap,
}
use cluster_api_provider_vmw.Program.Returns.{bind-done}

module _ {O A : Type 0} where
  pub run_pure : (a : A) (s : State O) → pure a s ≡ (done a, s)
  unfolding ◌>>=◌
  run_pure a s = refl

module _ {O A : Type 0} (s : State O) where
  pub run_get : (f : O → M O A) → (get >>= f) s ≡ f s.object s
  unfolding ◌>>=◌
  run_get f = refl

  pub run_modify :
      (g : O → O) (m : M O A) → (modify g >> m) s ≡ m (record s { object = g s.object })
  unfolding ◌>>=◌
  run_modify g m = refl

  -- A call whose answer is known.
  pub run_send :
      (E : Env) (c : Call) (a : Reply c) (f : Reply c → M O A)
      → E.answer s.calls c ≡ a
      → (send E c >>= f) s ≡ f a (record s { calls = c ∷ s.calls })
  unfolding ◌>>=◌
  run_send E c a f e = rw e refl

  pub run_some :
      {B : Type 0} (o : Option B) (b : B) (m : M O A) (f : B → M O A)
      → o ≡ some b
      → (elim o as (λ _. M O A) [ none ↦ m | some b ↦ f b ]) s ≡ f b s
  run_some o b m f e = rw e refl

  pub run_then : (b : Bool) (m n : M O A) → b ≡ true → (if b then m else n) s ≡ m s
  run_then b m n e = rw e refl

  pub run_else : (b : Bool) (m n : M O A) → b ≡ false → (if b then m else n) s ≡ n s
  run_else b m n e = rw e refl

-- The first step asks for no other run and leaves everything as it is.
pub run_quiet :
    {O : Type 0} (m rest : M O Result) (s : State O)
    → m s ≡ (done no_requeue, s)
    → (m then_unless_requeue rest) s ≡ rest s
run_quiet m rest s e = bind-done m _ s s no_requeue e

-- A handler whose body is known, up to the deferred patch.
pub run_deferred :
    {O A : Type 0} (patch : State O → Option Error × State O) (body : M O A) (s t : State O)
    (r : Outcome A)
    → body s ≡ (r, t)
    → deferred patch body s ≡ finish patch r t
unfolding deferred
run_deferred patch body s t r e = ap (λ q. finish patch q.0 q.1) e

-- A call of the service that succeeded.
pub run_success :
    {O A : Type 0} (message : String) (a : A) (s : State O)
    → or_wrap message (success a) s ≡ (done a, s)
unfolding ◌>>=◌
run_success message a s = refl
