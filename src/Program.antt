-- ===== src/Program.antt =====
-- Go code as actions on an object and the calls made so far. An action returns, returns an
-- error, panics, or ends the process; what was written before stays written.
pub mod Keeps
pub mod Returns
pub mod Steps
pub mod Yields
use cluster_api_provider_vmw.Base.{
  ℕ, String, Bool, Option, none, some, List, [], ◌∷◌, ◌<>◌, nat_eq, if◌then◌else◌,
}
use cluster_api_provider_vmw.Remote.{Error, Call, Reply, Http, success, failure, Env}

pub data Outcome {ℓ} (A : Type ℓ) : Type ℓ where
  done : A → Outcome A
  fail : Error → Outcome A
  panic : Outcome A
  exit : Outcome A

-- The object under reconciliation and the calls made, the latest first.
pub record State (O : Type 0) : Type 0 where
  pub object : O
  pub calls : List Call

abbrev pub M : Type 0 → Type 0 → Type 0
M O A = State O → Outcome A × State O

module _ {O A : Type 0} where
  unfoldable pub pure : A → M O A
  pure a s = (done a, s)

  -- `return ctrl.Result{}, err`
  unfoldable pub raise : Error → M O A
  raise e s = (fail e, s)

  unfoldable pub crash : M O A
  crash s = (panic, s)

  -- `os.Exit(1)`
  unfoldable pub quit : M O A
  quit s = (exit, s)

  -- `*p`
  unfoldable pub deref : Option A → M O A
  unfolding crash pure
  deref none = crash
  deref (some a) = pure a

  unfoldable pub gets : (O → A) → M O A
  gets f s = (done (f s.object), s)

  unfoldable pub history : (List Call → A) → M O A
  history f s = (done (f s.calls), s)

-- The object as it is.
unfoldable pub get : {O : Type 0} → M O O
get s = (done s.object, s)

module _ {O : Type 0} where
  unfoldable pub modify : (O → O) → M O (Unit {0})
  modify f s = (done tt, record s { object = f s.object })

  -- One call to the outside.
  unfoldable pub send : Env → (c : Call) → M O (Reply c)
  send E c s = (done (E.answer s.calls c), record s { calls = c ∷ s.calls })

  -- `if err != nil { return err }` after a call of the service.
  unfoldable pub or_raise : {A : Type 0} → Http A → M O A
  unfolding pure raise
  or_raise (success a) = pure a
  or_raise (failure _ e) = raise e

  -- The same with `fmt.Errorf("...: %v", err)`.
  unfoldable pub or_wrap : {A : Type 0} → String → Http A → M O A
  unfolding pure raise
  or_wrap message (success a) = pure a
  or_wrap message (failure _ e) = raise (message <> e)

module _ {O A B : Type 0} where
  abbrev pub continue : Outcome A → (A → M O B) → M O B
  continue (done a) f s = f a s
  continue (fail e) f s = (fail e, s)
  continue panic f s = (panic, s)
  continue exit f s = (exit, s)

  infixl 5 ◌>>=◌ ◌>>◌
  -- To open this is to open the basic actions too.
  unfoldable pub ◌>>=◌ : M O A → (A → M O B) → M O B
  unfolding pure raise crash quit deref gets get history modify send or_raise or_wrap
  ◌>>=◌ m f s = let (r, s') = m s in continue r f s'

  abbrev pub ◌>>◌ : M O A → M O B → M O B
  m >> k = m >>= λ _. k

module _ {O : Type 0} where
  -- `for _, x := range xs`, where the body may return early by an error or a panic.
  unfoldable pub for_each : {A : Type 0} → List A → (A → M O (Unit {0})) → M O (Unit {0})
  for_each [] body = pure tt
  for_each (x ∷ xs) body = body x >> for_each xs body

  -- The same with a variable that the body assigns.
  unfoldable pub fold_each : {A B : Type 0} → List A → (A → B → M O B) → B → M O B
  fold_each [] body acc = pure acc
  fold_each (x ∷ xs) body acc = body x acc >>= λ acc'. fold_each xs body acc'

-- The outcome of a handler that returned, after the deferred `helper.Patch`.
abbrev pub with_patch_error {ℓ} : {A : Type ℓ} → A → Option Error → Outcome A
with_patch_error a none = done a
with_patch_error a (some e) = fail e

module _ {O A : Type 0} (patch : State O → Option Error × State O) where
  -- What runs after the body: a deferred call runs after a return and while a panic unwinds, and
  -- not after `os.Exit`.
  abbrev pub finish : Outcome A → State O → Outcome A × State O
  finish exit s = (exit, s)
  finish panic s = (panic, (patch s).1)
  finish (fail e) s = (fail e, (patch s).1)
  finish (done a) s = let (e, s') = patch s in (with_patch_error a e, s')

  -- A handler with `defer helper.Patch(...)`.
  unfoldable pub deferred : M O A → M O A
  deferred body s = let (r, s') = body s in finish r s'

-- An action on an object that a handler has fetched.
abbrev pub focus : {O A : Type 0} → O → M O A → M (Unit {0}) A
focus o m s =
    let (r, s') = m (record { object = o; calls = s.calls }) in
    (r, record { object = tt; calls = s'.calls })

-- `ctrl.Result`; `RequeueAfter` in nanoseconds. `Requeue` is never set here.
pub record Result : Type 0 where
  pub requeue_after : ℕ

abbrev pub no_requeue : Result
no_requeue = record { requeue_after = 0 }

abbrev pub requeue : ℕ → Result
requeue n = record { requeue_after = n }

abbrev pub second : ℕ
second = 1_000_000_000

abbrev pub millisecond : ℕ
millisecond = 1_000_000

abbrev pub is_zero : Result → Bool
is_zero r = nat_eq r.requeue_after 0

-- `if res, err := m(); err != nil || !res.IsZero() { return res, err }`, then the rest.
infixl 5 ◌then_unless_requeue◌
abbrev pub ◌then_unless_requeue◌ : {O : Type 0} → M O Result → M O Result → M O Result
m then_unless_requeue rest = do res ← m; if is_zero res then rest else pure res
