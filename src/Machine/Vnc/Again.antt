-- ===== src/Machine/Vnc/Again.antt =====
-- Running the VNC step again.
use mathlib.Core.Path.{subst}
use cluster_api_provider_vmw.Base.{
  String, ◌≡◌, refl, sym, ap, ◌∙◌, Bool, true, false, inl, inr, Option, Option-cases, ◌⊎◌,
  if◌then◌else◌, none, some, arith,
}
use cluster_api_provider_vmw.Api.Machine.{VdMachine, Vnc}
use cluster_api_provider_vmw.Remote.{Env, IsLawful}
use cluster_api_provider_vmw.Program.{
  State, M, Result, Outcome, continue, pure, done, fail, panic, exit, ◌>>=◌, no_requeue,
}
use cluster_api_provider_vmw.Machine.Vnc.{configure_vnc, compare_vnc, needs_vnc, reconcile_vnc}
use cluster_api_provider_vmw.Machine.Vnc.Remembered.{Remembers}
use cluster_api_provider_vmw.Machine.Vnc.Settles.{
  is_blank, Settled, Settled-quiet, configure_vnc-Ends,
}

-- The action ends, and from where it ends it does nothing.
abbrev pub IsQuiet : M VdMachine Result → State VdMachine → Type 0
IsQuiet m s = m s ≡ (done no_requeue, s)

-- The texts of the spec are not empty.
abbrev pub IsProper : Option Vnc → Type 0
IsProper none = Unit
IsProper (some spec) = (is_blank spec.port ≡ false) × (is_blank spec.password ≡ false)

module _ (E : Env) (vm_id : String) where
  needs_vnc_same : (spec status : Vnc) (s : State VdMachine) → (needs_vnc spec status s).1 ≡ s
  unfolding needs_vnc ◌>>=◌
  needs_vnc_same spec status s = ground arith

  after_same :
      (s : State VdMachine)
      → IsQuiet (reconcile_vnc E vm_id) s
      → IsQuiet (reconcile_vnc E vm_id) (reconcile_vnc E vm_id s).1
  after_same s e = subst (IsQuiet (reconcile_vnc E vm_id)) (sym (ap (λ r. r.1) e)) e

  unknown_requeues :
      (s : State VdMachine)
      → s.object.status.vnc ≡ none
      → (reconcile_vnc E vm_id s).0 ≡ done no_requeue
      → ⊥
  unfolding reconcile_vnc ◌>>=◌
  unknown_requeues s e h = ground arith

  known_lem :
      (status spec : Vnc) (s : State VdMachine)
      → s.object.status.vnc ≡ some status
      → s.object.spec.vnc ≡ some spec
      → reconcile_vnc E vm_id s ≡ compare_vnc E vm_id status (some spec) s
  unfolding reconcile_vnc ◌>>=◌
  known_lem status spec s e k = rw (e, k) refl

  unwanted_lem :
      (status : Vnc) (s : State VdMachine)
      → s.object.status.vnc ≡ some status
      → s.object.spec.vnc ≡ none
      → IsQuiet (reconcile_vnc E vm_id) s
  unfolding reconcile_vnc compare_vnc ◌>>=◌
  unwanted_lem status s e k = ground arith

  continue_lem :
      (spec : Vnc) (r : Outcome Bool) (s : State VdMachine)
      → (continue r (λ needed. if needed then configure_vnc E vm_id spec else pure no_requeue) s).0
        ≡ done no_requeue
      → (continue r (λ needed. if needed then configure_vnc E vm_id spec else pure no_requeue) s
          ≡ (done no_requeue, s))
        ⊎ (continue r (λ needed. if needed then configure_vnc E vm_id spec else pure no_requeue) s
            ≡ configure_vnc E vm_id spec s)
  unfolding ◌>>=◌
  continue_lem spec (done true) s h = inr refl
  continue_lem spec (done false) s h = inl refl
  continue_lem spec (fail e) s h = ground arith
  continue_lem spec panic s h = ground arith
  continue_lem spec exit s h = ground arith

  compared_lem :
      (status spec : Vnc) (s : State VdMachine)
      → (compare_vnc E vm_id status (some spec) s).0 ≡ done no_requeue
      → (compare_vnc E vm_id status (some spec) s ≡ (done no_requeue, s))
        ⊎ (compare_vnc E vm_id status (some spec) s ≡ configure_vnc E vm_id spec s)
  unfolding compare_vnc ◌>>=◌
  compared_lem status spec s h =
      subst
        (λ (u : State VdMachine).
          (continue (needs_vnc spec status s).0
              (λ needed. if needed then configure_vnc E vm_id spec else pure no_requeue) u).0
            ≡ done no_requeue
          → (continue (needs_vnc spec status s).0
                (λ needed. if needed then configure_vnc E vm_id spec else pure no_requeue) u
              ≡ (done no_requeue, s))
            ⊎ (continue (needs_vnc spec status s).0
                  (λ needed. if needed then configure_vnc E vm_id spec else pure no_requeue) u
                ≡ configure_vnc E vm_id spec s))
        (sym (needs_vnc_same spec status s)) (continue_lem spec (needs_vnc spec status s).0 s) h

  wanted_lem :
      (status spec : Vnc) (s : State VdMachine)
      → IsLawful E
      → Remembers E vm_id
      → s.object.status.vnc ≡ some status
      → s.object.spec.vnc ≡ some spec
      → IsProper (some spec)
      → (reconcile_vnc E vm_id s).0 ≡ done no_requeue
      → IsQuiet (reconcile_vnc E vm_id) (reconcile_vnc E vm_id s).1
  wanted_lem status spec s lawful remembers e k proper h =
      let same = known_lem status spec s e k in
      elim (compared_lem status spec s (sym (ap (λ r. r.0) same) ∙ h)) [
        | inl quiet ↦ after_same s (same ∙ quiet)
        | inr configured ↦
            let whole = same ∙ configured in
            let settled =
              (configure_vnc-Ends E vm_id spec s lawful remembers k proper.0 proper.1).at no_requeue
                (sym (ap (λ r. r.0) whole) ∙ h) in
            Settled-quiet E vm_id (reconcile_vnc E vm_id s).1 (
              subst (λ (u : Outcome Result × State VdMachine). Settled u.1.object) (sym whole)
                settled)
      ]

  -- A run of the VNC step that ends without an error and without asking for another run leaves it
  -- nothing to do: run again, the step changes nothing and makes no call. The service is taken to
  -- remember the parameters that it was given, the port and the password of the spec are not empty where
  -- they are given, a random number lies below its bound, and a walk over a map meets each entry once.
  -- This includes a run that generated a port or a password, which therefore stay.
  pub reconcile_vnc-settles :
      (s : State VdMachine)
      → IsLawful E
      → Remembers E vm_id
      → IsProper s.object.spec.vnc
      → (reconcile_vnc E vm_id s).0 ≡ done no_requeue
      → (let s' : State VdMachine = (reconcile_vnc E vm_id s).1 in
          reconcile_vnc E vm_id s' ≡ (done no_requeue, s'))
  reconcile_vnc-settles s lawful remembers proper h = elim (Option-cases s.object.status.vnc) [
    | inl e ↦ absurd (unknown_requeues s e h)
    | inr (status, e) ↦ elim (Option-cases s.object.spec.vnc) [
      | inl k ↦ after_same s (unwanted_lem status s e k)
      | inr (spec, k) ↦ wanted_lem status spec s lawful remembers e k (subst IsProper k proper) h
    ]
  ]
