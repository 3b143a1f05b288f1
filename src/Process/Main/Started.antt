-- ===== src/Process/Main/Started.antt =====
-- What has been done when the manager is started.
use mathlib.Core.Path.{subst}
use cluster_api_provider_vmw.Base.{
  ◌≡◌, refl, sym, ap, ◌⊎◌, Option-cases, ◌∙◌, Bool, true, false, not, ◌&&◌, ◌||◌, is_some, inl, inr,
  List, [], ◌∷◌, any, arith,
}
use cluster_api_provider_vmw.Program.{State, for_each, ◌>>=◌}
use cluster_api_provider_vmw.Process.{SetupCall, start, Host, step, ask, or_exit}
use cluster_api_provider_vmw.Process.Main.{Flags, main}
use cluster_api_provider_vmw.Process.Main.Plan.{plan, main-follows}

abbrev pub is_start : SetupCall → Bool
is_start start = true
is_start _ = false

-- The calls, made one after the other, returned no error, up to the start of the manager.
abbrev pub accepted : Host → List SetupCall → List SetupCall → Bool
accepted F [] calls = true
accepted F (c ∷ cs) calls =
    is_start c || (not (is_some (F.answer calls c)) && accepted F cs (c ∷ calls))

-- The calls before the earlier ones, the latest first.
abbrev pub made : List SetupCall → List SetupCall → List SetupCall
made [] calls = calls
made (c ∷ cs) calls = made cs (c ∷ calls)

-- The start stands at the end of the list and nowhere else.
abbrev pub starts_last : List SetupCall → Bool
starts_last [] = false
starts_last (c ∷ []) = is_start c
starts_last (c ∷ cs) = not (is_start c) && starts_last cs

plan-starts_last : (flags : Flags) → starts_last (plan flags) ≡ true
plan-starts_last flags = ground arith

module _ (F : Host) where
  -- The first call returns no error, or the rest is not reached.
  for_each-first :
      (c : SetupCall) (cs : List SetupCall) (s : State (List SetupCall))
      → ((is_some (F.answer s.object c) ≡ false)
          × ((for_each (c ∷ cs) (step F) s)
              ≡ for_each cs (step F) (record s { object = c ∷ s.object })))
        ⊎ ((for_each (c ∷ cs) (step F) s).1.object ≡ c ∷ s.object)
  unfolding for_each step ask or_exit ◌>>=◌
  for_each-first c cs s = elim (Option-cases (F.answer s.object c)) [
    | inl e ↦ inl (rw e refl, rw e refl)
    | inr (x, e) ↦ inr (rw e refl)
  ]

  for_each-last :
      (c : SetupCall) (s : State (List SetupCall))
      → (for_each (c ∷ []) (step F) s).1.object ≡ c ∷ s.object
  unfolding for_each step ask or_exit ◌>>=◌
  for_each-last c s = ground arith

  -- A call that is not the start, and the last one made, leaves the start not made.
  no_start :
      (c : SetupCall) (d : SetupCall) (cs calls all : List SetupCall)
      → starts_last (c ∷ d ∷ cs) ≡ true
      → any is_start calls ≡ false
      → all ≡ c ∷ calls
      → any is_start all ≡ true
      → ⊥
  no_start c d cs calls all l a e h = let k = ap (any is_start) e in ground arith

  later :
      (c d : SetupCall) (cs : List SetupCall)
      → starts_last (c ∷ d ∷ cs) ≡ true
      → starts_last (d ∷ cs) ≡ true
  later c d cs l = ground arith

  skip :
      (c d : SetupCall) (cs calls : List SetupCall)
      → starts_last (c ∷ d ∷ cs) ≡ true
      → any is_start calls ≡ false
      → any is_start (c ∷ calls) ≡ false
  skip c d cs calls l a = ground arith

  accept :
      (c : SetupCall) (cs calls : List SetupCall)
      → is_some (F.answer calls c) ≡ false
      → accepted F cs (c ∷ calls) ≡ true
      → accepted F (c ∷ cs) calls ≡ true
  accept c cs calls e k = ground arith

  for_each-started :
      (cs : List SetupCall) (s : State (List SetupCall))
      → starts_last cs ≡ true
      → any is_start s.object ≡ false
      → any is_start (for_each cs (step F) s).1.object ≡ true
      → ((for_each cs (step F) s).1.object ≡ made cs s.object) × (accepted F cs s.object ≡ true)
  for_each-started [] s l a h = ground arith
  for_each-started (c ∷ []) s l a h = (for_each-last c s, ground arith)
  for_each-started (c ∷ d ∷ cs) s l a h =
      let rest = for_each-started (d ∷ cs) (record s { object = c ∷ s.object }) in
      elim (for_each-first c (d ∷ cs) s) [
        | inl (e, k) ↦
            let started = subst (λ r. any is_start r.1.object ≡ true) k h in
            let r = rest (later c d cs l) (skip c d cs s.object l a) started in
            (ap (λ q. q.1.object) k ∙ r.0, accept c (d ∷ cs) s.object e r.1)
        | inr k ↦ absurd (no_start c d cs s.object _ l a k h)
      ]

  -- Whatever the other side answers, once `main` has called the start of the manager, all calls of its
  -- plan have been made, once and in order, and those before the start returned no error.
  pub main-starts :
      (flags : Flags) (s : State (List SetupCall))
      → any is_start s.object ≡ false
      → any is_start (main F flags s).1.object ≡ true
      → ((main F flags s).1.object ≡ made (plan flags) s.object)
        × (accepted F (plan flags) s.object ≡ true)
  main-starts flags s a h =
      subst
        (λ r.
          any is_start r.1.object ≡ true
          → (r.1.object ≡ made (plan flags) s.object) × (accepted F (plan flags) s.object ≡ true))
        (sym (main-follows F flags s)) (for_each-started (plan flags) s (plan-starts_last flags) a)
        h
