-- ===== src/Copy/Rules.antt =====
-- Commands that make deep copies, with a rule for each way to build one.
pub mod Pointers
use cluster_api_provider_vmw.Base.{
  ℕ, ◌≡◌, refl, ap, ◌∙◌, ◌+◌, Option, none, some, List, [], ◌∷◌, ◌≤◌, arith, nat_eq, if◌then◌else◌,
}
use mathlib.Core.Path.{subst}
use cluster_api_provider_vmw.Copy.Structs.{Ref, Pointer, Slice}
use cluster_api_provider_vmw.Copy.Slots.{Slot}
use cluster_api_provider_vmw.Copy.Heap.{
  Heap, Cmd, pure, load, found_at, and_then, each, copy_pointer,
}
use cluster_api_provider_vmw.Copy.Shows.{Holds, Extends, Relation, Same, Rows, Lies, Points, Spans}

pub Holds-trans : {n : ℕ} {h g k : Heap} → Holds n h g → Holds n g k → Holds n h k
Holds-trans a b = record {
  longer = let x = a.longer in let y = b.longer in omega arith;
  agree = λ i le lt. b.agree i le (let x = a.longer in omega arith) ∙ a.agree i le lt;
}

pub Holds-from : {n m : ℕ} {h g : Heap} → n ≤ m → Holds n h g → Holds m h g
Holds-from le a = record {
  longer = a.longer;
  agree = λ i l lt. a.agree i (omega (arith, le, l)) lt;
}

pub Extends-refl : {h : Heap} → Extends h h
Extends-refl = record { longer = omega arith; agree = λ i le lt. refl }

-- A command took the memory from `h` to `g` and came to `a`: it wrote over nothing, and `a` shows
-- `v` whatever becomes of the cells that there were before.
pub record Made {A V : Type 0} (R : Relation A V) (v : V) (h : Heap) (a : A) (g : Heap)
    : Type 0 where
  pub grows : Extends h g
  pub apart : (k : Heap) → Holds h.next g k → R k a v

-- The run did not fault and made a copy that shows `v`.
pub record Copied {A V : Type 0} (R : Relation A V) (v : V) (h : Heap) (r : Option (A × Heap))
    : Type 0 where
  pub value : A
  pub heap : Heap
  pub same : r ≡ some (value, heap)
  pub made : Made R v h value heap

-- The command makes a deep copy of each variable that shows a value.
pub record IsCopy {A V : Type 0} (R : Relation A V) (copy : A → Cmd A) : Type 0 where
  pub stable : (h g : Heap) (a : A) (v : V) → Extends h g → R h a v → R g a v
  pub copies : (h : Heap) (a : A) (v : V) → R h a v → Copied R v h (copy a h)

pub pure-IsCopy : {A : Type 0} → IsCopy {A = A} Same pure
pure-IsCopy = record {
  stable = λ h g a v e same. same;
  copies = λ h a v same. record {
    value = a;
    heap = h;
    same = refl;
    made = record { grows = Extends-refl; apart = λ g k. same };
  };
}

-- Two variables.
abbrev pub Both : {A B V W : Type 0} → Relation A V → Relation B W → Relation (A × B) (V × W)
Both R S h (a, b) (v, w) = R h a v × S h b w

-- One copy, and then another.
pub Made-pair :
    {A B V W : Type 0} (R : Relation A V) (S : Relation B W) (v : V) (w : W) {h g k : Heap} {a : A}
    {b : B}
    → Made R v h a g
    → Made S w g b k
    → Made (Both R S) (v, w) h (a, b) k
Made-pair R S v w x y = record {
  grows = Holds-trans x.grows y.grows;
  apart = λ l m. (
    x.apart l (Holds-trans (Holds-from (omega arith) y.grows) m),
    y.apart l (Holds-from x.grows.longer m),
  );
}

-- Before the first field is copied.
pub Made-start : (h : Heap) → Made (λ g (_ : Unit {0}) (_ : Unit {0}). Unit {0}) tt h tt h
Made-start h = record { grows = Extends-refl; apart = λ g m. tt }

-- The next field of a variable, behind those that have been copied.
pub Copied-step :
    {A B C V W U : Type 0} {R : Relation A V} {Q : Relation B W} {S : Relation C U} {u : U} {w : W}
    {h g : Heap} {b : B} {copy : A → Cmd A} {rest : A → Cmd C}
    → IsCopy R copy
    → Made Q w h b g
    → (a : A) (v : V) → R h a v
    → ((a' : A) (k : Heap) → Made (Both Q R) (w, v) h (b, a') k → Copied S u h (rest a' k))
    → Copied S u h (and_then (copy a g) rest)
Copied-step {R = R} {Q = Q} {rest = rest} c q a v shows more =
    let x = c.copies _ a v (c.stable _ _ a v q.grows shows) in
    let y = more x.value x.heap (Made-pair Q R _ v q x.made) in
    record {
      value = y.value;
      heap = y.heap;
      same = ap (λ r. and_then r rest) x.same ∙ y.same;
      made = y.made;
    }

-- All fields have been copied.
pub Copied-pure :
    {B C W U : Type 0} {Q : Relation B W} {S : Relation C U} {u : U} {w : W} {h g : Heap} {b : B}
    → Made Q w h b g
    → (c : C) → ((k : Heap) → Q k b w → S k c u)
    → Copied S u h (some (c, g))
Copied-pure q c shows = record {
  value = c;
  heap = _;
  same = refl;
  made = record { grows = q.grows; apart = λ k m. shows k (q.apart k m) };
}
