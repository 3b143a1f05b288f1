-- ===== src/Copy/Shows.antt =====
-- What the memory shows at a variable: the value that is left when the addresses are forgotten.
pub mod Structs
pub mod Objects
use cluster_api_provider_vmw.Base.{
  ℕ, String, Bool, ◌≡◌, refl, ◌*◌, Option, none, some, List, [], ◌∷◌, ◌<◌, ◌≤◌,
}
use cluster_api_provider_vmw.Copy.Structs.{Ref, Pointer, Slice}
use cluster_api_provider_vmw.Copy.Slots.{Cell, Slot}
use cluster_api_provider_vmw.Copy.Heap.{Heap}

-- What is in the cells of `h` from the address `n` on is in the same cells of `g`.
pub record Holds (n : ℕ) (h g : Heap) : Type 0 where
  pub longer : h.next ≤ g.next
  pub agree : (i : ℕ) → n ≤ i → i < h.next → g.cells i ≡ h.cells i

-- Nothing was written over.
abbrev pub Extends : Heap → Heap → Type 0
Extends h g = Holds 0 h g

abbrev pub Relation : Type 0 → Type 0 → Type 1
Relation A V = Heap → A → V → Type 0

-- A value without pointers.
abbrev pub Same : {A : Type 0} → Relation A A
Same h a b = a ≡ b

module _ {A V : Type 0} (R : Relation A V) where
  -- Element by element.
  unfoldable pub Rows : Relation (List A) (List V)
  Rows h [] [] = Unit {0}
  Rows h [] (v ∷ vs) = ⊥
  Rows h (a ∷ rest) [] = ⊥
  Rows h (a ∷ rest) (v ∷ vs) = R h a v × Rows h rest vs

  module _ ⦃s : Slot A⦄ where
    -- The address has a variable, which shows the value.
    pub record Lies (h : Heap) (p : Ref A) (v : V) : Type 0 where
      pub content : A
      pub inside : p.at < h.next
      pub here : h.cells p.at ≡ some (s.pack content)
      pub shows : R h content v

    -- A pointer shows a value if it is not nil.
    unfoldable pub Points : Relation (Pointer A) (Option V)
    Points h none none = Unit {0}
    Points h none (some v) = ⊥
    Points h (some p) none = ⊥
    Points h (some p) (some v) = Lies h p v

module _ {A V : Type 0} (R : Relation A V) ⦃s : Slot (List A)⦄ where
  -- A slice that is nil shows no elements.
  unfoldable pub Spans : Relation (Slice A) (List V)
  unfolding Rows
  Spans h none [] = Unit {0}
  Spans h none (v ∷ vs) = ⊥
  Spans h (some p) vs = Lies (Rows R) h p vs
