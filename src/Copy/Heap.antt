-- ===== src/Copy/Heap.antt =====
-- The memory. A cell is only found below `next`, and `new` takes the address `next`.
use cluster_api_provider_vmw.Base.{ℕ, Option, none, some, List, [], ◌∷◌, ◌+◌, nat_eq, if◌then◌else◌}
use cluster_api_provider_vmw.Copy.Structs.{Ref, Pointer}
use cluster_api_provider_vmw.Copy.Slots.{Cell, Slot}

pub record Heap : Type 0 where
  pub next : ℕ
  pub cells : ℕ → Option Cell

-- A command faults where an address has no variable of the type.
abbrev pub Cmd : Type 0 → Type 0
Cmd A = Heap → Option (A × Heap)

abbrev pub pure : {A : Type 0} → A → Cmd A
pure a h = some (a, h)

abbrev pub and_then : {A B : Type 0} → Option (A × Heap) → (A → Cmd B) → Option (B × Heap)
and_then none k = none
and_then (some (a, h)) k = k a h

infixl 5 ◌>>=◌
abbrev pub ◌>>=◌ : {A B : Type 0} → Cmd A → (A → Cmd B) → Cmd B
(m >>= k) h = and_then (m h) k

module _ {A : Type 0} ⦃s : Slot A⦄ where
  -- What is in a cell, where it is an `A`.
  abbrev pub unpack_cell : Option Cell → Option A
  unpack_cell none = none
  unpack_cell (some c) = s.unpack c

  abbrev pub found_at : Heap → Option A → Option (A × Heap)
  found_at h none = none
  found_at h (some a) = some (a, h)

  -- `*p`
  abbrev pub load : Ref A → Cmd A
  load p h = found_at h (unpack_cell (h.cells p.at))

  -- `new(A)` or `make([]A, n)`: an address. The zero value is written over before it is read.
  abbrev pub new : Cmd (Ref A)
  new h = some (record { at = h.next }, record h { next = h.next + 1 })

  -- `*q = a`
  abbrev pub store : Ref A → A → Cmd (Unit {0})
  store q a h =
      some (tt, record h { cells = λ i. if nat_eq i q.at then some (s.pack a) else h.cells i })

-- `for i := range *in { (*in)[i].DeepCopyInto(&(*out)[i]) }`
unfoldable pub each : {A : Type 0} → (A → Cmd A) → List A → Cmd (List A)
each copy [] = pure []
each copy (a ∷ rest) = do a' ← copy a; rest' ← each copy rest; pure (a' ∷ rest')

-- The block for a pointer: `if in.F != nil { in, out := &in.F, &out.F; *out = new(A); ... }`. Where
-- the pointer is nil, `*out = *in` has copied it.
unfoldable pub copy_pointer : {A : Type 0} ⦃s : Slot A⦄ → (A → Cmd A) → Pointer A → Cmd (Pointer A)
copy_pointer into none = pure none
copy_pointer into (some p) = do q ← new; a ← load p; a' ← into a; _ ← store q a'; pure (some q)
