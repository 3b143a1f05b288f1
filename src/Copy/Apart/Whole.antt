-- ===== src/Copy/Apart/Whole.antt =====
-- `DeepCopyObject` copies in full, and copy and original do not share memory.
use cluster_api_provider_vmw.Base.{
  ℕ, ◌≡◌, refl, sym, ap, ◌∙◌, false, Option, none, some, List, [], ◌∷◌, All, ◌<◌, ◌≤◌, arith,
  nat_eq, if◌then◌else◌,
}
use mathlib.Core.Path.{subst}
use cluster_api_provider_vmw.Copy.Structs.{Pointer}
use cluster_api_provider_vmw.Copy.Slots.{Cell}
use cluster_api_provider_vmw.Copy.Heap.{Heap, Cmd, and_then}
use cluster_api_provider_vmw.Copy.Shows.{Holds, Extends, Points}
use cluster_api_provider_vmw.Copy.Shows.Objects.{Value, Shown, slot_of, ShowsObject}
use cluster_api_provider_vmw.Copy.Rules.{Made, Copied}
use cluster_api_provider_vmw.Copy.Into.{
  Foreign, machine_deep_copy, template_deep_copy, cluster_deep_copy,
}
use cluster_api_provider_vmw.Copy.Objects.{
  Kind, vd_machine, vd_machine_list, vd_machine_template, vd_machine_template_list, vd_cluster,
  vd_cluster_list, Stored, Object, as_object, deep_copy_object, machine_deep_copy_object,
  machine_list_deep_copy_object, template_deep_copy_object, template_list_deep_copy_object,
  cluster_deep_copy_object, cluster_list_deep_copy_object, machine_list_deep_copy,
  template_list_deep_copy, cluster_list_deep_copy,
}
use cluster_api_provider_vmw.Copy.Apart.Network.{IsForeignCopy}
use cluster_api_provider_vmw.Copy.Apart.Objects.{
  machine_deep_copy-IsCopy, template_deep_copy-IsCopy, cluster_deep_copy-IsCopy,
}
use cluster_api_provider_vmw.Copy.Apart.Lists.{
  machine_list_deep_copy-IsCopy, template_list_deep_copy-IsCopy, cluster_list_deep_copy-IsCopy,
}

Holds-refl : {n : ℕ} {h : Heap} → Holds n h h
Holds-refl = record { longer = omega arith; agree = λ i le lt. refl }

as_object-copies :
    (k : Kind) (v : Option (Value k)) (h : Heap) (p : Pointer (Stored k)) (g : Heap)
    → Made (Points (Shown k) ⦃s = slot_of k⦄) v h p g
    → Copied (ShowsObject k) v h (as_object k p g)
unfolding Points ShowsObject
as_object-copies k none h none g m = record {
  value = none;
  heap = g;
  same = refl;
  made = record { grows = m.grows; apart = λ l q. tt };
}
as_object-copies k (some v) h none g m = elim (m.apart g Holds-refl) [ ]
as_object-copies k none h (some p) g m = elim (m.apart g Holds-refl) [ ]
as_object-copies k (some v) h (some p) g m = record {
  value = some (record { kind = k; pointer = p });
  heap = g;
  same = refl;
  made = record { grows = m.grows; apart = λ l q. (p, refl, m.apart l q) };
}

-- `DeepCopyObject` behind `DeepCopy`.
object-copies :
    (k : Kind) (v : Option (Value k)) (h : Heap) (p : Pointer (Stored k))
    (copy : Cmd (Pointer (Stored k)))
    → Copied (Points (Shown k) ⦃s = slot_of k⦄) v h (copy h)
    → Copied (ShowsObject k) v h (and_then (copy h) (as_object k))
object-copies k v h p copy x =
    let y = as_object-copies k v h x.value x.heap x.made in
    record {
      value = y.value;
      heap = y.heap;
      same = ap (λ r. and_then r (as_object k)) x.same ∙ y.same;
      made = y.made;
    }

-- If the deep copies of the Kubernetes types copy in full, then `DeepCopyObject` of a machine, a
-- template, a cluster or a list of one of them returns from each memory in which its pointer is
-- well formed. For nil it returns nil. Else it returns an object of the same type that shows the
-- same value as the original, it writes over nothing, and the value that the copy shows does not
-- depend on the memory that there was before: it shows it in each memory that agrees with the
-- result on the cells that are new.
pub deep_copy_object-copies :
    (F : Foreign) (k : Kind) (h : Heap) (p : Pointer (Stored k)) (v : Option (Value k))
    → IsForeignCopy F
    → Points (Shown k) ⦃s = slot_of k⦄ h p v
    → Copied (ShowsObject k) v h (deep_copy_object F k p h)
unfolding machine_deep_copy_object machine_list_deep_copy_object template_deep_copy_object
    template_list_deep_copy_object cluster_deep_copy_object cluster_list_deep_copy_object
deep_copy_object-copies F vd_machine h p v laws shown =
    object-copies vd_machine v h p (machine_deep_copy F p)
      ((machine_deep_copy-IsCopy F laws).copies h p v shown)
deep_copy_object-copies F vd_machine_list h p v laws shown =
    object-copies vd_machine_list v h p (machine_list_deep_copy F p)
      ((machine_list_deep_copy-IsCopy F laws).copies h p v shown)
deep_copy_object-copies F vd_machine_template h p v laws shown =
    object-copies vd_machine_template v h p (template_deep_copy F p)
      ((template_deep_copy-IsCopy F laws).copies h p v shown)
deep_copy_object-copies F vd_machine_template_list h p v laws shown =
    object-copies vd_machine_template_list v h p (template_list_deep_copy F p)
      ((template_list_deep_copy-IsCopy F laws).copies h p v shown)
deep_copy_object-copies F vd_cluster h p v laws shown =
    object-copies vd_cluster v h p (cluster_deep_copy F p)
      ((cluster_deep_copy-IsCopy F laws).copies h p v shown)
deep_copy_object-copies F vd_cluster_list h p v laws shown =
    object-copies vd_cluster_list v h p (cluster_list_deep_copy F p)
      ((cluster_list_deep_copy-IsCopy F laws).copies h p v shown)

-- `*p = x`, where `x` is packed.
unfoldable pub write : ℕ → Cell → Heap → Heap
write p c h = record h { cells = λ i. if nat_eq i p then some c else h.cells i }

unfoldable pub write_all : List (ℕ × Cell) → Heap → Heap
write_all [] h = h
write_all ((p, c) ∷ writes) h = write_all writes (write p c h)

next-write_all : (writes : List (ℕ × Cell)) (h : Heap) → (write_all writes h).next ≡ h.next
unfolding write_all write
next-write_all [] h = refl
next-write_all ((p, c) ∷ writes) h = next-write_all writes (write p c h)

-- Writes elsewhere do not change a cell.
write_all-elsewhere :
    (P : ℕ → Type 0) (i : ℕ) (writes : List (ℕ × Cell)) (h : Heap)
    → ((p : ℕ) → P p → nat_eq i p ≡ false)
    → All (λ w. P w.0) writes
    → (write_all writes h).cells i ≡ h.cells i
unfolding write_all write
write_all-elsewhere P i [] h other all = refl
write_all-elsewhere P i ((p, c) ∷ writes) h other all =
    let rest = write_all-elsewhere P i writes (write p c h) other all.1 in
    let e = other p all.0 in ground arith

module _ (n : ℕ) (writes : List (ℕ × Cell)) (h : Heap) where
  -- What is written below an address is not seen from there on.
  Holds-below : All (λ w. w.0 < n) writes → Holds n h (write_all writes h)
  Holds-below below = record {
    longer = let e = next-write_all writes h in ground arith;
    agree = λ i le lt. write_all-elsewhere (λ p. p < n) i writes h (λ p b. ground arith) below;
  }

  -- What is written from an address on is not seen below it.
  Extends-above :
      (b : Heap)
      → b.next ≡ n
      → Extends b h
      → All (λ w. n ≤ w.0) writes
      → Extends b (write_all writes h)
  Extends-above b e grows above = record {
    longer = let f = next-write_all writes h in let l = grows.longer in ground arith;
    agree = λ i le lt.
        write_all-elsewhere (λ p. n ≤ p) i writes h (λ p q. ground arith) above
        ∙ grows.agree i le lt;
  }

object-stable :
    (F : Foreign) (k : Kind) (h g : Heap) (p : Pointer (Stored k)) (v : Option (Value k))
    → IsForeignCopy F
    → Extends h g
    → Points (Shown k) ⦃s = slot_of k⦄ h p v
    → Points (Shown k) ⦃s = slot_of k⦄ g p v
object-stable F vd_machine h g p v laws e shown =
    (machine_deep_copy-IsCopy F laws).stable h g p v e shown
object-stable F vd_machine_list h g p v laws e shown =
    (machine_list_deep_copy-IsCopy F laws).stable h g p v e shown
object-stable F vd_machine_template h g p v laws e shown =
    (template_deep_copy-IsCopy F laws).stable h g p v e shown
object-stable F vd_machine_template_list h g p v laws e shown =
    (template_list_deep_copy-IsCopy F laws).stable h g p v e shown
object-stable F vd_cluster h g p v laws e shown =
    (cluster_deep_copy-IsCopy F laws).stable h g p v e shown
object-stable F vd_cluster_list h g p v laws e shown =
    (cluster_list_deep_copy-IsCopy F laws).stable h g p v e shown

-- Where `DeepCopyObject` took the memory from `h` to `g`, the copy and the original do not share
-- memory: if the pointer was well formed and the deep copies of the Kubernetes types copy in full,
-- then whatever is written afterwards to addresses that there were before, the copy still shows the
-- value, and whatever is written to new addresses, the original still shows it.
pub deep_copy_object-apart :
    (F : Foreign) (k : Kind) (h g : Heap) (p : Pointer (Stored k)) (v : Option (Value k))
    (o : Option Object) (old new : List (ℕ × Cell))
    → IsForeignCopy F
    → Points (Shown k) ⦃s = slot_of k⦄ h p v
    → deep_copy_object F k p h ≡ some (o, g)
    → All (λ w. w.0 < h.next) old
    → All (λ w. h.next ≤ w.0) new
    → ShowsObject k (write_all old g) o v × Points (Shown k) ⦃s = slot_of k⦄ (write_all new g) p v
deep_copy_object-apart F k h g p v o old new laws shown run below above =
    let x = deep_copy_object-copies F k h p v laws shown in
    subst
      (λ (q : Option Object × Heap).
        ShowsObject k (write_all old q.1) q.0 v
        × Points (Shown k) ⦃s = slot_of k⦄ (write_all new q.1) p v)
      (ap (λ r. elim r [ none ↦ (x.value, x.heap) | some q ↦ q ]) (sym x.same ∙ run))
      (
        x.made.apart (write_all old x.heap) (Holds-below h.next old x.heap below),
        object-stable F k h (write_all new x.heap) p v laws
            (Extends-above h.next new x.heap h refl x.made.grows above) shown,
      )
