-- ===== src/Copy/Rules/Pointers.antt =====
-- The copies of pointers and slices.
use cluster_api_provider_vmw.Base.{
  ℕ, ◌≡◌, refl, ap, ◌∙◌, ◌+◌, Option, none, some, List, [], ◌∷◌, arith, nat_eq, if◌then◌else◌,
}
use mathlib.Core.Path.{subst}
use cluster_api_provider_vmw.Copy.Structs.{Ref, Pointer, Slice}
use cluster_api_provider_vmw.Copy.Slots.{Slot}
use cluster_api_provider_vmw.Copy.Heap.{Heap, Cmd, pure, load, found_at, each, copy_pointer}
use cluster_api_provider_vmw.Copy.Shows.{Extends, Relation, Same, Rows, Lies, Points, Spans}
use cluster_api_provider_vmw.Copy.Rules.{Extends-refl, Made, Copied, IsCopy, pure-IsCopy, Made-pair}

module _ {A V : Type 0} (R : Relation A V) (into : A → Cmd A) where
  Rows-stable :
      IsCopy R into
      → (h g : Heap) (xs : List A) (vs : List V) → Extends h g
      → Rows R h xs vs
      → Rows R g xs vs
  unfolding Rows
  Rows-stable c h g [] [] e k = tt
  Rows-stable c h g [] (v ∷ vs) e k = k
  Rows-stable c h g (a ∷ xs) [] e k = k
  Rows-stable c h g (a ∷ xs) (v ∷ vs) e k = (c.stable h g a v e k.0, Rows-stable c h g xs vs e k.1)

  each-copies :
      IsCopy R into
      → (h : Heap) (xs : List A) (vs : List V) → Rows R h xs vs
      → Copied (Rows R) vs h (each into xs h)
  unfolding Rows each
  each-copies c h [] [] k = record {
    value = [];
    heap = h;
    same = refl;
    made = record { grows = Extends-refl; apart = λ g _. tt };
  }
  each-copies c h [] (v ∷ vs) k = elim k [ ]
  each-copies c h (a ∷ xs) [] k = elim k [ ]
  each-copies c h (a ∷ xs) (v ∷ vs) k =
      let x = c.copies h a v k.0 in
      let y = each-copies c x.heap xs vs (Rows-stable c h x.heap xs vs x.made.grows k.1) in
      let z = Made-pair R (Rows R) v vs x.made y.made in
      record {
        value = x.value ∷ y.value;
        heap = y.heap;
        same = rw (x.same, y.same) refl;
        made = record { grows = z.grows; apart = z.apart };
      }

  pub each-IsCopy : IsCopy R into → IsCopy (Rows R) (each into)
  each-IsCopy c = record { stable = Rows-stable c; copies = each-copies c }

  module _ ⦃s : Slot A⦄ where
    load_lem : (h : Heap) (p : Ref A) (v : V) (l : Lies R h p v) → load p h ≡ some (l.content, h)
    load_lem h p v l = rw l.here (ap (found_at h) (s.unpack-pack l.content))

    Lies-stable :
        IsCopy R into → (h g : Heap) (p : Ref A) (v : V) → Extends h g → Lies R h p v → Lies R g p v
    Lies-stable c h g p v e l = record {
      content = l.content;
      inside = let a = l.inside in let b = e.longer in omega arith;
      here = e.agree p.at (omega arith) l.inside ∙ l.here;
      shows = c.stable h g l.content v e l.shows;
    }

    -- The memory behind `new`.
    abbrev taken : Heap → Heap
    taken h = record h { next = h.next + 1 }

    -- The memory behind the write to the new address.
    abbrev stored : ℕ → A → Heap → Heap
    stored q a h = record h { cells = λ i. if nat_eq i q then some (s.pack a) else h.cells i }

    taken-Extends : (h : Heap) → Extends h (taken h)
    taken-Extends h = record { longer = omega arith; agree = λ i le lt. refl }

    -- A variable at the new address, after its content was copied.
    stored-Made :
        (v : V) (h g : Heap) (a : A)
        → Made R v (taken h) a g
        → Made (λ k q w. Lies R k q w) v h (record { at = h.next }) (stored h.next a g)
    stored-Made v h g a x =
        let longer = x.grows.longer in
        record {
          grows = record {
            longer = omega (arith, longer);
            agree = λ i le lt. let e = x.grows.agree i le (omega (arith, lt)) in ground arith;
          };
          apart = λ k m.
              let more = m.longer in
              record {
                content = a;
                inside = omega (arith, longer, more);
                here = let b = m.agree h.next (omega arith) (omega (arith, longer)) in ground arith;
                shows = x.apart k (record {
                  longer = more;
                  agree = λ i le lt. let b = m.agree i (omega (arith, le)) lt in ground arith;
                });
              };
        }

    -- A pointer that is not nil, for each relation that says the same of it.
    Lies-copies :
        {W : Type 0} (S : Relation (Pointer A) W) (v : V) (w : W)
        → ((k : Heap) (q : Ref A) → Lies R k q v → S k (some q) w)
        → IsCopy R into
        → (h : Heap) (p : Ref A) → Lies R h p v
        → Copied S w h (copy_pointer into (some p) h)
    unfolding copy_pointer
    Lies-copies S v w to c h p l =
        let n = Lies-stable c h (taken h) p v (taken-Extends h) l in
        let x = c.copies (taken h) n.content v n.shows in
        let z = stored-Made v h x.heap x.value x.made in
        record {
          value = some (record { at = h.next });
          heap = _;
          same = rw (load_lem (taken h) p v n, x.same) refl;
          made = record { grows = z.grows; apart = λ k m. to k _ (z.apart k m) };
        }

    nil-copies :
        {B W : Type 0} (S : Relation B W) (b : B) (w : W) (h : Heap)
        → ((k : Heap) → S k b w)
        → Copied S w h (some (b, h))
    nil-copies S b w h all = record {
      value = b;
      heap = h;
      same = refl;
      made = record { grows = Extends-refl; apart = λ k m. all k };
    }

    Points-stable :
        IsCopy R into
        → (h g : Heap) (p : Pointer A) (v : Option V) → Extends h g
        → Points R h p v
        → Points R g p v
    unfolding Points
    Points-stable c h g none none e k = k
    Points-stable c h g none (some v) e k = k
    Points-stable c h g (some p) none e k = k
    Points-stable c h g (some p) (some v) e k = Lies-stable c h g p v e k

    pointer-copies :
        IsCopy R into
        → (h : Heap) (p : Pointer A) (v : Option V) → Points R h p v
        → Copied (Points R) v h (copy_pointer into p h)
    unfolding Points copy_pointer
    pointer-copies c h none none k = nil-copies (Points R) none none h (λ g. tt)
    pointer-copies c h none (some v) k = elim k [ ]
    pointer-copies c h (some p) none k = elim k [ ]
    pointer-copies c h (some p) (some v) k = Lies-copies (Points R) v (some v) (λ g q l. l) c h p k

    pub pointer-IsCopy : IsCopy R into → IsCopy (Points R) (copy_pointer into)
    pointer-IsCopy c = record { stable = Points-stable c; copies = pointer-copies c }

module _ {A V : Type 0} (R : Relation A V) (into : A → Cmd A) ⦃s : Slot (List A)⦄ where
  Spans-stable :
      IsCopy R into
      → (h g : Heap) (p : Slice A) (v : List V) → Extends h g
      → Spans R h p v
      → Spans R g p v
  unfolding Spans
  Spans-stable c h g none [] e k = k
  Spans-stable c h g none (v ∷ vs) e k = k
  Spans-stable c h g (some p) vs e k =
      Lies-stable (Rows R) (each into) (each-IsCopy R into c) h g p vs e k

  slice-copies :
      IsCopy R into
      → (h : Heap) (p : Slice A) (v : List V) → Spans R h p v
      → Copied (Spans R) v h (copy_pointer (each into) p h)
  unfolding Spans Points copy_pointer
  slice-copies c h none [] k = nil-copies (Rows R) (each into) (Spans R) none [] h (λ g. tt)
  slice-copies c h none (v ∷ vs) k = elim k [ ]
  slice-copies c h (some p) vs k =
      Lies-copies (Rows R) (each into) (Spans R) vs vs (λ g q l. l) (each-IsCopy R into c) h p k

  pub slice-IsCopy : IsCopy R into → IsCopy (Spans R) (copy_pointer (each into))
  slice-IsCopy c = record { stable = Spans-stable c; copies = slice-copies c }

module _ {A : Type 0} ⦃s : Slot (List A)⦄ where
  Rows_refl : (h : Heap) (xs : List A) → Rows (Same {A = A}) h xs xs
  unfolding Rows
  Rows_refl h [] = tt
  Rows_refl h (x ∷ xs) = (refl, Rows_refl h xs)

  Rows-same : (h : Heap) (xs ys : List A) → Rows Same h xs ys → xs ≡ ys
  unfolding Rows
  Rows-same h [] [] k = refl
  Rows-same h [] (y ∷ ys) k = elim k [ ]
  Rows-same h (x ∷ xs) [] k = elim k [ ]
  Rows-same h (x ∷ xs) (y ∷ ys) k = let e = k.0 in let rest = Rows-same h xs ys k.1 in ground arith

  rows-IsCopy : IsCopy (Rows (Same {A = A})) pure
  rows-IsCopy = record {
    stable =
        λ h g xs ys e k. subst (λ zs. Rows Same g xs zs) (Rows-same h xs ys k) (Rows_refl g xs);
    copies = λ h xs ys k. record {
      value = xs;
      heap = h;
      same = refl;
      made = record {
        grows = Extends-refl;
        apart = λ g m. subst (λ zs. Rows Same g xs zs) (Rows-same h xs ys k) (Rows_refl g xs);
      };
    };
  }

  plain-stable :
      (h g : Heap) (p : Slice A) (vs : List A) → Extends h g → Spans Same h p vs → Spans Same g p vs
  plain-stable = Spans-stable Same pure pure-IsCopy

  plain-copies :
      (h : Heap) (p : Slice A) (v : List A)
      → Spans Same h p v
      → Copied (Spans Same) v h (copy_pointer {A = List A} pure p h)
  unfolding Spans copy_pointer
  plain-copies h none [] k = nil-copies (Rows (Same {A = A})) pure (Spans Same) none [] h (λ g. tt)
  plain-copies h none (v ∷ vs) k = elim k [ ]
  plain-copies h (some p) vs k =
      Lies-copies (Rows (Same {A = A})) pure (Spans Same) vs vs (λ g q l. l) rows-IsCopy h p k

  -- `*out = make([]A, len(*in)); copy(*out, *in)`
  pub list-IsCopy : IsCopy (Spans {A = A} Same) (copy_pointer {A = List A} pure)
  list-IsCopy = record { stable = plain-stable; copies = plain-copies }
