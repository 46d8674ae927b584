-- ===== src/Memstore/Aliasing.antt =====
-- What `Entry.Value` shares with its caller.
use go_sessions.Base.{
  ℕ, ◌<◌, ◌≡◌, refl, sym, ap, ◌∙◌, true, Option, none, some, List, [], ◌∷◌, length, get_elem?,
  arith, get_elem?-append, get_elem?-append_last, get_elem?-set_ne,
}
use go_sessions.Value.{
  Value, nil, slice, mapping, pointer, nil_pointer, nil_slice, nil_mapping, Cell, items, pairs,
  Heap, items_at, pairs_at, alloc, write, indirect,
}
use go_sessions.Memstore.{Entry, copied, value}

-- What a caller reads of a value: the elements of a slice, the pairs of a map, anything else as
-- it is.
pub data Seen : Type 0 where
  elements : List Value → Seen
  bindings : List (Value × Value) → Seen
  plain : Value → Seen

unfoldable pub seen : Heap → Value → Seen
seen h (slice r) = elements (items_at h r)
seen h (mapping r) = bindings (pairs_at h r)
seen h nil_slice = elements []
seen h nil_mapping = bindings []
seen h v = plain v

unfoldable pub seen_result : Option (Value × Heap) → Option Seen
unfolding seen
seen_result none = none
seen_result (some (v, h)) = some (seen h v)

-- The reference through which a slice or a map can be written.
abbrev pub IsAt : Value → ℕ → Type 0
IsAt (slice r) p = r ≡ p
IsAt (mapping r) p = r ≡ p
IsAt v p = ⊥

-- The heap holds what the value refers to.
abbrev pub IsHeld : Heap → Value → Type 0
IsHeld h (slice r) = r < length h
IsHeld h (mapping r) = r < length h
IsHeld h (pointer r) = r < length h
IsHeld h v = Unit {0}

-- A write to the newest cell leaves the older ones.
old_cell :
    (h : Heap) (x c : Cell) (r : ℕ)
    → r < length h
    → get_elem? (write (alloc h x) (length h) c) r ≡ get_elem? h r
old_cell h x c r lt =
    get_elem?-set_ne (alloc h x) (length h) r c (λ e. omega arith)
    ∙ get_elem?-append h (x ∷ []) r lt

indirect-write :
    (h : Heap) (x c : Cell) (v : Value)
    → IsHeld h v
    → indirect (write (alloc h x) (length h) c) v ≡ indirect h v
unfolding indirect
indirect-write h x c (pointer r) held = rw (old_cell h x c r held)
indirect-write h x c nil held = refl
indirect-write h x c nil_pointer held = refl
indirect-write h x c v held = refl

-- A copy shows what the original shows.
seen-copied : (h : Heap) (v : Value) → seen (copied h v).1 (copied h v).0 ≡ seen h v
unfolding seen copied
seen-copied h (slice r) = rw (get_elem?-append_last h (items (items_at h r)))
seen-copied h (mapping r) = rw (get_elem?-append_last h (pairs (pairs_at h r)))
seen-copied h nil_slice = rw (get_elem?-append_last h (items []))
seen-copied h nil_mapping = rw (get_elem?-append_last h (pairs []))
seen-copied h v = refl

seen-write :
    (h : Heap) (x c : Cell) (v : Value)
    → IsHeld h v
    → seen (write (alloc h x) (length h) c) v ≡ seen h v
unfolding seen
seen-write h x c (slice r) held = rw (old_cell h x c r held)
seen-write h x c (mapping r) held = rw (old_cell h x c r held)
seen-write h x c v held = refl

-- What can be written through a copy is one new cell.
copied-fresh :
    (h : Heap) (v : Value) (p : ℕ)
    → IsAt (copied h v).0 p
    → (x : Cell) × (p ≡ length h) × ((copied h v).1 ≡ alloc h x)
unfolding copied
copied-fresh h (slice r) p e = (items (items_at h r), sym e, refl)
copied-fresh h (mapping r) p e = (pairs (pairs_at h r), sym e, refl)
copied-fresh h nil_slice p e = (items [], sym e, refl)
copied-fresh h nil_mapping p e = (pairs [], sym e, refl)
copied-fresh h v p e = absurd e

value_immutable :
    (h : Heap) (e : Entry) (vv : Value)
    → e.immutable ≡ true
    → indirect h e.value_raw ≡ some vv
    → value h e ≡ some (copied h vv)
unfolding value
value_immutable h e vv fixed i = rw (fixed, i)

-- A caller that has a slice or a map from an immutable entry sees the elements that the entry
-- refers to, directly or through a pointer, in a copy; and whatever it puts into the slice or the
-- map that it got, the next caller sees the old elements again. Elements that are references
-- themselves are not copied: what they refer to is shared. Here `vv` is what the entry's value
-- refers to, and `p` the cell of the copy, which the caller writes.
pub value_not_shared :
    (h : Heap) (e : Entry) (vv : Value) (p : ℕ) (c : Cell)
    → e.immutable ≡ true
    → IsHeld h e.value_raw
    → indirect h e.value_raw ≡ some vv
    → IsHeld h vv
    → IsAt (copied h vv).0 p
    → (value h e ≡ some (copied h vv))
      × (seen (copied h vv).1 (copied h vv).0 ≡ seen h vv)
      × (seen_result (value (write (copied h vv).1 p c) e) ≡ some (seen h vv))
unfolding seen_result
value_not_shared h e vv p c fixed raw_held i held at =
    (value_immutable h e vv fixed i, seen-copied h vv, third)
  where
    fresh : (x : Cell) × (p ≡ length h) × ((copied h vv).1 ≡ alloc h x)
    fresh = copied-fresh h vv p at

    h2 : Heap
    h2 = write (alloc h fresh.0) (length h) c

    still : indirect h2 e.value_raw ≡ some vv
    still = indirect-write h fresh.0 c e.value_raw raw_held ∙ i

    third : seen_result (value (write (copied h vv).1 p c) e) ≡ some (seen h vv)
    third =
        rw (fresh.1, fresh.2, value_immutable h2 e vv fixed still)
          (ap some (seen-copied h2 vv ∙ seen-write h fresh.0 c vv held))
