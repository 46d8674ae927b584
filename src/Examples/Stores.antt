-- ===== src/Examples/Stores.antt =====
-- memstore.go at concrete inputs.
use go_sessions.Base.{codes, str_eq, ◌≡◌, refl, true, false, none, some, List, [], ◌∷◌, arith}
use go_sessions.Base.Int.{pos}
use go_sessions.Value.{nil, int, slice, items, Heap, write, indirect}
use go_sessions.Memstore.{Entry, Store, copied, value, overwrite, save, find, get, set_immutable}
use go_sessions.Memstore.Lookup.{IsUnique, find-save}
use go_sessions.Memstore.Immutable.{Op, sets, sets_immutable, removes, run, run_immutable}
use go_sessions.Memstore.Capacity.{applied_all, run-applied_all}
use go_sessions.Memstore.Panics.{immutable_panics}
use go_sessions.Strings.Trim.{trim_space}
use go_sessions.Memstore.Aliasing.{seen, seen_result, value_not_shared}

abbrev pub fixed : Entry
fixed = record { key = codes "a"; value_raw = int (pos 1); immutable = true }

abbrev pub loose : Entry
loose = record { key = codes "b"; value_raw = int (pos 2); immutable = false }

abbrev pub two : Store
two = record { entries = fixed ∷ loose ∷ []; spare = fixed ∷ [] }

pub two-IsUnique : IsUnique two.entries
unfolding find str_eq
two-IsUnique = (refl, (refl, tt))

find-save_example :
    find (save two (codes "a") (int (pos 9)) false).0.entries (codes "a") ≡ some fixed
unfolding find str_eq overwrite
find-save_example = (find-save two (codes "a") (int (pos 9)) false).2 (codes "a")

abbrev history : List Op
history =
    sets (codes "a") (int (pos 7))
    ∷ removes (codes "b")
    ∷ sets_immutable (codes "c") (int (pos 3))
    ∷ []

run_immutable_example : find (run two history).entries (codes "a") ≡ some fixed
unfolding find str_eq
run_immutable_example =
    run_immutable two history (codes "a") fixed two-IsUnique refl refl (tt, (refl, (refl, tt)))

run-applied_all_example : (run two history).entries ≡ applied_all two.entries history
run-applied_all_example = run-applied_all two history

abbrev shared : Heap
shared = items (int (pos 4) ∷ []) ∷ []

abbrev list_entry : Entry
list_entry = record { key = codes "l"; value_raw = slice 0; immutable = true }

value_not_shared_example :
    seen_result (value (write (copied shared (slice 0)).1 1 (items [])) list_entry)
    ≡ some (seen shared (slice 0))
unfolding copied indirect
value_not_shared_example =
    (value_not_shared shared list_entry (slice 0) 1 (items []) refl (omega arith) refl (omega arith)
      refl).2

immutable_panics_example : get [] (set_immutable two (codes "n") nil).0 (codes "n") ≡ none
unfolding find str_eq indirect
immutable_panics_example = (immutable_panics [] two (codes "n") nil refl tt).1 tt

trimmed : trim_space (codes "\t a b \n") ≡ codes "a b"
unfolding trim_space
trimmed = refl

-- An ideographic space, and a no-break space at the end.
trimmed_wide : trim_space (0xE3 ∷ 0x80 ∷ 0x80 ∷ 97 ∷ 0xC2 ∷ 0xA0 ∷ []) ≡ codes "a"
unfolding trim_space
trimmed_wide = refl
