-- ===== src/Memstore/Immutable.antt =====
-- Histories of calls of memstore.go: distinct keys, and entries that are immutable.
use go_sessions.Base.{
  GoString, str_eq, str_eq_iff, ◌≡◌, refl, Bool, true, false, none, some, List, [], ◌∷◌, ◌++◌,
  arith, Option-cases, inl, inr,
}
use go_sessions.Value.{Value}
use go_sessions.Memstore.{
  Entry, Store, overwrite, save, set_entry, set_immutable, find, remove, reset,
}
use go_sessions.Memstore.Lookup.{
  IsUnique, saved, updated, removed, key-overwrite, save_lem, remove_lem, find-save, find-remove,
}

-- A call that changes the store.
pub data Op : Type 0 where
  sets sets_immutable : GoString → Value → Op
  removes : GoString → Op
  resets : Op

unfoldable pub apply : Store → Op → Store
unfolding set_entry set_immutable
apply r (sets k v) = (set_entry r k v).0
apply r (sets_immutable k v) = (set_immutable r k v).0
apply r (removes k) = (remove r k).0
apply r resets = reset r

unfoldable pub run : Store → List Op → Store
run r [] = r
run r (op ∷ ops) = run (apply r op) ops

find-updated-none :
    (kvs : List Entry) (k : GoString) (v : Value) (i : Bool) (j : GoString)
    → find kvs j ≡ none
    → find (updated kvs k v i) j ≡ none
unfolding find updated
find-updated-none [] k v i j h = refl
find-updated-none (e ∷ kvs) k v i j h =
    ground (arith, find-updated-none kvs k v i j, key-overwrite e v i)

updated-IsUnique :
    (kvs : List Entry) (k : GoString) (v : Value) (i : Bool)
    → IsUnique kvs
    → IsUnique (updated kvs k v i)
unfolding updated
updated-IsUnique [] k v i u = tt
updated-IsUnique (e ∷ kvs) k v i u =
    ground (
      arith,
      updated-IsUnique kvs k v i u.1,
      find-updated-none kvs k v i e.key,
      key-overwrite e v i,
    )

find-removed-none :
    (kvs : List Entry) (k j : GoString) → find kvs j ≡ none → find (removed kvs k) j ≡ none
unfolding find removed
find-removed-none [] k j h = refl
find-removed-none (e ∷ kvs) k j h = ground (arith, find-removed-none kvs k j)

pub removed-IsUnique : (kvs : List Entry) (k : GoString) → IsUnique kvs → IsUnique (removed kvs k)
unfolding removed
removed-IsUnique [] k u = tt
removed-IsUnique (e ∷ kvs) k u =
    ground (arith, removed-IsUnique kvs k u.1, find-removed-none kvs k e.key)

find-append-none :
    (kvs : List Entry) (e : Entry) (j : GoString)
    → find kvs j ≡ none
    → str_eq e.key j ≡ false
    → find (kvs ++ e ∷ []) j ≡ none
unfolding find
find-append-none [] e j h d = ground arith
find-append-none (x ∷ kvs) e j h d = ground (arith, find-append-none kvs e j)

append-IsUnique :
    (kvs : List Entry) (e : Entry) → IsUnique kvs → find kvs e.key ≡ none → IsUnique (kvs ++ e ∷ [])
unfolding find
append-IsUnique [] e u h = (refl, tt)
append-IsUnique (x ∷ kvs) e u h = ground (
  arith,
  append-IsUnique kvs e u.1,
  find-append-none kvs e x.key,
  str_eq_iff x.key e.key,
  str_eq_iff e.key x.key,
)

pub save-IsUnique :
    (r : Store) (k : GoString) (v : Value) (i : Bool)
    → IsUnique r.entries
    → IsUnique (save r k v i).0.entries
save-IsUnique r k v i u = elim (Option-cases (find r.entries k)) [
  | inl e ↦ rw ((save_lem r k v i).2) (rw e (append-IsUnique r.entries (saved none k v i) u e))
  | inr (kv, e) ↦ rw ((save_lem r k v i).2) (rw e (updated-IsUnique r.entries k v i u))
]

apply-IsUnique : (r : Store) (op : Op) → IsUnique r.entries → IsUnique (apply r op).entries
unfolding apply reset
apply-IsUnique r (sets k v) u = save-IsUnique r k v false u
apply-IsUnique r (sets_immutable k v) u = save-IsUnique r k v true u
apply-IsUnique r (removes k) u = rw ((remove_lem r k).0) (removed-IsUnique r.entries k u)
apply-IsUnique r resets u = tt

-- No history of calls gives one key two entries.
run-IsUnique : (r : Store) (ops : List Op) → IsUnique r.entries → IsUnique (run r ops).entries
unfolding run
run-IsUnique r [] u = u
run-IsUnique r (op ∷ ops) u = run-IsUnique (apply r op) ops (apply-IsUnique r op u)

-- The calls that may not change an immutable entry of `k`: every `Set`, and the others at keys
-- other than `k`.
abbrev pub Spares : GoString → Op → Type 0
Spares k (sets j v) = Unit {0}
Spares k (sets_immutable j v) = str_eq j k ≡ false
Spares k (removes j) = str_eq j k ≡ false
Spares k resets = ⊥

abbrev pub AllSpare : GoString → List Op → Type 0
AllSpare k [] = Unit {0}
AllSpare k (op ∷ ops) = Spares k op × AllSpare k ops

overwrite_immutable : (kv : Entry) (v : Value) → kv.immutable ≡ true → overwrite kv v false ≡ kv
unfolding overwrite
overwrite_immutable kv v h = ground arith

save_immutable :
    (r : Store) (j k : GoString) (v : Value) (kv : Entry)
    → find r.entries k ≡ some kv
    → kv.immutable ≡ true
    → find (save r j v false).0.entries k ≡ some kv
save_immutable r j k v kv h fixed =
    ground (arith, (find-save r j v false).2 k, str_eq_iff j k, overwrite_immutable kv v fixed)

apply_immutable :
    (r : Store) (op : Op) (k : GoString) (kv : Entry)
    → IsUnique r.entries
    → find r.entries k ≡ some kv
    → kv.immutable ≡ true
    → Spares k op
    → find (apply r op).entries k ≡ some kv
unfolding apply
apply_immutable r (sets j v) k kv u h fixed s = save_immutable r j k v kv h fixed
apply_immutable r (sets_immutable j v) k kv u h fixed s = rw ((find-save r j v true).2 k, s) h
apply_immutable r (removes j) k kv u h fixed s = rw ((find-remove r j u).1 k, s) h
apply_immutable r resets k kv u h fixed s = absurd s

-- An entry of a store without a key twice that was saved as immutable stays as it is, value and
-- all, through any history of `Set` calls on any keys, its own included, and of `SetImmutable` and
-- `Remove` calls on other keys.
pub run_immutable :
    (r : Store) (ops : List Op) (k : GoString) (kv : Entry)
    → IsUnique r.entries
    → find r.entries k ≡ some kv
    → kv.immutable ≡ true
    → AllSpare k ops
    → find (run r ops).entries k ≡ some kv
unfolding run
run_immutable r [] k kv u h fixed s = h
run_immutable r (op ∷ ops) k kv u h fixed s =
    run_immutable (apply r op) ops k kv (apply-IsUnique r op u)
      (apply_immutable r op k kv u h fixed s.0) fixed s.1
