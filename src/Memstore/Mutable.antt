-- ===== src/Memstore/Mutable.antt =====
-- Stores without immutable entries: what `Set` puts under a key is what stands there. A store that
-- a database decodes is of this kind, since `encoding/gob` leaves the field `immutable` out.
use go_sessions.Base.{
  GoString, str_eq, str_eq_iff, ◌≡◌, refl, false, Option, none, some, List, [], ◌∷◌, ◌++◌, arith,
  if◌then◌else◌, Option-cases, inl, inr,
}
use go_sessions.Value.{Value, Heap}
use go_sessions.Memstore.{Entry, Store, overwrite, value, set_entry, save, find, visit}
use go_sessions.Memstore.Lookup.{IsUnique, saved, updated, find-save, save_lem}
use go_sessions.Memstore.Immutable.{save-IsUnique}

abbrev pub AllMutable : List Entry → Type 0
AllMutable [] = Unit {0}
AllMutable (kv ∷ kvs) = (kv.immutable ≡ false) × AllMutable kvs

-- The value under a key, as it was saved.
abbrev pub raw : Option Entry → Option Value
raw none = none
raw (some kv) = some kv.value_raw

find-mutable :
    (kvs : List Entry) (k : GoString) (kv : Entry)
    → AllMutable kvs
    → find kvs k ≡ some kv
    → kv.immutable ≡ false
unfolding find
find-mutable [] k kv m h = cc
find-mutable (e ∷ kvs) k kv m h = ground (arith, find-mutable kvs k kv m.1)

updated-AllMutable :
    (kvs : List Entry) (k : GoString) (v : Value)
    → AllMutable kvs
    → AllMutable (updated kvs k v false)
unfolding updated overwrite
updated-AllMutable [] k v m = tt
updated-AllMutable (e ∷ kvs) k v m = ground (arith, updated-AllMutable kvs k v m.1)

append-AllMutable :
    (kvs : List Entry) (e : Entry)
    → AllMutable kvs
    → e.immutable ≡ false
    → AllMutable (kvs ++ e ∷ [])
append-AllMutable [] e m h = (h, tt)
append-AllMutable (x ∷ kvs) e m h = (m.0, append-AllMutable kvs e m.1 h)

pub save-AllMutable :
    (r : Store) (k : GoString) (v : Value)
    → AllMutable r.entries
    → AllMutable (save r k v false).0.entries
save-AllMutable r k v m = elim (Option-cases (find r.entries k)) [
  | inl e ↦
      rw ((save_lem r k v false).2)
        (rw e (append-AllMutable r.entries (saved none k v false) m refl))
  | inr (kv, e) ↦ rw ((save_lem r k v false).2) (rw e (updated-AllMutable r.entries k v m))
]

-- `Set` on such a store is an assignment.
pub raw-save :
    (r : Store) (k : GoString) (v : Value) (j : GoString)
    → AllMutable r.entries
    → raw (find (save r k v false).0.entries j)
      ≡ (if str_eq k j then some v else raw (find r.entries j))
unfolding overwrite
raw-save r k v j m = elim (Option-cases (find r.entries k)) [
  | inl e ↦ rw ((find-save r k v false).2 j) (ground arith)
  | inr (kv, e) ↦ rw ((find-save r k v false).2 j) (ground (arith, find-mutable r.entries k kv m e))
]

-- `Set` for each entry in turn.
unfoldable pub set_each : List Entry → Store → Store
set_each [] r = r
set_each (kv ∷ kvs) r = set_each kvs (set_entry r kv.key kv.value_raw).0

-- `Visit` of such entries panics nowhere and copies nothing.
pub visit-set_each :
    (h : Heap) (kvs : List Entry) (r : Store)
    → AllMutable kvs
    → visit (λ key v s. (set_entry s key v).0) h kvs r ≡ some (set_each kvs r, h)
unfolding visit set_each value
visit-set_each h [] r m = refl
visit-set_each h (kv ∷ kvs) r m =
    rw m.0 (visit-set_each h kvs (set_entry r kv.key kv.value_raw).0 m.1)

-- The value that the entries give a key, or else the one that it had.
abbrev pub or_else : Option Entry → Option Value → Option Value
or_else none old = old
or_else (some kv) old = some kv.value_raw

pub raw-set_each :
    (kvs : List Entry) (r : Store) (j : GoString)
    → IsUnique kvs
    → AllMutable r.entries
    → raw (find (set_each kvs r).entries j) ≡ or_else (find kvs j) (raw (find r.entries j))
unfolding set_each find set_entry
raw-set_each [] r j u m = refl
raw-set_each (kv ∷ kvs) r j u m = ground (
  arith,
  raw-set_each kvs (set_entry r kv.key kv.value_raw).0 j u.1
      (save-AllMutable r kv.key kv.value_raw m),
  raw-save r kv.key kv.value_raw j m,
  str_eq_iff kv.key j,
)

pub set_each-AllMutable :
    (kvs : List Entry) (r : Store) → AllMutable r.entries → AllMutable (set_each kvs r).entries
unfolding set_each set_entry
set_each-AllMutable [] r m = m
set_each-AllMutable (kv ∷ kvs) r m =
    set_each-AllMutable kvs (save r kv.key kv.value_raw false).0
      (save-AllMutable r kv.key kv.value_raw m)

pub set_each-IsUnique :
    (kvs : List Entry) (r : Store) → IsUnique r.entries → IsUnique (set_each kvs r).entries
unfolding set_each set_entry
set_each-IsUnique [] r u = u
set_each-IsUnique (kv ∷ kvs) r u =
    set_each-IsUnique kvs (save r kv.key kv.value_raw false).0
      (save-IsUnique r kv.key kv.value_raw false u)
