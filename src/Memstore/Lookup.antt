-- ===== src/Memstore/Lookup.antt =====
-- What the operations of memstore.go do to the entry under each key.
use go_sessions.Base.{
  GoString, str_eq, str_eq_iff, ◌≡◌, refl, inl, inr, Bool, true, false, Option, none, some, List,
  [], ◌∷◌, ◌++◌, arith, if◌then◌else◌, Option-cases, not,
}
use go_sessions.Value.{Value}
use go_sessions.Memstore.{Entry, Store, overwrite, replace, extend, save, find, without, remove}

-- The entry that a save leaves under its key, given the one that was there.
abbrev pub saved : Option Entry → GoString → Value → Bool → Entry
saved none key v immutable = record { key = key; value_raw = v; immutable = immutable }
saved (some kv) key v immutable = overwrite kv v immutable

abbrev pub is_none : Option Entry → Bool
is_none none = true
is_none (some kv) = false

-- No two entries have one key.
abbrev pub IsUnique : List Entry → Type 0
IsUnique [] = Unit {0}
IsUnique (kv ∷ kvs) = (find kvs kv.key ≡ none) × IsUnique kvs

pub key-overwrite : (kv : Entry) (v : Value) (i : Bool) → (overwrite kv v i).key ≡ kv.key
unfolding overwrite
key-overwrite kv v i = ground arith

pub key-find : (kvs : List Entry) (k : GoString) (kv : Entry) → find kvs k ≡ some kv → kv.key ≡ k
unfolding find
key-find [] k kv h = cc
key-find (e ∷ kvs) k kv h = ground (arith, str_eq_iff e.key k, key-find kvs k kv)

find-append :
    (kvs : List Entry) (kv : Entry) (j : GoString)
    → find (kvs ++ kv ∷ []) j
      ≡ elim (find kvs j) [ some e ↦ some e | none ↦ if str_eq kv.key j then some kv else none ]
unfolding find
find-append [] kv j = ground arith
find-append (e ∷ kvs) kv j = ground (arith, find-append kvs kv j)

-- The entries after an update of the first that has the key.
unfoldable pub updated : List Entry → GoString → Value → Bool → List Entry
updated [] k v i = []
updated (kv ∷ kvs) k v i =
    if str_eq kv.key k then overwrite kv v i ∷ kvs else kv ∷ updated kvs k v i

-- The loop of `Save` stops where the loop of `GetDefault` does.
pub replace_lem :
    (kvs : List Entry) (k : GoString) (v : Value) (i : Bool)
    → replace kvs k v i
      ≡ elim (find kvs k) [ none ↦ none | some kv ↦ some (updated kvs k v i, overwrite kv v i) ]
unfolding find replace updated
replace_lem [] k v i = refl
replace_lem (e ∷ kvs) k v i = ground (arith, replace_lem kvs k v i)

find-updated :
    (kvs : List Entry) (k : GoString) (v : Value) (i : Bool) (kv : Entry) (j : GoString)
    → find kvs k ≡ some kv
    → find (updated kvs k v i) j ≡ (if str_eq k j then some (overwrite kv v i) else find kvs j)
unfolding find updated
find-updated [] k v i kv j h = cc
find-updated (e ∷ kvs) k v i kv j h = ground (
  arith,
  find-updated kvs k v i kv j,
  key-overwrite e v i,
  str_eq_iff e.key k,
  str_eq_iff e.key j,
  str_eq_iff k j,
)

extend_lem :
    (kvs spare : List Entry) (k : GoString) (v : Value) (i : Bool)
    → ((extend kvs spare k v i).0.entries ≡ kvs ++ saved none k v i ∷ [])
      × ((extend kvs spare k v i).1 ≡ saved none k v i)
unfolding extend
extend_lem kvs [] k v i = (refl, refl)
extend_lem kvs (s ∷ spare) k v i = (refl, refl)

-- The three results of a save, in terms of the entry that had the key.
pub save_lem :
    (r : Store) (k : GoString) (v : Value) (i : Bool)
    → ((save r k v i).1 ≡ saved (find r.entries k) k v i)
      × ((save r k v i).2 ≡ is_none (find r.entries k))
      × ((save r k v i).0.entries ≡ elim (find r.entries k) [
        | none ↦ r.entries ++ saved none k v i ∷ []
        | some kv ↦ updated r.entries k v i
      ])
unfolding save
save_lem r k v i = ground (arith, replace_lem r.entries k v i, extend_lem r.entries r.spare k v i)

-- `Save` puts one entry under its key: a new one with its arguments where there was none, and what
-- the rules on immutability make of the old one where there was. It returns that entry, says
-- whether it is new, and leaves what every other key finds alone.
pub find-save :
    (r : Store) (k : GoString) (v : Value) (i : Bool)
    → ((save r k v i).1 ≡ saved (find r.entries k) k v i)
      × ((save r k v i).2 ≡ is_none (find r.entries k))
      × ((j : GoString)
          → find (save r k v i).0.entries j
            ≡ (if str_eq k j then some (saved (find r.entries k) k v i) else find r.entries j))
find-save r k v i = (
  (save_lem r k v i).0,
  (save_lem r k v i).1,
  λ j. elim (Option-cases (find r.entries k)) [
    | inl e ↦
        rw ((save_lem r k v i).2)
          (ground (arith, find-append r.entries (saved none k v i) j, str_eq_iff k j))
    | inr (kv, e) ↦ rw ((save_lem r k v i).2) (ground (arith, find-updated r.entries k v i kv j))
  ],
)

module _ (k : GoString) where
  without-find : (kvs : List Entry) → find kvs k ≡ none → without kvs k ≡ none
  unfolding find without
  without-find [] h = refl
  without-find (e ∷ kvs) h = ground (arith, without-find kvs)

-- The entries without the first that has the key.
unfoldable pub removed : List Entry → GoString → List Entry
removed [] k = []
removed (kv ∷ kvs) k = if str_eq kv.key k then kvs else kv ∷ removed kvs k

without_lem :
    (kvs : List Entry) (k : GoString)
    → without kvs k ≡ elim (find kvs k) [ none ↦ none | some kv ↦ some (removed kvs k) ]
unfolding find without removed
without_lem [] k = refl
without_lem (e ∷ kvs) k = ground (arith, without_lem kvs k)

find-removed :
    (kvs : List Entry) (k j : GoString)
    → IsUnique kvs
    → find (removed kvs k) j ≡ (if str_eq k j then none else find kvs j)
unfolding find removed
find-removed [] k j u = ground arith
find-removed (e ∷ kvs) k j u =
    ground (arith, find-removed kvs k j u.1, str_eq_iff e.key k, str_eq_iff e.key j, str_eq_iff k j)

removed-none : (kvs : List Entry) (k : GoString) → find kvs k ≡ none → removed kvs k ≡ kvs
unfolding find removed
removed-none [] k h = refl
removed-none (e ∷ kvs) k h = ground (arith, removed-none kvs k)

pub remove_lem :
    (r : Store) (k : GoString)
    → ((remove r k).0.entries ≡ removed r.entries k)
      × ((remove r k).1 ≡ not (is_none (find r.entries k)))
unfolding remove
remove_lem r k = ground (arith, without_lem r.entries k, removed-none r.entries k)

-- `Remove` takes the entry of its key out, reports whether there was one, and leaves every other
-- key alone, provided that no two entries have one key.
pub find-remove :
    (r : Store) (k : GoString)
    → IsUnique r.entries
    → ((remove r k).1 ≡ not (is_none (find r.entries k)))
      × ((j : GoString)
          → find (remove r k).0.entries j ≡ (if str_eq k j then none else find r.entries j))
find-remove r k u =
    ((remove_lem r k).1, λ j. rw ((remove_lem r k).0) (find-removed r.entries k j u))
