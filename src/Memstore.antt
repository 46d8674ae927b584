-- ===== src/Memstore.antt =====
-- memstore.go: an entry, and the store of a session as a slice of entries.
pub mod Lookup
pub mod Immutable
pub mod Capacity
pub mod Aliasing
pub mod Access
pub mod Mutable
pub mod Panics
use go_sessions.Base.{
  ℕ, GoString, str_eq, Bool, true, false, ◌&&◌, not, Option, none, some, List, [], ◌∷◌, ◌++◌,
  length, replicate, if◌then◌else◌,
}
use go_sessions.Value.{
  Value, nil, slice, mapping, nil_slice, nil_mapping, items, pairs, Heap, items_at, pairs_at, alloc,
  indirect,
}

pub record Entry : Type 0 where
  pub key : GoString
  pub value_raw : Value
  pub immutable : Bool

abbrev pub zero_entry : Entry
zero_entry = record { key = []; value_raw = nil; immutable = false }

-- A slice: the entries up to its length, and the slots of its array from there to its capacity.
pub record Store : Type 0 where
  pub entries : List Entry
  pub spare : List Entry

abbrev pub nil_store : Store
nil_store = record { entries = []; spare = [] }

-- The copy that an immutable entry hands out of a slice or a map.
unfoldable pub copied : Heap → Value → Value × Heap
copied h (slice r) = (slice (length h), alloc h (items (items_at h r)))
copied h (mapping r) = (mapping (length h), alloc h (pairs (pairs_at h r)))
copied h nil_slice = (slice (length h), alloc h (items []))
copied h nil_mapping = (mapping (length h), alloc h (pairs []))
copied h v = (v, h)

-- `none` is a panic.
unfoldable pub value : Heap → Entry → Option (Value × Heap)
unfolding copied indirect
value h e =
    if e.immutable
    then elim (indirect h e.value_raw) [ none ↦ none | some vv ↦ some (copied h vv) ]
    else some (e.value_raw, h)

-- What `Save` makes of an entry that has the key.
unfoldable pub overwrite : Entry → Value → Bool → Entry
overwrite kv v immutable =
    if immutable && kv.immutable
    then record kv { value_raw = v; immutable = immutable }
    else if not kv.immutable
    then record kv { value_raw = v; immutable = immutable }
    else kv

-- The loop of `Save`: the entries after the update of the first that has the key, and that entry.
unfoldable pub replace : List Entry → GoString → Value → Bool → Option (List Entry × Entry)
unfolding overwrite
replace [] key v immutable = none
replace (kv ∷ kvs) key v immutable =
    let rest = replace kvs key v immutable in
    if str_eq kv.key key
    then some (overwrite kv v immutable ∷ kvs, overwrite kv v immutable)
    else elim rest [ none ↦ none | some (kvs', found) ↦ some (kv ∷ kvs', found) ]

-- The expansion: into the array where its capacity allows, by `append` otherwise. `append` makes
-- room for as many entries again.
unfoldable pub extend : List Entry → List Entry → GoString → Value → Bool → Store × Entry
extend entries [] key v immutable =
    let kv : Entry = record { key = key; value_raw = v; immutable = immutable } in
    (record { entries = entries ++ kv ∷ []; spare = replicate (length entries) zero_entry }, kv)
extend entries (slot ∷ spare) key v immutable =
    let kv : Entry = record slot { key = key; value_raw = v; immutable = immutable } in
    (record { entries = entries ++ kv ∷ []; spare = spare }, kv)

unfoldable pub save : Store → GoString → Value → Bool → Store × Entry × Bool
unfolding replace extend
save r key v immutable = elim (replace r.entries key v immutable) [
  | some (kvs, kv) ↦ (record r { entries = kvs }, kv, false)
  | none ↦ let (r', kv) = extend r.entries r.spare key v immutable in (r', kv, true)
]

-- `Set`; the method of that name, since `set` is a write into a list.
unfoldable pub set_entry : Store → GoString → Value → Store × Entry × Bool
unfolding save
set_entry r key v = save r key v false

unfoldable pub set_immutable : Store → GoString → Value → Store × Entry × Bool
unfolding save
set_immutable r key v = save r key v true

-- The loop of `GetDefault`.
unfoldable pub find : List Entry → GoString → Option Entry
find [] key = none
find (kv ∷ kvs) key = if str_eq kv.key key then some kv else find kvs key

unfoldable pub get_default : Heap → Store → GoString → Value → Option (Value × Heap)
unfolding find value
get_default h r key def = elim (find r.entries key) [ some kv ↦ value h kv | none ↦ some (def, h) ]

unfoldable pub get : Heap → Store → GoString → Option (Value × Heap)
unfolding get_default
get h r key = get_default h r key nil

-- The loop of `Visit`, over a visitor with a state of its own.
unfoldable pub visit {ℓ} :
    {S : Type ℓ} → (GoString → Value → S → S) → Heap → List Entry → S → Option (S × Heap)
unfolding value
visit visitor h [] s = some (s, h)
visit visitor h (kv ∷ kvs) s = elim (value h kv) [
  | none ↦ none
  | some (v, h') ↦ visit visitor h' kvs (visitor kv.key v s)
]

-- The loop of `Remove`: what `append(args[:i], args[i+1:]...)` leaves.
unfoldable pub without : List Entry → GoString → Option (List Entry)
without [] key = none
without (kv ∷ kvs) key =
    let rest = without kvs key in
    if str_eq kv.key key then some kvs else elim rest [ none ↦ none | some kvs' ↦ some (kv ∷ kvs') ]

-- The slot that the shorter slice no longer covers keeps its last entry.
abbrev last_slot : List Entry → List Entry
last_slot [] = []
last_slot (kv ∷ []) = kv ∷ []
last_slot (kv ∷ kvs) = last_slot kvs

unfoldable pub remove : Store → GoString → Store × Bool
unfolding without
remove r key = elim (without r.entries key) [
  | some kvs ↦ (record { entries = kvs; spare = last_slot r.entries ++ r.spare }, true)
  | none ↦ (r, false)
]

unfoldable pub reset : Store → Store
reset r = record { entries = []; spare = r.entries ++ r.spare }

unfoldable pub len : Store → ℕ
len r = length r.entries
