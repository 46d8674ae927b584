-- ===== src/Value.antt =====
-- What an `interface{}` of a session holds, and the heap that slices, maps and pointers refer to.
-- A float is the number of its bit pattern. `other` stands for a value of any type that the
-- package never looks into.
use go_sessions.Base.{ℕ, GoString, Bool, Option, none, some, List, [], ◌∷◌, ◌++◌, get_elem?, set}
use go_sessions.Base.Int.{ℤ}

pub data Value : Type 0 where
  nil : Value
  bool : Bool → Value
  int : ℤ → Value
  int64 : ℤ → Value
  float32 : ℕ → Value
  float64 : ℕ → Value
  string : GoString → Value
  slice : ℕ → Value
  mapping : ℕ → Value
  pointer : ℕ → Value
  nil_slice nil_mapping nil_pointer : Value
  other : ℕ → Value

pub data Cell : Type 0 where
  items : List Value → Cell
  pairs : List (Value × Value) → Cell
  target : Value → Cell

abbrev pub Heap : Type 0
Heap = List Cell

abbrev pub cell_items : Option Cell → List Value
cell_items (some (items vs)) = vs
cell_items c = []

abbrev pub cell_pairs : Option Cell → List (Value × Value)
cell_pairs (some (pairs vs)) = vs
cell_pairs c = []

abbrev pub cell_target : Option Cell → Option Value
cell_target (some (target v)) = some v
cell_target c = none

abbrev pub items_at : Heap → ℕ → List Value
items_at h r = cell_items (get_elem? h r)

abbrev pub pairs_at : Heap → ℕ → List (Value × Value)
pairs_at h r = cell_pairs (get_elem? h r)

abbrev pub target_at : Heap → ℕ → Option Value
target_at h r = cell_target (get_elem? h r)

abbrev pub alloc : Heap → Cell → Heap
alloc h c = h ++ c ∷ []

-- What a caller does with a slice, a map or a pointer that it holds.
abbrev pub write : Heap → ℕ → Cell → Heap
write h r c = set h r c

-- `reflect.Indirect(reflect.ValueOf(v))`; `none` is the zero `reflect.Value`, whose `Type` panics.
unfoldable pub indirect : Heap → Value → Option Value
indirect h nil = none
indirect h nil_pointer = none
indirect h (pointer r) = target_at h r
indirect h v = some v
