-- ===== src/Strings.antt =====
-- What the package uses of Go's `strings`. A result of -1 is `none`.
pub mod Laws
pub mod Trim
use go_sessions.Base.{
  ℕ, suc, ◌+◌, GoString, ◌==◌, Bool, true, false, ◌&&◌, Option, none, some, List, [], ◌∷◌, ◌++◌,
  length, take, drop, if◌then◌else◌,
}

-- `strings.IndexByte`
unfoldable pub index_byte : GoString → ℕ → Option ℕ
index_byte [] c = none
index_byte (b ∷ s) c =
    let rest = index_byte s c in
    if b == c then some 0 else elim rest [ none ↦ none | some i ↦ some (suc i) ]

-- `strings.LastIndexByte`
unfoldable pub last_index_byte : GoString → ℕ → Option ℕ
last_index_byte [] c = none
last_index_byte (b ∷ s) c = elim (last_index_byte s c) [
  | some i ↦ some (suc i)
  | none ↦ if b == c then some 0 else none
]

-- `strings.Count` of a text of one byte.
unfoldable pub count_byte : GoString → ℕ → ℕ
count_byte [] c = 0
count_byte (b ∷ s) c = if b == c then suc (count_byte s c) else count_byte s c

unfoldable pub has_prefix : GoString → GoString → Bool
has_prefix s [] = true
has_prefix [] (b ∷ old) = false
has_prefix (a ∷ s) (b ∷ old) = a == b && has_prefix s old

-- `strings.Index`
unfoldable pub index : GoString → GoString → Option ℕ
unfolding has_prefix
index [] old = if has_prefix [] old then some 0 else none
index (b ∷ s) old =
    let rest = index s old in
    if has_prefix (b ∷ s) old then some 0 else elim rest [ none ↦ none | some i ↦ some (suc i) ]

-- `strings.Replace(s, old, new, 1)`
unfoldable pub replace_once : GoString → GoString → GoString → GoString
unfolding index
replace_once s old new = elim (index s old) [
  | none ↦ s
  | some i ↦ take i s ++ (new ++ drop (i + length old) s)
]
