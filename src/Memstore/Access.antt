-- ===== src/Memstore/Access.antt =====
-- The typed getters of memstore.go. Each looks its key up and converts what it finds; the
-- conversions are functions of their own, after the type switches of the source.

use go_sessions.Base.{ℕ, GoString, codes, str_eq, Bool, false, Option, none, some, if◌then◌else◌}
use go_sessions.Base.Int.{ℤ, pos, eqb_ℤ}
use go_sessions.Value.{Value, bool, int, int64, float64, string, Heap}
use go_sessions.Strconv.{WithError, Floats, atoi, parse_int, parse_bool}
use go_sessions.Strings.Trim.{trim_space}
use go_sessions.Memstore.{Store, get}

unfoldable pub to_string : Value → GoString → GoString
to_string (string s) def = s
to_string v def = def

unfoldable pub to_int : Value → ℤ → WithError ℤ
to_int (int n) def = (n, none)
to_int (string s) def = if str_eq s (codes "") then (def, none) else atoi s
to_int v def = (def, none)

unfoldable pub to_int64 : Value → ℤ → WithError ℤ
to_int64 (int64 n) def = (n, none)
to_int64 (string s) def = if str_eq s (codes "") then (def, none) else parse_int s
to_int64 v def = (def, none)

-- A float is its bit pattern.
unfoldable pub to_float64 : Floats → Value → ℕ → WithError ℕ
to_float64 fs (float64 x) def = (x, none)
to_float64 fs (string s) def = if str_eq s (codes "") then (def, none) else fs.parse_float s 64
to_float64 fs v def = (def, none)

unfoldable pub to_bool : Value → Bool → WithError Bool
to_bool (bool b) def = (b, none)
to_bool (string s) def = parse_bool s
to_bool (int n) def = (eqb_ℤ n (pos 1), none)
to_bool v def = (def, none)

-- A getter: `none` is the panic of `Get`.
abbrev converted : {A : Type 0} → (Value → A) → Option (Value × Heap) → Option (A × Heap)
converted f none = none
converted f (some (v, h)) = some (f v, h)

module _ (h : Heap) (r : Store) (key : GoString) where
  unfoldable pub get_string_default : GoString → Option (GoString × Heap)
  unfolding to_string
  get_string_default def = converted (λ v. to_string v def) (get h r key)

  unfoldable pub get_string : Option (GoString × Heap)
  unfolding get_string_default
  get_string = get_string_default (codes "")

  unfoldable pub get_string_trim : Option (GoString × Heap)
  unfolding get_string
  get_string_trim = elim get_string [ none ↦ none | some (s, h) ↦ some (trim_space s, h) ]

  unfoldable pub get_int_default : ℤ → Option (WithError ℤ × Heap)
  unfolding to_int
  get_int_default def = converted (λ v. to_int v def) (get h r key)

  unfoldable pub get_int : Option (WithError ℤ × Heap)
  unfolding get_int_default
  get_int = get_int_default (pos 0)

  unfoldable pub get_int64_default : ℤ → Option (WithError ℤ × Heap)
  unfolding to_int64
  get_int64_default def = converted (λ v. to_int64 v def) (get h r key)

  unfoldable pub get_int64 : Option (WithError ℤ × Heap)
  unfolding get_int64_default
  get_int64 = get_int64_default (pos 0)

  unfoldable pub get_float64_default : Floats → ℕ → Option (WithError ℕ × Heap)
  unfolding to_float64
  get_float64_default fs def = converted (λ v. to_float64 fs v def) (get h r key)

  unfoldable pub get_float64 : Floats → Option (WithError ℕ × Heap)
  unfolding get_float64_default
  get_float64 fs = get_float64_default fs 0

  unfoldable pub get_bool_default : Bool → Option (WithError Bool × Heap)
  unfolding to_bool
  get_bool_default def = converted (λ v. to_bool v def) (get h r key)

  unfoldable pub get_bool : Option (WithError Bool × Heap)
  unfolding get_bool_default
  get_bool = get_bool_default false
