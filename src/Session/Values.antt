-- ===== src/Session/Values.antt =====
-- The typed getters of session.go: `Get`, and a conversion after the type switch of the source.
use go_sessions.Base.{ℕ, GoString, codes, Bool, false, none, some}
use go_sessions.Base.Int.{ℤ, negsuc}
use go_sessions.Base.Outcome.{Exec, ◌>>=◌, pure}
use go_sessions.Value.{Value, bool, int, int64, float32, float64, string}
use go_sessions.Strconv.{WithError, Floats, not_found, atoi, parse_int}
use go_sessions.World.{World}
use go_sessions.Session.{get, get_flash}

unfoldable pub string_of : Value → GoString
string_of (string s) = s
string_of v = codes ""

unfoldable pub int_of : GoString → Value → WithError ℤ
int_of key (int n) = (n, none)
int_of key (string s) = atoi s
int_of key v = (negsuc 0, some (not_found (codes "int") key v))

unfoldable pub int64_of : GoString → Value → WithError ℤ
int64_of key (int64 n) = (n, none)
int64_of key (int n) = (n, none)
int64_of key (string s) = parse_int s
int64_of key v = (negsuc 0, some (not_found (codes "int64") key v))

-- On an error of `ParseFloat` the result is -1.
abbrev or_minus_one : Floats → WithError ℕ → WithError ℕ
or_minus_one fs (x, none) = (fs.narrow x, none)
or_minus_one fs (x, some e) = (fs.minus_one32, some e)

unfoldable pub float32_of : Floats → GoString → Value → WithError ℕ
float32_of fs key (float32 x) = (x, none)
float32_of fs key (float64 x) = (fs.narrow x, none)
float32_of fs key (int n) = (fs.int_to_32 n, none)
float32_of fs key (string s) = or_minus_one fs (fs.parse_float s 32)
float32_of fs key v = (fs.minus_one32, some (not_found (codes "float32") key v))

unfoldable pub float64_of : Floats → GoString → Value → WithError ℕ
float64_of fs key (float32 x) = (fs.widen x, none)
float64_of fs key (float64 x) = (x, none)
float64_of fs key (int n) = (fs.int_to_64 n, none)
float64_of fs key (string s) = fs.parse_float s 32
float64_of fs key v = (fs.minus_one64, some (not_found (codes "float64") key v))

unfoldable pub boolean_of : GoString → Value → WithError Bool
boolean_of key (bool b) = (b, none)
boolean_of key v = (false, some (not_found (codes "bool") key v))

module _ {D : Type 0} where
  -- A getter of `p`'s value under `key`.
  abbrev getting : {A : Type 0} → (GoString → Value → A) → ℕ → GoString → Exec (World D) A
  getting f p key = do v ← get p key; pure (f key v)

  unfoldable pub get_string : ℕ → GoString → Exec (World D) GoString
  unfolding string_of
  get_string = getting (λ key. string_of)

  unfoldable pub get_flash_string : ℕ → GoString → Exec (World D) GoString
  unfolding string_of
  get_flash_string p key = do v ← get_flash p key; pure (string_of v)

  unfoldable pub get_int : ℕ → GoString → Exec (World D) (WithError ℤ)
  unfolding int_of
  get_int = getting int_of

  unfoldable pub get_int64 : ℕ → GoString → Exec (World D) (WithError ℤ)
  unfolding int64_of
  get_int64 = getting int64_of

  unfoldable pub get_float32 : Floats → ℕ → GoString → Exec (World D) (WithError ℕ)
  unfolding float32_of
  get_float32 fs = getting (float32_of fs)

  unfoldable pub get_float64 : Floats → ℕ → GoString → Exec (World D) (WithError ℕ)
  unfolding float64_of
  get_float64 fs = getting (float64_of fs)

  unfoldable pub get_boolean : ℕ → GoString → Exec (World D) (WithError Bool)
  unfolding boolean_of
  get_boolean = getting boolean_of
