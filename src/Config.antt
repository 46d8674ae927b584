-- ===== src/Config.antt =====
-- config.go. A third-party function of the configuration is a function of the model; `none` is nil.
use go_sessions.Base.{ℕ, GoString, codes, str_eq, Bool, Option, none, some, if◌then◌else◌}
use go_sessions.Base.Int.{ℤ}

-- What `Decode` leaves behind its pointer: an error, a pointer that is still nil, or a text.
pub data Decoded : Type 0 where
  failed left_nil : Decoded
  decoded : GoString → Decoded

-- A source of ids: the result of its n-th call.
abbrev pub Generator : Type 0
Generator = ℕ → GoString

-- `encode` returns `none` on an error.
pub record Config : Type 0 where
  pub cookie : GoString
  pub cookie_secure_tls : Bool
  pub encode : Option (GoString → GoString → Option GoString)
  pub decode : Option (GoString → GoString → Decoded)
  pub expires : ℤ
  pub session_id_generator : Option Generator
  pub disable_subdomain_persistence : Bool

abbrev pub default_cookie_name : GoString
default_cookie_name = codes "gosessionid"

-- `uuid_v4` is the third-party generator of `uuid.NewV4().String()`.
unfoldable pub validate : Generator → Config → Config
validate uuid_v4 c = record c {
  cookie = if str_eq c.cookie (codes "") then default_cookie_name else c.cookie;
  session_id_generator = elim c.session_id_generator [ none ↦ some uuid_v4 | some g ↦ some g ];
}
