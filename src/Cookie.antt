-- ===== src/Cookie.antt =====
-- cookie.go: cookies of net/http, and the domains that they may be set for.
pub mod Domain
use go_sessions.Base.{
  ℕ, ◌+◌, ◌-◌, ◌*◌, ◌/◌, GoString, codes, str_eq, ltb, leb, ◌==◌, Bool, true, false, ◌||◌, not,
  Option, none, some, List, [], ◌∷◌, ◌++◌, length, take, drop, if◌then◌else◌,
}
use go_sessions.Base.Int.{ℤ, pos, negsuc}
use go_sessions.Lifetime.{cookie_expire_delete}
use go_sessions.Strings.{index_byte, last_index_byte, count_byte, replace_once}
use go_sessions.Strconv.{WithError, atoi, parse_int}

-- `http.Cookie`. `expires` is 0 where it is the zero time.
pub record Cookie : Type 0 where
  pub name : GoString
  pub value : GoString
  pub path : GoString
  pub domain : GoString
  pub expires : ℕ
  pub max_age : ℤ
  pub secure : Bool
  pub http_only : Bool

-- `&http.Cookie{}`, and a cookie that a request holds.
abbrev pub sent_cookie : GoString → GoString → Cookie
sent_cookie name value = record {
  name = name;
  value = value;
  path = [];
  domain = [];
  expires = 0;
  max_age = pos 0;
  secure = false;
  http_only = false;
}

-- What the package reads of a `*http.Request`: its cookies, `r.URL.Host`, and whether `r.TLS` is
-- set.
pub record Request : Type 0 where
  pub cookies : List (GoString × GoString)
  pub host : GoString
  pub tls : Bool

-- `r.Cookie(name)`
unfoldable pub find_cookie : List (GoString × GoString) → GoString → Option GoString
find_cookie [] name = none
find_cookie ((n, v) ∷ cs) name = if str_eq n name then some v else find_cookie cs name

unfoldable pub get_cookie : Request → GoString → GoString
unfolding find_cookie
get_cookie r name = elim (find_cookie r.cookies name) [ none ↦ [] | some v ↦ v ]

-- The cookies that `RemoveCookie` adds to the response.
unfoldable pub remove_cookie : Request → GoString → List Cookie
unfolding find_cookie
remove_cookie r name = elim (find_cookie r.cookies name) [
  | none ↦ []
  | some v ↦
      record (sent_cookie name v) {
        expires = cookie_expire_delete;
        max_age = negsuc 0;
        value = [];
        path = codes "/";
      }
      ∷ []
]

-- Whether the part behind the last dot is a number; an empty part is not looked at.
unfoldable pub ends_in_number : GoString → Bool
unfolding last_index_byte parse_int
ends_in_number domain = elim (last_index_byte domain b'.') [
  | none ↦ false
  | some last ↦
      if ltb (last + 1) (length domain)
      then elim (atoi (drop (last + 1) domain)).1 [ none ↦ true | some e ↦ false ]
      else false
]

unfoldable pub is_valid_cookie_domain : GoString → Bool
unfolding ends_in_number count_byte str_eq
is_valid_cookie_domain domain =
    if str_eq domain (codes "0.0.0.0") || str_eq domain (codes "127.0.0.1")
    then false
    else if count_byte domain b'.' == 0
    then false
    else if leb 3 (count_byte domain b'.')
    then not (ends_in_number domain)
    else true

-- The three steps of `updateCookie` from the host to the domain of the cookie. First the port goes.
unfoldable pub strip_port : GoString → GoString
unfolding index_byte
strip_port host = elim (index_byte host b':') [
  | none ↦ host
  | some i ↦ if ltb 0 i then take i host else host
]

-- The last label of what stands before the last dot.
unfoldable pub last_label : GoString → GoString
unfolding last_index_byte
last_label s = elim (last_index_byte s b'.') [
  | none ↦ s
  | some i ↦ if ltb 0 i then drop (i + 1) s else s
]

unfoldable pub level_domain : GoString → GoString
unfolding last_index_byte last_label replace_once
level_domain domain = elim (last_index_byte domain b'.') [
  | none ↦ domain
  | some dot ↦
      if ltb 0 dot
      then (let s = last_label (take dot domain) in
          if ltb (length s) dot then replace_once domain (take dot domain) s else domain)
      else domain
]

-- The domain of the cookie; empty where none is set.
unfoldable pub cookie_domain : Bool → GoString → GoString
unfolding strip_port is_valid_cookie_domain level_domain
cookie_domain disabled host =
    if disabled
    then []
    else (let domain = strip_port host in
        if is_valid_cookie_domain domain then b'.' ∷ level_domain domain else [])

-- `int(t.Sub(now).Seconds())`, in whole seconds towards 0.
unfoldable pub seconds_until : ℕ → ℕ → ℤ
seconds_until now t =
    if leb now t
    then pos ((t - now) / 1000000000)
    else (let late : ℕ = (now - t) / 1000000000 in if late == 0 then pos 0 else negsuc (late - 1))
