-- ===== src/Applications/Securecookie.antt =====
-- _examples/securecookie/main.go: cookies that the securecookie library encodes. The handlers are
-- those of the first seven paths of _examples/standalone/main.go: they make the same calls with the
-- same arguments and write the same texts.
pub mod Forged
use go_sessions.Base.{
  ℕ, GoString, codes, str_eq, ◌≡◌, ◌≢◌, refl, Option, none, some, List, [], ◌∷◌, map, if◌then◌else◌,
  Bool-cases, inl, inr,
}
use go_sessions.Base.Outcome.{Exec}
use go_sessions.Database.{Database}
use go_sessions.World.{World}
use go_sessions.Cookie.{Request}
use go_sessions.Config.{Config, Decoded, failed, left_nil, decoded}
use go_sessions.Sessions.Default.{zero_config}
use go_sessions.Applications.{Response}
use go_sessions.Applications.Standalone
use go_sessions.Applications.Standalone.{
  root_page, set_page, get_page, delete_page, clear_page, update_page, destroy_page,
}

-- A `*securecookie.SecureCookie`, with `none` for an error of its `Encode`.
pub record SecureCookie : Type 0 where
  pub encode : GoString → GoString → Option GoString
  pub decode : GoString → GoString → Decoded

abbrev pub cookie_name : GoString
cookie_name = codes "mycustomsessionid"

abbrev pub hash_key : GoString
hash_key = codes "the-big-and-secret-fash-key-here"

abbrev pub block_key : GoString
block_key = codes "lot-secret-of-characters-big-too"

abbrev pub secure_config : SecureCookie → Config
secure_config secure_cookie = record zero_config {
  cookie = cookie_name;
  encode = some (λ name v. secure_cookie.encode name v);
  decode = some (λ name v. secure_cookie.decode name v);
}

-- The paths that `main` handles.
pub data Page : Type 0 where
  root set get delete clear update destroy : Page

abbrev pub handler_of : Page → Standalone.Page
handler_of root = root_page
handler_of set = set_page
handler_of get = get_page
handler_of delete = delete_page
handler_of clear = clear_page
handler_of update = update_page
handler_of destroy = destroy_page

module _ {D : Type 0} (ops : Database D) (c : Config) (unlimited : ℕ) where
  unfoldable pub serve_all : ℕ → List (Page × Request) → Exec (World D) (List Response)
  serve_all draw requests =
      Standalone.serve_all ops c unlimited draw (map (λ x. (handler_of x.0, x.1)) requests)
