-- ===== src/Applications/Overview.antt =====
-- _examples/overview/main.go: a page that is for authenticated clients.
pub mod Grants
pub mod Access
use go_sessions.Base.{ℕ, suc, GoString, codes, Bool, true, false, not, List, [], ◌∷◌, if◌then◌else◌}
use go_sessions.Base.Int.{pos}
use go_sessions.Base.Outcome.{Exec, ◌>>=◌, ◌>>◌, pure}
use go_sessions.Value.{Value, bool}
use go_sessions.Database.{Database}
use go_sessions.World.{World}
use go_sessions.Cookie.{Cookie, Request}
use go_sessions.Config.{Config}
use go_sessions.Session.{set}
use go_sessions.Session.Values.{get_boolean}
use go_sessions.Sessions.{start}
use go_sessions.Sessions.Default.{zero_config}
use go_sessions.Applications.{Response, written}

abbrev pub cookie_name_for_session_id : GoString
cookie_name_for_session_id = codes "mycookiesessionnameid"

-- What `sessions.New` is given.
abbrev pub overview_config : Config
overview_config = record zero_config { cookie = cookie_name_for_session_id }

abbrev pub authenticated : GoString
authenticated = codes "authenticated"

abbrev pub cake : GoString
cake = codes "The cake is a lie!"

-- `http.StatusForbidden`, with no body.
abbrev pub forbidden : List Cookie → Response
forbidden cookies = record { status = 403; body = []; cookies = cookies }

-- The three paths that `main` handles.
pub data Page : Type 0 where
  secret_page login_page logout_page : Page

module _ {D : Type 0} (ops : Database D) (c : Config) (unlimited : ℕ) where
  unfoldable pub secret : ℕ → Request → Exec (World D) Response
  secret draw r = do
    started ← start ops c unlimited draw r
    auth ← get_boolean started.0 authenticated
    pure (if not auth.0 then forbidden started.1 else written cake started.1)

  unfoldable pub login : ℕ → Request → Exec (World D) Response
  login draw r = do
    session ← start ops c unlimited draw r
    set ops session.0 authenticated (bool true)
    pure (written [] session.1)

  unfoldable pub logout : ℕ → Request → Exec (World D) Response
  logout draw r = do
    session ← start ops c unlimited draw r
    set ops session.0 authenticated (bool false)
    pure (written [] session.1)

  unfoldable pub serve : Page → ℕ → Request → Exec (World D) Response
  unfolding secret login logout
  serve secret_page draw r = secret draw r
  serve login_page draw r = login draw r
  serve logout_page draw r = logout draw r

  -- Requests one after another. The request with the number `draw` gets the id of that number, if it
  -- gets a new one.
  unfoldable pub serve_all : ℕ → List (Page × Request) → Exec (World D) (List Response)
  unfolding serve
  serve_all draw [] = pure []
  serve_all draw ((page, r) ∷ requests) = do
    answer ← serve page draw r
    answers ← serve_all (suc draw) requests
    pure (answer ∷ answers)
