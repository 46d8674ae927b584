-- ===== src/Applications/FlashMessages.antt =====
-- _examples/flash-messages/main.go: a message for the next request.
pub mod Starts
pub mod Stops
use go_sessions.Base.{ℕ, suc, GoString, codes, str_eq, ◌++◌, List, [], ◌∷◌, if◌then◌else◌}
use go_sessions.Base.Outcome.{Exec, ◌>>=◌, ◌>>◌, pure}
use go_sessions.Value.{string}
use go_sessions.Database.{Database}
use go_sessions.World.{World}
use go_sessions.Cookie.{Request}
use go_sessions.Config.{Config}
use go_sessions.Session.{set_flash}
use go_sessions.Session.Values.{get_flash_string}
use go_sessions.Sessions.{start}
use go_sessions.Sessions.Default.{zero_config}
use go_sessions.Applications.{Response, written}

abbrev pub flash_config : Config
flash_config = record zero_config { cookie = codes "myappsessionid" }

abbrev pub name : GoString
name = codes "name"

abbrev pub message_setted : GoString
message_setted = codes "Message setted, is available for the next request"

abbrev pub empty_name : GoString
empty_name = codes "Empty name!!"

abbrev pub hello_text : GoString → GoString
hello_text v = codes "Hello " ++ v

-- Two writes to the body.
abbrev pub test_text : GoString → GoString
test_text v =
    (codes "Ok you are coming from /set ,the value of the name is " ++ v)
    ++ codes ", and again from the same context: "
    ++ v

-- The paths that `main` handles.
pub data Page : Type 0 where
  set_page get_page test_page : Page

module _ {D : Type 0} (ops : Database D) (c : Config) (unlimited : ℕ) where
  unfoldable pub set_message : ℕ → Request → Exec (World D) Response
  set_message draw r = do
    s ← start ops c unlimited draw r
    set_flash s.0 name (string (codes "iris"))
    pure (written message_setted s.1)

  unfoldable pub get_message : ℕ → Request → Exec (World D) Response
  get_message draw r = do
    s ← start ops c unlimited draw r
    v ← get_flash_string s.0 name
    pure (written (if str_eq v [] then empty_name else hello_text v) s.1)

  unfoldable pub test_message : ℕ → Request → Exec (World D) Response
  test_message draw r = do
    s ← start ops c unlimited draw r
    v ← get_flash_string s.0 name
    pure (written (if str_eq v [] then empty_name else test_text v) s.1)

  unfoldable pub serve : Page → ℕ → Request → Exec (World D) Response
  unfolding set_message get_message test_message
  serve set_page draw r = set_message draw r
  serve get_page draw r = get_message draw r
  serve test_page draw r = test_message draw r

  -- Requests one after another, as in the overview.
  unfoldable pub serve_all : ℕ → List (Page × Request) → Exec (World D) (List Response)
  unfolding serve
  serve_all draw [] = pure []
  serve_all draw ((page, r) ∷ requests) = do
    answer ← serve page draw r
    answers ← serve_all (suc draw) requests
    pure (answer ∷ answers)
