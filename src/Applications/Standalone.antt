-- ===== src/Applications/Standalone.antt =====
-- _examples/standalone/main.go. A `businessModel` is its only field, a string.
pub mod Account
pub mod Answers
use go_sessions.Base.{
  ℕ, suc, ◌*◌, GoString, codes, str_eq, ◌++◌, Option, none, some, List, [], ◌∷◌, length,
  if◌then◌else◌,
}
use go_sessions.Base.Int.{pos}
use go_sessions.Base.Outcome.{Exec, panics, ◌>>=◌, ◌>>◌, pure, gets, modify}
use go_sessions.Value.{Value, nil, string, slice, items, Heap, items_at, alloc, write}
use go_sessions.Database.{Database}
use go_sessions.World.{World}
use go_sessions.Cookie.{Request}
use go_sessions.Config.{Config}
use go_sessions.Session.{set, set_immutable, delete_value, clear, get}
use go_sessions.Session.Values.{get_string}
use go_sessions.Sessions.{start, shift_expiration}
use go_sessions.Sessions
use go_sessions.Sessions.Default.{zero_config}
use go_sessions.Applications.{Response, written}

-- What `sessions.New` is given: sessions of two hours.
abbrev pub standalone_config : Config
standalone_config = record zero_config {
  cookie = codes "mysessionid";
  expires = pos (2 * 3600 * 1000000000);
}

abbrev pub name : GoString
name = codes "name"

abbrev pub business_edit : GoString
business_edit = codes "businessEdit"

abbrev pub iris : GoString
iris = codes "iris"

abbrev pub edward : GoString
edward = codes "Edward"

abbrev pub business : List Value
business = string edward ∷ string (codes "value 2") ∷ []

abbrev pub root_text : GoString
root_text = codes "You should navigate to the /set, /get, /delete, /clear,/destroy instead"

abbrev pub set_text : GoString → GoString
set_text v = codes "All ok session setted to: " ++ v

abbrev pub get_text : GoString → GoString
get_text v = codes "The name on the /set was: " ++ v

abbrev pub remains_text : GoString → GoString
remains_text v = codes "[]businessModel[0].Name remains: " ++ v

abbrev pub first_text : GoString
first_text = codes "please navigate to the <a href='/set_immutable'>/set_immutable</a> first"

-- The paths that `main` handles.
pub data Page : Type 0 where
  root_page set_page get_page delete_page clear_page update_page destroy_page : Page
  set_immutable_page get_immutable_page : Page

-- `businessGet[0].Name = "Gabriel"`, where `businessGet` is the value as a `[]businessModel`.
unfoldable pub rename_first : {D : Type 0} → Value → Exec (World D) (Unit {0})
rename_first (slice r) w = elim (items_at w.heap r) [
  | [] ↦ panics w
  | _ ∷ models ↦
      modify (λ u. record u { heap = write u.heap r (items (string (codes "Gabriel") ∷ models)) }) w
]
rename_first v w = panics w

-- `valSlice.([]businessModel)[0].Name`
unfoldable pub first_name : {D : Type 0} → Value → Exec (World D) GoString
first_name (slice r) w = elim (items_at w.heap r) [ string s ∷ models ↦ pure s w | _ ↦ panics w ]
first_name v w = panics w

module _ {D : Type 0} where
  -- The text for a missing value; otherwise the name, and a panic where it is another.
  unfoldable pub show_first : Value → Exec (World D) GoString
  unfolding first_name
  show_first nil = pure first_text
  show_first v = do n ← first_name v; if str_eq n edward then pure (remains_text n) else panics

module _ {D : Type 0} (c : Config) where
  unfoldable pub update : ℕ → Request → Exec (World D) Response
  update unlimited r = do cookies ← shift_expiration c unlimited r; pure (written [] cookies)

  unfoldable pub destroy : Database D → Request → Exec (World D) Response
  destroy ops r = do cookies ← Sessions.destroy ops c r; pure (written [] cookies)

module _ {D : Type 0} (ops : Database D) (c : Config) (unlimited : ℕ) where
  unfoldable pub set_name : ℕ → Request → Exec (World D) Response
  set_name draw r = do
    s ← start ops c unlimited draw r
    set ops s.0 name (string iris)
    v ← get_string s.0 name
    pure (written (set_text v) s.1)

  unfoldable pub get_name : ℕ → Request → Exec (World D) Response
  get_name draw r = do
    s ← start ops c unlimited draw r
    v ← get_string s.0 name
    pure (written (get_text v) s.1)

  unfoldable pub delete_name : ℕ → Request → Exec (World D) Response
  delete_name draw r = do
    s ← start ops c unlimited draw r
    delete_value ops s.0 name
    pure (written [] s.1)

  unfoldable pub clear_values : ℕ → Request → Exec (World D) Response
  clear_values draw r = do s ← start ops c unlimited draw r; clear ops s.0; pure (written [] s.1)

  -- The slice is made before the session is started.
  unfoldable pub set_business : ℕ → Request → Exec (World D) Response
  unfolding rename_first
  set_business draw r = do
    h ← gets (λ w. w.heap)
    modify (λ w. record w { heap = alloc w.heap (items business) })
    s ← start ops c unlimited draw r
    set_immutable ops s.0 business_edit (slice (length h))
    v ← get s.0 business_edit
    rename_first v
    pure (written [] s.1)

  unfoldable pub get_business : ℕ → Request → Exec (World D) Response
  unfolding show_first
  get_business draw r = do
    s ← start ops c unlimited draw r
    v ← get s.0 business_edit
    text ← show_first v
    pure (written text s.1)

  unfoldable pub serve : Page → ℕ → Request → Exec (World D) Response
  unfolding set_name get_name delete_name clear_values update destroy set_business get_business
  serve root_page draw r = pure (written root_text [])
  serve set_page draw r = set_name draw r
  serve get_page draw r = get_name draw r
  serve delete_page draw r = delete_name draw r
  serve clear_page draw r = clear_values draw r
  serve update_page draw r = update c unlimited r
  serve destroy_page draw r = destroy c ops r
  serve set_immutable_page draw r = set_business draw r
  serve get_immutable_page draw r = get_business draw r

  -- Requests one after another. The request with the number `draw` gets the id of that number, if it
  -- gets a new one.
  unfoldable pub serve_all : ℕ → List (Page × Request) → Exec (World D) (List Response)
  unfolding serve
  serve_all draw [] = pure []
  serve_all draw ((page, r) ∷ requests) = do
    answer ← serve page draw r
    answers ← serve_all (suc draw) requests
    pure (answer ∷ answers)
