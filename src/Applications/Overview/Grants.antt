-- ===== src/Applications/Overview/Grants.antt =====
-- What the server of _examples/overview/main.go answers: an account of it that knows no sessions.
use go_sessions.Base.{
  ℕ, suc, GoString, str_eq, Bool, true, false, ◌&&◌, Option, none, some, List, [], ◌∷◌,
  if◌then◌else◌,
}
use go_sessions.Cookie.{Request, get_cookie}
use go_sessions.Config.{Generator}
use go_sessions.Clients.Start.{client}
use go_sessions.Applications.Overview.{cake, Page, secret_page, login_page, logout_page}

-- For each id, what its client did last: a login, a logout, or neither.
abbrev pub Grants : Type 0
Grants = GoString → Option Bool

-- A client without a cookie gets an id, for which nothing is known.
abbrev pub opened : Bool → GoString → Grants → Grants
opened fresh sid a j = if fresh && str_eq sid j then none else a j

abbrev pub marked : GoString → Bool → Grants → Grants
marked sid b a j = if str_eq sid j then some b else a j

-- The status and the body of the answer.
abbrev pub reply : Page → Option Bool → ℕ × GoString
reply secret_page (some true) = (200, cake)
reply secret_page o = (403, [])
reply login_page o = (200, [])
reply logout_page o = (200, [])

abbrev pub after : Page → GoString → Grants → Grants
after secret_page sid a = a
after login_page sid a = marked sid true a
after logout_page sid a = marked sid false a

-- The answers to requests, from the values of their cookies.
abbrev pub replies : Generator → GoString → ℕ → Grants → List (Page × Request) → List (ℕ × GoString)
replies g name draw a [] = []
replies g name draw a ((page, r) ∷ requests) =
    let v = get_cookie r name in
    let sid = client g draw v in
    let b = opened (str_eq v []) sid a in
    reply page (b sid) ∷ replies g name (suc draw) (after page sid b) requests
