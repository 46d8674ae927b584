-- ===== src/Applications/Standalone/Account.antt =====
-- What the server of _examples/standalone/main.go answers: an account of it that knows no sessions.
use go_sessions.Base.{
  ℕ, suc, GoString, str_eq, Bool, true, false, ◌&&◌, not, List, [], ◌∷◌, if◌then◌else◌,
}
use go_sessions.Cookie.{Request, get_cookie}
use go_sessions.Config.{Generator}
use go_sessions.Clients.Start.{client}
use go_sessions.Applications.Standalone.{
  iris, edward, root_text, set_text, get_text, remains_text, first_text, Page, root_page, set_page,
  get_page, delete_page, clear_page, update_page, destroy_page, set_immutable_page,
  get_immutable_page,
}

-- What the server has for an id: a name, and models.
pub record Known : Type 0 where
  pub named : Bool
  pub modelled : Bool

abbrev pub unknown : Known
unknown = record { named = false; modelled = false }

abbrev pub Account : Type 0
Account = GoString → Known

abbrev pub put_known : GoString → Known → Account → Account
put_known sid k a j = if str_eq sid j then k else a j

-- A client without a cookie, whose session a page starts, gets an id, for which nothing is known.
abbrev pub opened : Bool → GoString → Account → Account
opened fresh sid a j = if fresh && str_eq sid j then unknown else a j

abbrev pub changed : Page → Known → Known
changed set_page k = record k { named = true }
changed delete_page k = record k { named = false }
changed clear_page k = unknown
changed set_immutable_page k = record k { modelled = true }
changed page k = k

abbrev pub text : Page → Known → GoString
text root_page k = root_text
text set_page k = set_text iris
text get_page k = get_text (if k.named then iris else [])
text get_immutable_page k = if k.modelled then remains_text edward else first_text
text page k = []

-- The account after a request of `sid`, whose cookie is missing if `fresh`, and the answer's body.
abbrev pub after : Page → Bool → GoString → Account → Account
after root_page fresh sid a = a
after update_page fresh sid a = a
after destroy_page fresh sid a = opened (not fresh) sid a
after get_page fresh sid a = opened fresh sid a
after get_immutable_page fresh sid a = opened fresh sid a
after page fresh sid a = put_known sid (changed page (opened fresh sid a sid)) (opened fresh sid a)

abbrev pub reply : Page → Bool → GoString → Account → ℕ × GoString
reply page fresh sid a = (200, text page (opened fresh sid a sid))

-- The answers to requests, where `known` is the id that a cookie's value has.
abbrev pub replies :
    Generator
    → (GoString → GoString)
    → GoString
    → ℕ
    → Account
    → List (Page × Request)
    → List (ℕ × GoString)
replies g known cookie draw a [] = []
replies g known cookie draw a ((page, r) ∷ requests) =
    let v = known (get_cookie r cookie) in
    let sid = client g draw v in
    reply page (str_eq v []) sid a
    ∷ replies g known cookie (suc draw) (after page (str_eq v []) sid a) requests
