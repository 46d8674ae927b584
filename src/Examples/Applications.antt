-- ===== src/Examples/Applications.antt =====
-- Requests to the programs under _examples.
use go_sessions.Base.{
  codes, GoString, str_eq, ◌≡◌, ◌≢◌, ◌==◌, if◌then◌else◌, refl, arith, false, none, some, List, [],
  ◌∷◌, map,
}
use go_sessions.Base.Outcome.{done}
use go_sessions.Database.{SyncPayload}
use go_sessions.Config.{Decoded, failed, left_nil, decoded}
use go_sessions.World.{World}
use go_sessions.Cookie.{Request, get_cookie}
use go_sessions.Lifetime.{Clock}
use go_sessions.Applications.{Response, visible}
use go_sessions.Applications.Overview
use go_sessions.Applications.Overview.{
  overview_config, cookie_name_for_session_id, secret_page, login_page, logout_page,
}
use go_sessions.Applications.Overview.Access
use go_sessions.Applications.Overview.Grants
use go_sessions.Applications.Overview.Access.{secret_guarded}
use go_sessions.Applications.Standalone
use go_sessions.Applications.Standalone.{
  standalone_config, set_page, get_page, destroy_page, set_immutable_page, get_immutable_page,
}
use go_sessions.Applications.Standalone.Account
use go_sessions.Applications.Standalone.Account.{unknown}
use go_sessions.Applications.Standalone.Answers.Served
use go_sessions.Applications.Standalone.Answers.Served.{business_kept}
use go_sessions.Applications.Securecookie
use go_sessions.Applications.Securecookie.{SecureCookie, cookie_name, handler_of, set, get}
use go_sessions.Applications.Securecookie.Forged
use go_sessions.Applications.Securecookie.Forged.{known_to, forged_unknown}
use go_sessions.Applications.FlashMessages
use go_sessions.Applications.FlashMessages.{flash_config, message_setted}
use go_sessions.Applications.FlashMessages.Stops
use go_sessions.Applications.FlashMessages.Stops.{flash_stops}
use go_sessions.Base.Outcome.{blocks}
use go_sessions.Examples.Requests.{journal}
use go_sessions.Examples.Visits.{only, first}

abbrev clock : Clock GoString
clock = record { now = 100; tick = 3; timers = [] }

-- A request with the cookie of the client that has the id `s1`.
abbrev known : GoString → Request
known name = record { cookies = (name, codes "s1") ∷ []; host = codes "example.com"; tls = false }

abbrev visits : List (Overview.Page × Request)
visits =
    (login_page, first)
    ∷ (secret_page, known cookie_name_for_session_id)
    ∷ (logout_page, known cookie_name_for_session_id)
    ∷ (secret_page, known cookie_name_for_session_id)
    ∷ []

secret_guarded_example :
    (answers : List Response) × (w : World (List SyncPayload)) × (Overview.serve_all journal
        (Access.sess journal only 0 clock []).0
        0
        0
        visits
        (Access.sess journal only 0 clock []).1
      ≡ done answers w)
    × (map visible answers ≡ Grants.replies only cookie_name_for_session_id 0 (λ j. none) visits)
secret_guarded_example = secret_guarded journal only 0 clock [] visits

-- The page after the login, and not after the logout.
visits_tested :
    Grants.replies only cookie_name_for_session_id 0 (λ j. none) visits
    ≡ (200, []) ∷ (200, codes "The cake is a lie!") ∷ (200, []) ∷ (403, []) ∷ []
unfolding str_eq get_cookie
visits_tested = refl

abbrev edits : List (Standalone.Page × Request)
edits =
    (set_page, first)
    ∷ (get_page, known standalone_config.cookie)
    ∷ (set_immutable_page, known standalone_config.cookie)
    ∷ (get_immutable_page, known standalone_config.cookie)
    ∷ (destroy_page, known standalone_config.cookie)
    ∷ (get_immutable_page, known standalone_config.cookie)
    ∷ []

business_kept_example :
    (answers : List Response) × (w : World (List SyncPayload)) × (Standalone.serve_all journal
        (Served.sess journal only 0 clock []).0
        0
        0
        edits
        (Served.sess journal only 0 clock []).1
      ≡ done answers w)
    × (map visible answers
        ≡ Account.replies only (λ v. v) standalone_config.cookie 0 (λ j. unknown) edits)
business_kept_example = business_kept journal only 0 clock [] edits

edits_tested :
    Account.replies only (λ v. v) standalone_config.cookie 0 (λ j. unknown) edits
    ≡ (200, codes "All ok session setted to: iris")
      ∷ (200, codes "The name on the /set was: iris")
      ∷ (200, [])
      ∷ (200, codes "[]businessModel[0].Name remains: Edward")
      ∷ (200, [])
      ∷ (200, codes "please navigate to the <a href='/set_immutable'>/set_immutable</a> first")
      ∷ []
unfolding str_eq get_cookie
edits_tested = refl

abbrev unmarked : GoString → Decoded
unmarked [] = failed
unmarked (b ∷ v) = if b == 79 then decoded v else failed

-- An encoding that puts a byte before the id.
abbrev marking : SecureCookie
marking = record { encode = λ name v. some (79 ∷ v); decode = λ name v. unmarked v }

unmarked_total : (v : GoString) → unmarked v ≢ left_nil
unmarked_total [] h = cc
unmarked_total (b ∷ v) h = ground arith

abbrev sent_with : GoString → Request
sent_with v = record { cookies = (cookie_name, v) ∷ []; host = codes "example.com"; tls = false }

abbrev forgeries : List (Securecookie.Page × Request)
forgeries = (set, first) ∷ (get, sent_with (79 ∷ codes "s1")) ∷ (get, sent_with (codes "s1")) ∷ []

forged_unknown_example :
    (answers : List Response) × (w : World (List SyncPayload)) × (Securecookie.serve_all journal
        (Forged.my_sessions journal (λ hash block. marking) only 0 clock []).0
        0
        0
        forgeries
        (Forged.my_sessions journal (λ hash block. marking) only 0 clock []).1
      ≡ done answers w)
    × (map visible answers
        ≡ Account.replies only
            (known_to marking)
            cookie_name
            0
            (λ j. unknown)
            (map (λ x. (handler_of x.0, x.1)) forgeries))
forged_unknown_example =
    forged_unknown journal (λ hash block. marking) only 0 clock [] forgeries unmarked_total

-- The name for the cookie that was made, and none for the one that was not.
forgeries_tested :
    Account.replies only
      (known_to marking)
      cookie_name
      0
      (λ j. unknown)
      (map (λ x. (handler_of x.0, x.1)) forgeries)
    ≡ (200, codes "All ok session setted to: iris")
      ∷ (200, codes "The name on the /set was: iris")
      ∷ (200, codes "The name on the /set was: ")
      ∷ []
unfolding str_eq get_cookie
forgeries_tested = refl

abbrev back : Request
back = record {
  cookies = (flash_config.cookie, codes "s1") ∷ [];
  host = codes "example.com";
  tls = false;
}

back_sent : get_cookie back flash_config.cookie ≡ codes "s1"
unfolding get_cookie str_eq
back_sent = refl

first_sent : get_cookie first flash_config.cookie ≡ []
unfolding get_cookie
first_sent = refl

flash_stops_example :
    (answers : List Response) × (w1 w2 w3 : World (List SyncPayload)) × (FlashMessages.serve_all
        journal
        (Stops.sess journal only 0 clock []).0
        0
        0
        ((FlashMessages.set_page, first) ∷ (FlashMessages.get_page, back) ∷ [])
        (Stops.sess journal only 0 clock []).1
      ≡ done answers w1)
    × (map visible answers ≡ (200, message_setted) ∷ (200, codes "Hello iris") ∷ [])
    × (FlashMessages.serve journal
          (Stops.sess journal only 0 clock []).0
          0
          FlashMessages.get_page
          2
          back
          w1
        ≡ blocks w2)
    × (FlashMessages.serve journal
          (Stops.sess journal only 0 clock []).0
          0
          FlashMessages.set_page
          3
          first
          w2
        ≡ blocks w3)
flash_stops_example =
    flash_stops journal only 0 clock [] first back back first FlashMessages.get_page
      FlashMessages.get_page FlashMessages.set_page first_sent (λ e. cc) back_sent (λ e. cc)
      back_sent
