-- ===== src/Applications/Securecookie/Forged.antt =====
-- Which cookies the server of _examples/securecookie/main.go trusts.
use go_sessions.Base.{
  ℕ, GoString, str_eq, ◌≡◌, ◌≢◌, refl, none, some, List, [], map, if◌then◌else◌, Bool-cases, inl,
  inr,
}
use go_sessions.Base.Outcome.{done}
use go_sessions.Value.{Heap}
use go_sessions.Lifetime.{Clock}
use go_sessions.Database.{Database}
use go_sessions.World.{World, lookup}
use go_sessions.Provider.{new_provider}
use go_sessions.Cookie.{Request}
use go_sessions.Config.{Config, Generator, Decoded, failed, left_nil, decoded, validate}
use go_sessions.Sessions
use go_sessions.Sessions.{decode_cookie_value}
use go_sessions.Clients.{Returns-returned, new-IsServing}
use go_sessions.Clients.Start.{Identifies}
use go_sessions.Applications.{Response, visible}
use go_sessions.Applications.Securecookie.{
  SecureCookie, cookie_name, hash_key, block_key, secure_config, Page, handler_of, serve_all,
}
use go_sessions.Applications.Standalone.Account.{unknown, replies}
use go_sessions.Applications.Standalone.Answers.Served.{serve_all-Answers}

abbrev id_of : Decoded → GoString
id_of failed = []
id_of left_nil = []
id_of (decoded sid) = sid

-- The id that the library finds in a cookie's value, and none if it rejects it.
abbrev pub known_to : SecureCookie → GoString → GoString
known_to secure_cookie v = if str_eq v [] then [] else id_of (secure_cookie.decode cookie_name v)

id_of_lem :
    (d : Decoded)
    → d ≢ left_nil
    → elim d [ failed ↦ some [] | left_nil ↦ none | decoded sid ↦ some sid ] ≡ some (id_of d)
id_of_lem failed h = refl
id_of_lem left_nil h = absurd (h refl)
id_of_lem (decoded sid) h = refl

known_to-Identifies :
    (secure_cookie : SecureCookie) (g : Generator)
    → ((v : GoString) → secure_cookie.decode cookie_name v ≢ left_nil)
    → Identifies
        (record (secure_config secure_cookie) { session_id_generator = some g })
        g
        (known_to secure_cookie)
unfolding decode_cookie_value
known_to-Identifies secure_cookie g h = record {
  generates = refl;
  identifies = λ v. elim (Bool-cases (str_eq v [])) [
    | inl e ↦ rw e refl
    | inr e ↦ rw e (id_of_lem (secure_cookie.decode cookie_name v) (h v))
  ];
}

module _ {D : Type 0} (ops : Database D) (new : GoString → GoString → SecureCookie)
    (uuid_v4 : Generator) (unlimited : ℕ) (clock : Clock GoString) (heap : Heap) where
  abbrev pub secure_cookie : SecureCookie
  secure_cookie = new hash_key block_key

  -- The manager of `main`.
  abbrev pub my_sessions : Config × World D
  my_sessions = Sessions.new uuid_v4 (secure_config secure_cookie) clock heap

  -- The server, just started, where `Decode` never reports success without a value, answers every
  -- request of any requests to its pages, one after another, and as the account of the standalone
  -- server says, for the ids that `Decode` finds in the cookies: a cookie that it rejects counts as
  -- none, so that it reaches no session that was there before.
  pub forged_unknown :
      (requests : List (Page × Request))
      → ((v : GoString) → secure_cookie.decode cookie_name v ≢ left_nil)
      → (answers : List Response) × (w : World D) × (serve_all ops my_sessions.0 unlimited 0
            requests my_sessions.1
          ≡ done answers w)
        × (map visible answers
            ≡ replies uuid_v4
                (known_to secure_cookie)
                cookie_name
                0
                (λ j. unknown)
                (map (λ x. (handler_of x.0, x.1)) requests))
  unfolding Sessions.new validate new_provider lookup str_eq serve_all
  forged_unknown requests h =
      Returns-returned _ (serve_all ops my_sessions.0 unlimited 0 requests my_sessions.1) (
        serve_all-Answers ops my_sessions.0 uuid_v4 (known_to secure_cookie)
          (known_to-Identifies secure_cookie uuid_v4 h) unlimited
          (map (λ x. (handler_of x.0, x.1)) requests) 0 my_sessions.1 (λ j. unknown)
          (record {
            serving = new-IsServing uuid_v4 (secure_config secure_cookie) clock heap;
            names = λ j. refl;
            models = λ j. refl;
          }))
