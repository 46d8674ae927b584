-- ===== src/Applications/Standalone/Answers/Served.antt =====
-- Any requests of the server of _examples/standalone/main.go, and the account.
use go_sessions.Base.{ℕ, suc, GoString, str_eq, ◌≡◌, refl, List, [], ◌∷◌, map}
use go_sessions.Base.Outcome.{done}
use go_sessions.Value.{Heap}
use go_sessions.Lifetime.{Clock}
use go_sessions.Database.{Database}
use go_sessions.World.{World, lookup}
use go_sessions.Provider.{new_provider}
use go_sessions.Cookie.{Request, get_cookie}
use go_sessions.Config.{Config, Generator, validate}
use go_sessions.Sessions
use go_sessions.Clients.{Returns, Returns-continue, Returns-returned, new-IsServing}
use go_sessions.Clients.Start.{Identifies, bare-Identifies, client}
use go_sessions.Applications.{Response, visible}
use go_sessions.Applications.Standalone.{standalone_config, Page, serve, serve_all}
use go_sessions.Applications.Standalone.Account.{unknown, Account, after, replies}
use go_sessions.Applications.Standalone.Answers.{Agrees}
use go_sessions.Applications.Standalone.Answers.Requests.{serve-Answers}

module _ {D : Type 0} (ops : Database D) (c : Config) (g : Generator) (known : GoString → GoString)
    (i : Identifies c g known) (unlimited : ℕ) where
  pub serve_all-Answers :
      (requests : List (Page × Request)) (draw : ℕ) (w : World D) (a : Account)
      → Agrees w a
      → Returns
          (λ answers w'. map visible answers ≡ replies g known c.cookie draw a requests)
          (serve_all ops c unlimited draw requests w)
  unfolding serve_all
  serve_all-Answers [] draw w a k = refl
  serve_all-Answers ((page, r) ∷ requests) draw w a k =
      let v = known (get_cookie r c.cookie) in
      Returns-continue _ _ (serve ops c unlimited page draw r w) _
        (serve-Answers ops c g known i unlimited draw r page w a k)
        (λ answer u x.
          Returns-continue _ _ (serve_all ops c unlimited (suc draw) requests u) _
            (serve_all-Answers requests (suc draw) u (after page (str_eq v []) (client g draw v) a)
              x.1)
            (λ answers t y. rw (x.0) (rw y)))

module _ {D : Type 0} (ops : Database D) (uuid_v4 : Generator) (unlimited : ℕ)
    (clock : Clock GoString) (heap : Heap) where
  -- The manager of `main`.
  abbrev pub sess : Config × World D
  sess = Sessions.new uuid_v4 standalone_config clock heap

  -- The server, just started, answers every request of any requests to its pages, one after another
  -- with no timer fired between them, and as the account says: under each id the name and the models
  -- are what the requests with that id left, and what a handler does with the copy of the models
  -- that it got is not seen by a later request. So no handler panics, and no request blocks.
  pub business_kept :
      (requests : List (Page × Request))
      → (answers : List Response) × (w : World D) × (serve_all ops sess.0 unlimited 0 requests
            sess.1
          ≡ done answers w)
        × (map visible answers
            ≡ replies uuid_v4 (λ v. v) standalone_config.cookie 0 (λ j. unknown) requests)
  unfolding Sessions.new validate new_provider lookup str_eq
  business_kept requests = Returns-returned _ (serve_all ops sess.0 unlimited 0 requests sess.1) (
      serve_all-Answers ops sess.0 uuid_v4 (λ v. v) (bare-Identifies sess.0 uuid_v4 refl refl)
        unlimited requests 0 sess.1 (λ j. unknown)
        (record {
          serving = new-IsServing uuid_v4 standalone_config clock heap;
          names = λ j. refl;
          models = λ j. refl;
        }))
