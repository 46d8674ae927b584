-- ===== src/Applications/FlashMessages/Stops.antt =====
-- What follows a flash message that is read, in _examples/flash-messages/main.go.
use go_sessions.Base.{
  ℕ, GoString, codes, str_eq, str_eq_refl, ◌≡◌, ◌≢◌, refl, true, false, some, List, [], ◌∷◌, length,
  get_elem?, get_elem?-append_last, map,
}
use go_sessions.Base.Outcome.{done, blocks}
use go_sessions.Value.{Heap, string}
use go_sessions.Lifetime.{Clock}
use go_sessions.Database.{Database}
use go_sessions.World.{FlashMessage, Session, World, lookup, insert, put}
use go_sessions.World.Laws.{get-put, lookup-insert}
use go_sessions.Session.{collect_garbage}
use go_sessions.Session.Flash.{set_flash_lem}
use go_sessions.Session.Values.{get_flash_string, string_of}
use go_sessions.Provider.{new_provider, read}
use go_sessions.Session.Deadlock.{held, marked, get_flash_found}
use go_sessions.Provider.Deadlock.{read_held}
use go_sessions.Provider.Requests.{read_existing}
use go_sessions.Cookie.{Request, get_cookie}
use go_sessions.Config.{Config, Generator, validate}
use go_sessions.Sessions
use go_sessions.Sessions.{start, start_new, update_cookie}
use go_sessions.Clients.Start.{Identifies, bare-Identifies, made, listed}
use go_sessions.Applications.{Response, visible, written}
use go_sessions.Applications.FlashMessages.{
  flash_config, name, message_setted, hello_text, test_text, Page, set_page, get_page, test_page,
  set_message, get_message, test_message, serve, serve_all,
}
use go_sessions.Applications.FlashMessages.Starts.{
  opened, opening, start_fresh, start_known, start_locked, serve_blocks,
}

-- The body that a page answers to the client that has the message.
abbrev pub told : Page → GoString
told set_page = message_setted
told get_page = hello_text (codes "iris")
told test_page = test_text (codes "iris")

abbrev waiting : FlashMessage
waiting = record { should_remove = false; value = string (codes "iris") }

-- One client, at a server with no database, whose provider nobody holds.
module _ {D : Type 0} (ops : Database D) (c : Config) (g : Generator) (i : Identifies c g (λ v. v))
    (unlimited draw : ℕ) (w : World D) (free : w.locked ≡ false) (no_databases : w.databases ≡ [])
    (nonempty : g draw ≢ []) where
  abbrev p : ℕ
  p = length w.sessions

  abbrev with_message : Session
  with_message = record (opened ops c w (g draw)) { flashes = (name, waiting) ∷ []; locked = false }

  abbrev set_world : World D
  set_world = put p with_message (opening ops c w (g draw))

  abbrev again : World D
  again = record (put p with_message set_world) { locked = false }

  abbrev taken : World D
  taken = put p (marked (held again p with_message name waiting) name waiting) again

  abbrev stopped : World D
  stopped =
      put p (marked (held again p with_message name waiting) name waiting)
        (record taken { locked = true })

  found : get_elem? set_world.sessions p ≡ some with_message
  found = get-put (opening ops c w (g draw)) p (opened ops c w (g draw)) with_message (
      get-put (listed ops w (g draw) c.expires) p (made ops w (g draw) c.expires) _
        (get_elem?-append_last w.sessions _))

  in_table : lookup set_world.table (g draw) ≡ some p
  in_table = rw (lookup-insert w.table (g draw) p (g draw), str_eq_refl (g draw))

  set_serves :
      (r : Request)
      → get_cookie r c.cookie ≡ []
      → (answer : Response) × (visible answer ≡ (200, message_setted))
        × (serve ops c unlimited set_page draw r w ≡ done answer set_world)
  unfolding serve set_message insert
  set_serves r fresh = (
    written message_setted (
        update_cookie c (opening ops c w (g draw)).clock.now (opening ops c w (g draw)).clock.tick
          unlimited r (g draw) c.expires
        ∷ []),
    refl,
    rw (start_fresh ops c g i unlimited w draw r free no_databases fresh, set_message)
        (rw
          (set_flash_lem (opening ops c w (g draw)) p (opened ops c w (g draw))
            (record {
              found =
                  get-put (listed ops w (g draw) c.expires) p (made ops w (g draw) c.expires) _
                    (get_elem?-append_last w.sessions _);
              unlocked = refl;
              unread = refl;
            })
            name (string (codes "iris")))
          refl),
  )

  read_again : read ops (g draw) c.expires set_world ≡ done p again
  unfolding collect_garbage
  read_again =
      read_existing ops set_world (g draw) c.expires p with_message refl in_table
        (record { found = found; unlocked = refl; unread = refl })

  get_again : get_flash_string p name again ≡ done (codes "iris") taken
  unfolding get_flash_string string_of lookup str_eq
  get_again =
      rw
        (get_flash_found again p with_message name waiting
          (record {
            found = get-put set_world p with_message with_message found;
            unlocked = refl;
            unread = refl;
          })
          refl)
        refl

  get_serves :
      (page : Page) (later : ℕ) (r : Request)
      → page ≢ set_page
      → get_cookie r c.cookie ≡ g draw
      → serve ops c unlimited page later r set_world ≡ done (written (told page) []) taken
  unfolding serve get_message test_message str_eq
  get_serves set_page later r h sent = absurd (h refl)
  get_serves get_page later r h sent =
      rw (start_known ops c g i unlimited set_world later r (g draw) sent nonempty, get_message)
        (rw read_again (rw get_again refl))
  get_serves test_page later r h sent =
      rw (start_known ops c g i unlimited set_world later r (g draw) sent nonempty, test_message)
        (rw read_again (rw get_again refl))

  next_blocks :
      (page : Page) (later : ℕ) (r : Request)
      → get_cookie r c.cookie ≡ g draw
      → serve ops c unlimited page later r taken ≡ blocks stopped
  next_blocks page later r sent =
      let left : Session = marked (held again p with_message name waiting) name waiting in
      serve_blocks ops c g i unlimited taken stopped page later r (
        rw (start_known ops c g i unlimited taken later r (g draw) sent nonempty) (
          rw (
            read_held ops taken (g draw) c.expires p left refl in_table
              (get-put again p with_message left
                (get-put set_world p with_message with_message found))
              refl)))

  all_block :
      (page : Page) (later : ℕ) (r : Request)
      → (u : World D) × (serve ops c unlimited page later r stopped ≡ blocks u)
  all_block page later r =
      let (u, waits) = start_locked ops c g i unlimited stopped later r refl no_databases in
      (u, serve_blocks ops c g i unlimited stopped u page later r waits)

module _ {D : Type 0} (ops : Database D) (uuid_v4 : Generator) (unlimited : ℕ)
    (clock : Clock GoString) (heap : Heap) where
  -- The manager of `main`.
  abbrev pub sess : Config × World D
  sess = Sessions.new uuid_v4 flash_config clock heap

  -- At the server, just started, a client without a cookie sets the message and then, with the id
  -- that it got, reads it at /get or /test: both requests are answered, the second with the message.
  -- Then any next request of this client waits for ever, and after it so does any request of any
  -- client, with or without a cookie.
  pub flash_stops :
      (r r1 r2 r3 : Request) (page next other : Page)
      → get_cookie r flash_config.cookie ≡ []
      → uuid_v4 0 ≢ []
      → get_cookie r1 flash_config.cookie ≡ uuid_v4 0
      → page ≢ set_page
      → get_cookie r2 flash_config.cookie ≡ uuid_v4 0
      → (answers : List Response) × (w1 w2 w3 : World D) × (serve_all ops sess.0 unlimited 0
            ((set_page, r) ∷ (page, r1) ∷ [])
            sess.1
          ≡ done answers w1)
        × (map visible answers ≡ (200, message_setted) ∷ (200, told page) ∷ [])
        × (serve ops sess.0 unlimited next 2 r2 w1 ≡ blocks w2)
        × (serve ops sess.0 unlimited other 3 r3 w2 ≡ blocks w3)
  unfolding Sessions.new validate new_provider lookup str_eq serve_all
  flash_stops r r1 r2 r3 page next other fresh nonempty sent reader sent2 =
      let i = bare-Identifies sess.0 uuid_v4 refl refl in
      let first = set_serves ops sess.0 uuid_v4 i unlimited 0 sess.1 refl refl nonempty r fresh in
      let second =
        get_serves ops sess.0 uuid_v4 i unlimited 0 sess.1 refl refl nonempty page 1 r1 reader
          sent in
      let waits = all_block ops sess.0 uuid_v4 i unlimited 0 sess.1 refl refl nonempty other 3 r3 in
      (
        first.0 ∷ written (told page) [] ∷ [],
        taken ops sess.0 uuid_v4 i unlimited 0 sess.1 refl refl nonempty,
        stopped ops sess.0 uuid_v4 i unlimited 0 sess.1 refl refl nonempty,
        waits.0,
        rw (first.2, serve_all) (rw (second, serve_all)),
        rw (first.1),
        next_blocks ops sess.0 uuid_v4 i unlimited 0 sess.1 refl refl nonempty next 2 r2 sent2,
        waits.1,
      )
