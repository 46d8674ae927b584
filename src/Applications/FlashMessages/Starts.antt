-- ===== src/Applications/FlashMessages/Starts.antt =====
-- How a request to the server of _examples/flash-messages/main.go starts, or waits.
use go_sessions.Base.{
  ℕ, GoString, str_eq, str_eq_ne, ◌≡◌, ◌≢◌, refl, true, false, [], ◌∷◌, ◌++◌, length,
  get_elem?-append_last, Bool-cases, inl, inr,
}
use go_sessions.Base.Outcome.{done, blocks, continue}
use go_sessions.Lifetime.{zero_lifetime}
use go_sessions.Memstore.{len}
use go_sessions.Database.{Database}
use go_sessions.World.{Session, World, put, store}
use go_sessions.World.Laws.{deref_lem, lock_provider_held}
use go_sessions.Provider.{start_lifetime, init, new_session, read}
use go_sessions.Provider.Deadlock.{read_locked}
use go_sessions.Provider.Table.{load_nothing}
use go_sessions.Cookie.{Request, get_cookie}
use go_sessions.Config.{Config, Generator}
use go_sessions.Sessions.{start, start_new, update_cookie}
use go_sessions.Sessions.Roundtrip.{request_sid_lem, no_cookie}
use go_sessions.Clients.Start.{Identifies, made, listed, init_any}
use go_sessions.Applications.FlashMessages.{
  Page, set_page, get_page, test_page, set_message, get_message, test_message, serve,
}

module _ {D : Type 0} (ops : Database D) (c : Config) where
  abbrev pub opened : World D → GoString → Session
  opened w sid = record (made ops w sid c.expires) { is_new = true }

  abbrev pub opening : World D → GoString → World D
  opening w sid = put (length w.sessions) (opened w sid) (listed ops w sid c.expires)

module _ {D : Type 0} (ops : Database D) (c : Config) (g : Generator) (i : Identifies c g (λ v. v))
    (unlimited : ℕ) where
  pub start_fresh :
      (w : World D) (draw : ℕ) (r : Request)
      → w.locked ≡ false
      → w.databases ≡ []
      → get_cookie r c.cookie ≡ []
      → start ops c unlimited draw r w
        ≡ done
            (
              length w.sessions,
              update_cookie c
                    (opening ops c w (g draw)).clock.now
                    (opening ops c w (g draw)).clock.tick
                    unlimited
                    r
                    (g draw)
                    c.expires
                  ∷ [],
            )
            (opening ops c w (g draw))
  unfolding start start_new store str_eq len
  start_fresh w draw r free no_databases fresh =
      rw (fresh, start)
        (rw (no_cookie c w) (
          rw (i.generates, start_new)
            (rw (init_any ops w (g draw) c.expires free no_databases) (
              rw
                (deref_lem (listed ops w (g draw) c.expires) (length w.sessions)
                  (made ops w (g draw) c.expires) (get_elem?-append_last w.sessions _))
                refl))))

  pub start_known :
      (w : World D) (draw : ℕ) (r : Request) (sid : GoString)
      → get_cookie r c.cookie ≡ sid
      → sid ≢ []
      → start ops c unlimited draw r w ≡ continue (read ops sid c.expires w) (λ p. done (p, []))
  unfolding start
  start_known w draw r sid sent nonempty =
      rw (sent, start)
        (rw (request_sid_lem c sid sid w (i.identifies sid)) (rw (str_eq_ne sid [] nonempty)))

  -- A new session waits for the provider's mutex as well.
  init_locked :
      (w : World D) (sid : GoString)
      → w.locked ≡ true
      → w.databases ≡ []
      → (u : World D) × (init ops sid c.expires w ≡ blocks u)
  unfolding init new_session
  init_locked w sid h no_databases =
      let u : World D = record w {
        clock = (start_lifetime sid c.expires zero_lifetime w.clock).1;
        sessions = w.sessions ++ made ops w sid c.expires ∷ [];
      } in
      (u, rw (load_nothing ops w sid no_databases, new_session) (rw (lock_provider_held u h, init)))

  -- No request is started any more.
  pub start_locked :
      (w : World D) (draw : ℕ) (r : Request)
      → w.locked ≡ true
      → w.databases ≡ []
      → (u : World D) × (start ops c unlimited draw r w ≡ blocks u)
  unfolding start start_new
  start_locked w draw r h no_databases =
      let x = get_cookie r c.cookie in
      rw (request_sid_lem c x x w (i.identifies x), start)
        (elim (Bool-cases (str_eq x [])) [
          | inl e ↦
              let (u, waits) = init_locked w (g draw) h no_databases in
              (u, rw e (rw (i.generates, start_new) (rw waits)))
          | inr e ↦ (w, rw e (rw (read_locked ops w x c.expires h)))
        ])

  pub serve_blocks :
      (w u : World D) (page : Page) (draw : ℕ) (r : Request)
      → start ops c unlimited draw r w ≡ blocks u
      → serve ops c unlimited page draw r w ≡ blocks u
  unfolding serve set_message get_message test_message
  serve_blocks w u set_page draw r h = rw h
  serve_blocks w u get_page draw r h = rw h
  serve_blocks w u test_page draw r h = rw h
