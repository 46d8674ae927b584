-- ===== src/Provider/Table.antt =====
-- The table of sessions in provider.go: what the provider adds to it and takes out of it.
use go_sessions.Base.{
  ℕ, suc, ◌+◌, GoString, str_eq, ◌≡◌, refl, ◌∙◌, true, false, none, some, [], ◌∷◌, ◌++◌, map,
  length, arith, get_elem?, if◌then◌else◌,
}
use go_sessions.Base.Int.{ℤ, pos}
use go_sessions.Base.Outcome.{done}
use go_sessions.Memstore.{nil_store}
use go_sessions.Lifetime.{zero_lifetime}
use go_sessions.Lifetime.Expiry.{with_timer, begin_lem}
use go_sessions.Database.{action_destroy, Database, SyncPayload}
use go_sessions.Database.Payload.{acquire_lem}
use go_sessions.World.{Session, World, lookup, delete, insert, unlock_provider}
use go_sessions.World.Laws.{lookup-delete, deref_lem, lock_provider_free}
use go_sessions.Session.Sync.{told, payload, sync_lem}
use go_sessions.Provider.{
  load_session_from_db, new_session, init, read, read_found, delete_session, destroy, destroy_found,
}

module _ {D : Type 0} (ops : Database D) where
  pub delete_session_lem :
      (w : World D) (p : ℕ) (s : Session)
      → get_elem? w.sessions p ≡ some s
      → delete_session ops p w
        ≡ done tt (told ops (record w { table = delete w.table s.sid }) s action_destroy none)
  unfolding delete_session
  delete_session_lem w p s h =
      rw (deref_lem w p s h, delete_session)
        (sync_lem ops (record w { table = delete w.table s.sid }) s action_destroy none)

  pub destroy_lem :
      (w : World D) (sid : GoString) (p : ℕ) (s : Session)
      → w.locked ≡ false
      → lookup w.table sid ≡ some p
      → get_elem? w.sessions p ≡ some s
      → destroy ops sid w
        ≡ done tt
            (record (told ops
              (record w { table = delete w.table s.sid; locked = true })
              s
              action_destroy
              none) { locked = false })
  unfolding destroy unlock_provider
  destroy_lem w sid p s free in_table h =
      rw (lock_provider_free w free, destroy)
        (rw (in_table, destroy_found) (rw (delete_session_lem (record w { locked = true }) p s h)))

  -- `Destroy` of a session in memory, with the provider's mutex free, returns: the id is not found
  -- any more, every other id finds what it did, and each database was told to destroy that id. It
  -- needs nothing of the session's own mutex, and it leaves the clock, with the session's timer, as
  -- it was.
  pub destroy_removes :
      (w : World D) (sid : GoString) (p : ℕ) (s : Session)
      → w.locked ≡ false
      → lookup w.table sid ≡ some p
      → get_elem? w.sessions p ≡ some s
      → s.sid ≡ sid
      → (w' : World D) × (q : SyncPayload) × (destroy ops sid w ≡ done tt w')
        × ((k : GoString) → lookup w'.table k ≡ (if str_eq sid k then none else lookup w.table k))
        × (w'.databases ≡ map (ops.sync w.clock.now w.heap q) w.databases)
        × (q.session_id ≡ sid)
        × (q.action ≡ action_destroy)
        × (w'.clock ≡ w.clock)
        × (w'.locked ≡ false)
  unfolding told payload
  destroy_removes w sid p s free in_table h same =
      let v : World D = record w { table = delete w.table s.sid; locked = true } in
      let acquired = acquire_lem w.pool s.sid s.values s.lifetime action_destroy in
      (
        record (told ops v s action_destroy none) { locked = false },
        payload ops v s action_destroy none,
        destroy_lem w sid p s free in_table h,
        (λ k. rw (lookup-delete w.table s.sid k, same)),
        refl,
        acquired.0 ∙ same,
        acquired.1,
        refl,
        refl,
      )

  -- A session that `Init` makes when no database is registered.
  abbrev pub fresh_session : World D → GoString → ℕ → Session
  fresh_session w sid n = record {
    sid = sid;
    is_new = false;
    values = nil_store;
    flashes = [];
    locked = false;
    readers = 0;
    lifetime = record { time = w.clock.now + suc n; timer = some (length w.clock.timers) };
  }

  abbrev pub initialised : World D → GoString → ℕ → World D
  initialised w sid n = record w {
    clock = with_timer w.clock (w.clock.now + suc n) sid;
    sessions = w.sessions ++ fresh_session w sid n ∷ [];
    table = insert w.table sid (length w.sessions);
    locked = false;
  }

  pub load_nothing :
      (w : World D) (sid : GoString)
      → w.databases ≡ []
      → load_session_from_db ops sid w ≡ done (nil_store, zero_lifetime) w
  unfolding load_session_from_db
  load_nothing w sid e = ground arith

  pub new_lem :
      (w : World D) (sid : GoString) (n : ℕ)
      → w.databases ≡ []
      → new_session ops sid (pos (suc n)) w
        ≡ done (length w.sessions) (record w {
          clock = with_timer w.clock (w.clock.now + suc n) sid;
          sessions = w.sessions ++ fresh_session w sid n ∷ [];
        })
  unfolding new_session
  new_lem w sid n e =
      rw (load_nothing w sid e, new_session) (rw (begin_lem w.clock zero_lifetime n sid))

  pub init_lem :
      (w : World D) (sid : GoString) (n : ℕ)
      → w.locked ≡ false
      → w.databases ≡ []
      → init ops sid (pos (suc n)) w ≡ done (length w.sessions) (initialised w sid n)
  unfolding init unlock_provider
  init_lem w sid n free e =
      let v : World D = record w {
        clock = with_timer w.clock (w.clock.now + suc n) sid;
        sessions = w.sessions ++ fresh_session w sid n ∷ [];
      } in
      rw (new_lem w sid n e, init) (rw (lock_provider_free v free, init))

  -- A request for an id that is not in memory makes a session.
  pub read_missing :
      (w : World D) (sid : GoString) (expires : ℤ)
      → w.locked ≡ false
      → lookup w.table sid ≡ none
      → read ops sid expires w ≡ init ops sid expires (record w { locked = false })
  unfolding read unlock_provider
  read_missing w sid expires free missing =
      rw (lock_provider_free w free, read) (rw (missing, read_found))
