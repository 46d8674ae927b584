-- ===== src/Provider/Concurrent/Race.antt =====
-- Two requests of one client inside `Read` of provider.go at once.
use go_sessions.Base.{
  ℕ, GoString, str_eq_refl, ◌≡◌, ◌≢◌, ◌<◌, ◌==◌, Bool, refl, ◌∙◌, true, false, none, some, [], ◌∷◌,
  ◌++◌, length, arith, get_elem?, get_elem?-append, get_elem?-append_last, get_elem?-lt,
  get_elem?-set_ne,
}
use go_sessions.Base.Int.{ℤ}
use go_sessions.Value.{Value}
use go_sessions.Memstore.{save, find, len}
use go_sessions.Memstore.Lookup.{saved, find-save}
use go_sessions.Lifetime.{zero_lifetime}
use go_sessions.Session.{set_action, set_with, collect_garbage}
use go_sessions.Session.Sync.{told, set_with_lem}
use go_sessions.World.Laws.{get-put}
use go_sessions.Clients.Start
use go_sessions.Base.Outcome.{done}
use go_sessions.Database.{Database}
use go_sessions.World.{Session, World, lookup, insert, put, unlock_provider}
use go_sessions.World.Laws.{lookup-insert, lock_provider_free}
use go_sessions.Provider.{start_lifetime, new_session, read}
use go_sessions.Provider.Table.{load_nothing}
use go_sessions.Provider.Requests.{requested, read_existing}
use go_sessions.Provider.Concurrent.{
  reader, asking, making, registering, finished, look_found, next_place, advance, interleave,
}

module _ {D : Type 0} (ops : Database D) (sid : GoString) (expires : ℤ) where
  abbrev made : World D → World D
  made w = record w {
    clock = (start_lifetime sid expires zero_lifetime w.clock).1;
    sessions = w.sessions ++ Start.made ops w sid expires ∷ [];
  }

  abbrev registered : ℕ → World D → World D
  registered p w = record w { table = insert w.table sid p; locked = false }

  asking_lem :
      (w : World D)
      → w.locked ≡ false
      → lookup w.table sid ≡ none
      → advance ops expires (reader sid asking) w
        ≡ done (reader sid making) (record w { locked = false })
  unfolding advance next_place look_found unlock_provider
  asking_lem w free missing = rw (lock_provider_free w free, next_place) (rw (missing, look_found))

  making_lem :
      (w : World D)
      → w.databases ≡ []
      → advance ops expires (reader sid making) w
        ≡ done (reader sid (registering (length w.sessions))) (made w)
  unfolding advance next_place new_session
  making_lem w no_databases = rw (load_nothing ops w sid no_databases, new_session)

  registering_lem :
      (p : ℕ) (w : World D)
      → w.locked ≡ false
      → advance ops expires (reader sid (registering p)) w
        ≡ done (reader sid (finished p)) (registered p w)
  unfolding advance next_place unlock_provider
  registering_lem p w free = rw (lock_provider_free w free)

  -- Both requests have looked, then both make a session, then both put theirs into the table.
  abbrev both_made : World D → World D
  both_made w = made (made (record w { locked = false }))

  abbrev both_done : World D → World D
  both_done w = registered (length (made w).sessions) (registered (length w.sessions) (both_made w))

  both_lem :
      (w : World D)
      → w.locked ≡ false
      → w.databases ≡ []
      → lookup w.table sid ≡ none
      → interleave ops expires
          (0 ∷ 1 ∷ 0 ∷ 1 ∷ 0 ∷ 1 ∷ [])
          (reader sid asking ∷ reader sid asking ∷ [])
          w
        ≡ done
            (reader sid (finished (length w.sessions))
              ∷ reader sid (finished (length (made w).sessions))
              ∷ [])
            (both_done w)
  unfolding interleave
  both_lem w free no_databases missing =
      let v : World D = record w { locked = false } in
      rw (asking_lem w free missing, interleave)
        (rw (asking_lem v refl missing, interleave)
          (rw (making_lem v no_databases, interleave)
            (rw (making_lem (made v) no_databases, interleave)
              (rw (registering_lem (length w.sessions) (both_made w) refl, interleave)
                (rw (
                  registering_lem (length (made w).sessions)
                    (registered (length w.sessions) (both_made w)) refl))))))

  -- Two requests for one id that is not in memory, with no database and the provider's mutex free,
  -- that take their steps in turn, so that both look for the id before either has put its session
  -- into the table: each ends with a session of its own with that id. What the first handler then
  -- saves in its session is lost: a later request is given the second one, which has nothing under
  -- that key.
  pub two_sessions :
      (w : World D) (key : GoString) (v : Value) (i : Bool)
      → w.locked ≡ false
      → w.databases ≡ []
      → lookup w.table sid ≡ none
      → (w' w1 w2 : World D) × (p q : ℕ) × (s t : Session) × (interleave ops expires
            (0 ∷ 1 ∷ 0 ∷ 1 ∷ 0 ∷ 1 ∷ [])
            (reader sid asking ∷ reader sid asking ∷ [])
            w
          ≡ done (reader sid (finished p) ∷ reader sid (finished q) ∷ []) w')
        × (p ≢ q)
        × (set_with ops p key v i w' ≡ done tt w1)
        × (get_elem? w1.sessions p ≡ some s)
        × (s.sid ≡ sid)
        × (find s.values.entries key ≡ some (saved none key v i))
        × (read ops sid expires w1 ≡ done q w2)
        × (get_elem? w2.sessions q ≡ some t)
        × (t.sid ≡ sid)
        × (find t.values.entries key ≡ none)
  unfolding find told
  two_sessions w key v i free no_databases missing =
      let u : World D = record w { locked = false } in
      let p = length w.sessions in
      let q = length (made w).sessions in
      let s : Session = Start.made ops u sid expires in
      let t : Session = Start.made ops (made u) sid expires in
      let s' : Session = record s { values = (save s.values key v i).0 } in
      let w' : World D = both_done w in
      let later : p < q = get_elem?-lt (made w).sessions p s (get_elem?-append_last w.sessions s) in
      let apart : p ≢ q = λ e. omega (arith, e, later) in
      let at_p : get_elem? w'.sessions p ≡ some s =
        get_elem?-append (made w).sessions (t ∷ []) p later ∙ get_elem?-append_last w.sessions s in
      let w1 : World D =
        told ops (put p s' w') (record s' { locked = true })
          (set_action (len s.values == 0) (save s.values key v i).2)
          (some (save s.values key v i).1) in
      let at_q : get_elem? w1.sessions q ≡ some t =
        get_elem?-set_ne w'.sessions p q s' apart ∙ get_elem?-append_last (made w).sessions t in
      (
        w',
        w1,
        requested ops q t w1,
        p,
        q,
        s',
        record t { flashes = collect_garbage t.flashes },
        both_lem w free no_databases missing,
        apart,
        set_with_lem ops w' p s key v i (record { found = at_p; unlocked = refl; unread = refl }),
        get-put w' p s s' at_p,
        refl,
        (find-save s.values key v i).2 key ∙ rw (str_eq_refl key),
        read_existing ops w1 sid expires q t refl
            (rw (lookup-insert (registered p (both_made w)).table sid q sid, str_eq_refl sid))
            (record { found = at_q; unlocked = refl; unread = refl }),
        get-put w1 q t (record t { flashes = collect_garbage t.flashes }) at_q,
        refl,
        refl,
      )
