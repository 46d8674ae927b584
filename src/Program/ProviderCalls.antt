-- ===== src/Program/ProviderCalls.antt =====
-- The methods of provider.go keep the state steady, with the provider's mutex free before and after.
use go_sessions.Base.{
  ℕ, GoString, ◌≡◌, refl, Bool, true, false, Option, none, some, List, [], ◌∷◌, length, get_elem?,
  get_elem?-append_last, Option-cases, inl, inr, leb, Bool-cases,
}
use go_sessions.Base.Int.{ℤ, pos, leb_ℤ}
use go_sessions.Base.Outcome.{Outcome, done, panics, Exec, continue}
use go_sessions.Memstore.{Store}
use go_sessions.Lifetime.{LifeTime}
use go_sessions.Database.{Database, action_destroy}
use go_sessions.World.{
  Session, World, StringMap, lookup, delete, deref, lock_provider, unlock_provider,
}
use go_sessions.World.Laws.{lock_provider_free}
use go_sessions.Session.{run_flash_gc}
use go_sessions.Session.Flash.{insert-IsMap, delete-IsMap}
use go_sessions.Provider.{
  Loading, load_rounds, start, load_session_from_db, new_session, init, read_found, read,
  delete_session, destroy_found, destroy, delete_sessions, destroy_all, fire, register_database,
  shift_found, update_expiration,
}
use go_sessions.Program.Owners.{
  Grows, AllIdle-append, HasOwners-append, HasOwners-delete, HasOwners-insert,
}
use go_sessions.Program.Steady.{IsSteady, Ends, Ends-continue, Keeps}
use go_sessions.Program.SessionCalls.{sync_databases-Keeps, run_flash_gc-Keeps}

module _ {D : Type 0} where
  -- One call after another, each of which keeps the state steady.
  pub Keeps-continue :
      {A B : Type 0} (b b' : Bool) (o : Outcome (World D) A) (f : A → Exec (World D) B)
      → Keeps b o
      → ((a : A) (w : World D) → IsSteady b w → Keeps b' (f a w))
      → Keeps b' (continue o f)
  Keeps-continue b b' o f e next =
      Ends-continue (λ a w. IsSteady b w) (λ a w. IsSteady b' w) o f e next

  pub lock_provider-Keeps : (w : World D) → IsSteady false w → Keeps true (lock_provider w)
  lock_provider-Keeps w v =
      rw (lock_provider_free w v.mutex)
        (record { mutex = refl; idle = v.idle; owners = v.owners; distinct = v.distinct })

  unlock_provider-Keeps : (b : Bool) (w : World D) → IsSteady b w → Keeps false (unlock_provider w)
  unfolding unlock_provider
  unlock_provider-Keeps b w v = record {
    mutex = refl;
    idle = v.idle;
    owners = v.owners;
    distinct = v.distinct;
  }

  deref-Keeps : (b : Bool) (p : ℕ) (w : World D) → IsSteady b w → Keeps b (deref p w)
  unfolding deref
  deref-Keeps b p w v = of (get_elem? w.sessions p)
    where
      of :
          (o : Option Session)
          → Keeps b {A = Session} (elim o [ none ↦ panics w | some s ↦ done s w ])
      of none = tt
      of (some s) = v

module _ {D : Type 0} (ops : Database D) where
  load-Ends :
      (b : Bool) (sid : GoString) (w : World D)
      → IsSteady b w
      → Ends (λ a u. IsSteady b u × (u.sessions ≡ w.sessions)) (load_session_from_db ops sid w)
  unfolding load_session_from_db
  load-Ends b sid w v =
      of (load_rounds ops w.clock.now sid (length w.databases) w.databases (start w.heap))
    where
      of :
          (o : Option (List D × Loading))
          → Ends {A = Store × LifeTime}
              (λ a u. IsSteady b u × (u.sessions ≡ w.sessions))
              (elim o [
                | none ↦ panics w
                | some (ds, l) ↦
                    done (l.store, l.lifetime) (record w { databases = ds; heap = l.heap })
              ])
      of none = tt
      of (some (ds, l)) = (
        record { mutex = v.mutex; idle = v.idle; owners = v.owners; distinct = v.distinct },
        refl,
      )

  -- The pointer to a session with the id, beside what the state before had.
  abbrev pub IsNewSession : GoString → World D → ℕ → World D → Type 0
  IsNewSession sid w p u =
      IsSteady false u
      × ((s : Session) × (get_elem? u.sessions p ≡ some s) × (s.sid ≡ sid))
      × Grows w.sessions u.sessions

  pub new_session-Ends :
      (sid : GoString) (expires : ℤ) (w : World D)
      → IsSteady false w
      → Ends (IsNewSession sid w) (new_session ops sid expires w)
  unfolding new_session
  new_session-Ends sid expires w v =
      Ends-continue (λ a u. IsSteady false u × (u.sessions ≡ w.sessions)) (IsNewSession sid w)
        (load_session_from_db ops sid w) _ (load-Ends false sid w v)
        (λ loaded u x. (
          record {
            mutex = x.0.mutex;
            idle = AllIdle-append u.sessions _ x.0.idle (refl, refl);
            owners = HasOwners-append u.table u.sessions _ x.0.owners;
            distinct = x.0.distinct;
          },
          (_, get_elem?-append_last u.sessions _, refl),
          (λ m o. HasOwners-append m u.sessions _ (rw x.1 o)),
        ))

  pub init-Keeps :
      (sid : GoString) (expires : ℤ) (w : World D)
      → IsSteady false w
      → Keeps false (init ops sid expires w)
  unfolding init unlock_provider
  init-Keeps sid expires w v =
      Ends-continue (IsNewSession sid w) (λ a u. IsSteady false u) (new_session ops sid expires w) _
        (new_session-Ends sid expires w v)
        (λ p u x. rw (lock_provider_free u x.0.mutex) (record {
          mutex = refl;
          idle = x.0.idle;
          owners = HasOwners-insert u.table u.sessions sid p x.1.0 x.0.owners x.1.1 x.1.2;
          distinct = insert-IsMap u.table sid p x.0.distinct;
        }))

  read_found-Keeps :
      (sid : GoString) (expires : ℤ) (found : Option ℕ) (w : World D)
      → IsSteady true w
      → Keeps false (read_found ops sid expires found w)
  unfolding read_found
  read_found-Keeps sid expires (some p) w v =
      Keeps-continue true false (run_flash_gc p w) _ (run_flash_gc-Keeps true p w v) (λ a u x.
        Keeps-continue false false (unlock_provider u) _ (unlock_provider-Keeps true u x)
          (λ b t y. y))
  read_found-Keeps sid expires none w v =
      Keeps-continue false false (unlock_provider w) _ (unlock_provider-Keeps true w v)
        (λ a u x. init-Keeps sid expires u x)

  pub read-Keeps :
      (sid : GoString) (expires : ℤ) (w : World D)
      → IsSteady false w
      → Keeps false (read ops sid expires w)
  unfolding read
  read-Keeps sid expires w v =
      Keeps-continue true false (lock_provider w) _ (lock_provider-Keeps w v)
        (λ a u x. read_found-Keeps sid expires (lookup u.table sid) u x)

  delete_session-Keeps :
      (p : ℕ) (w : World D) → IsSteady true w → Keeps true (delete_session ops p w)
  unfolding delete_session
  delete_session-Keeps p w v =
      Keeps-continue true true (deref p w) _ (deref-Keeps true p w v) (λ s u x.
        sync_databases-Keeps ops true s action_destroy none
          (record u { table = delete u.table s.sid })
          (record {
            mutex = x.mutex;
            idle = x.idle;
            owners = HasOwners-delete u.table u.sessions s.sid x.owners;
            distinct = delete-IsMap u.table s.sid x.distinct;
          }))

  destroy_found-Keeps :
      (o : Option ℕ) (w : World D) → IsSteady true w → Keeps true (destroy_found ops o w)
  unfolding destroy_found
  destroy_found-Keeps none w v = v
  destroy_found-Keeps (some p) w v = delete_session-Keeps p w v

  pub destroy-Keeps :
      (sid : GoString) (w : World D) → IsSteady false w → Keeps false (destroy ops sid w)
  unfolding destroy
  destroy-Keeps sid w v =
      Keeps-continue true false (lock_provider w) _ (lock_provider-Keeps w v) (λ a u x.
        Keeps-continue true false (destroy_found ops (lookup u.table sid) u) _
          (destroy_found-Keeps (lookup u.table sid) u x) (λ b t y. unlock_provider-Keeps true t y))

  delete_sessions-Keeps :
      (m : StringMap ℕ) (w : World D) → IsSteady true w → Keeps true (delete_sessions ops m w)
  unfolding delete_sessions
  delete_sessions-Keeps [] w v = v
  delete_sessions-Keeps ((k, p) ∷ m) w v =
      Keeps-continue true true (delete_session ops p w) _ (delete_session-Keeps p w v)
        (λ a u x. delete_sessions-Keeps m u x)

  pub destroy_all-Keeps : (w : World D) → IsSteady false w → Keeps false (destroy_all ops w)
  unfolding destroy_all
  destroy_all-Keeps w v =
      Keeps-continue true false (lock_provider w) _ (lock_provider-Keeps w v) (λ a u x.
        Keeps-continue true false (delete_sessions ops u.table u) _
          (delete_sessions-Keeps u.table u x) (λ b t y. unlock_provider-Keeps true t y))

  pub fire-Keeps : (t : ℕ) (w : World D) → IsSteady false w → Keeps false (fire ops t w)
  unfolding fire
  fire-Keeps t w v = elim (Option-cases (get_elem? w.clock.timers t)) [
    | inl e ↦ rw (e, fire) v
    | inr (timer, e) ↦
        rw (e, fire)
          (elim (Option-cases timer.armed) [
            | inl e' ↦ rw e' v
            | inr (due, e') ↦ rw e' (elim (Bool-cases (leb due w.clock.now)) [
              | inl e'' ↦ rw e'' (
                  destroy-Keeps timer.callback _ (record {
                    mutex = v.mutex;
                    idle = v.idle;
                    owners = v.owners;
                    distinct = v.distinct;
                  }))
              | inr e'' ↦ rw e'' v
            ])
          ])
  ]

module _ {D : Type 0} where
  pub register_database-Keeps :
      (d : D) (w : World D) → IsSteady false w → Keeps false (register_database d w)
  unfolding register_database
  register_database-Keeps d w v =
      Keeps-continue true false (lock_provider w) _ (lock_provider-Keeps w v) (λ a u x.
        unlock_provider-Keeps true _
          (record { mutex = x.mutex; idle = x.idle; owners = x.owners; distinct = x.distinct }))

  shift_found-Keeps :
      (expires : ℤ) (o : Option ℕ) (w : World D)
      → IsSteady false w
      → Keeps false (shift_found expires o w)
  unfolding shift_found
  shift_found-Keeps expires none w v = v
  shift_found-Keeps expires (some p) w v =
      Keeps-continue false false (deref p w) _ (deref-Keeps false p w v) (λ sess u x. record {
        mutex = x.mutex;
        idle = x.idle;
        owners = x.owners;
        distinct = x.distinct;
      })

  pub update_expiration-Keeps :
      (sid : GoString) (expires : ℤ) (w : World D)
      → IsSteady false w
      → Keeps false (update_expiration sid expires w)
  unfolding update_expiration
  update_expiration-Keeps sid expires w v = elim (Bool-cases (leb_ℤ expires (pos 0))) [
    | inl e ↦ rw (e, update_expiration) v
    | inr e ↦
        rw (e, update_expiration)
          (Keeps-continue true false (lock_provider w) _ (lock_provider-Keeps w v) (λ a u x.
            Keeps-continue false false (unlock_provider u) _ (unlock_provider-Keeps true u x)
              (λ b t y. shift_found-Keeps expires (lookup u.table sid) t y)))
  ]
