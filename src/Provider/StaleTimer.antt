-- ===== src/Provider/StaleTimer.antt =====
-- The timer of a session that provider.go destroyed: nothing stops it, and it names the session by
-- its id.
use go_sessions.Base.{
  ℕ, suc, ◌+◌, ◌≤◌, ◌<◌, GoString, str_eq_refl, ◌≡◌, refl, sym, ap, subst, ◌∙◌, Option, false, none,
  some, [], ◌∷◌, map, length, arith, get_elem?, get_elem?-append, get_elem?-append_last,
  get_elem?-lt,
}
use go_sessions.Base.Int.{pos}
use go_sessions.Base.Outcome.{done}
use go_sessions.Lifetime.{Clock, rearm, has_expired}
use go_sessions.Lifetime.Expiry.{IsArmed, with_timer}
use go_sessions.Database.{Database}
use go_sessions.World.{Session, World, lookup}
use go_sessions.World.Laws.{lookup-insert}
use go_sessions.Provider.{read, destroy, fire}
use go_sessions.Provider.Table.{destroy_removes, fresh_session, initialised, init_lem, read_missing}

-- Time passes between two calls.
abbrev pub later : {D : Type 0} → ℕ → World D → World D
later d w = record w { clock = record w.clock { now = w.clock.now + d } }

module _ {D : Type 0} (ops : Database D) where
  fire_due :
      (w : World D) (t due : ℕ) (sid : GoString)
      → get_elem? w.clock.timers t ≡ some (record { armed = some due; callback = sid })
      → due ≤ w.clock.now
      → fire ops t w ≡ destroy ops sid (record w { clock = rearm w.clock t none })
  unfolding fire
  fire_due w t due sid h over = ground arith

  -- A timer that is armed before a session is made is armed afterwards.
  timer_kept :
      (c : Clock GoString) (t due new : ℕ) (sid other : GoString)
      → get_elem? c.timers t ≡ some (record { armed = some due; callback = sid })
      → get_elem? (with_timer c new other).timers t
        ≡ some (record { armed = some due; callback = sid })
  timer_kept c t due new sid other h =
      get_elem?-append c.timers (record { armed = some new; callback = other } ∷ []) t
        (get_elem?-lt c.timers t (record { armed = some due; callback = sid }) h)
      ∙ h

  alive_lem :
      (now d n e : ℕ) (t : Option ℕ)
      → e < suc n
      → has_expired (now + d + e) (record { time = now + d + suc n; timer = t }) ≡ false
  unfolding has_expired
  alive_lem now d n e t h = ground arith

  -- With no database registered: a session is destroyed while its timer is armed for `due`; after
  -- `d` the client comes back with the same id and is given a new session that is to live for
  -- `suc n`; after `e` more the old timer fires. Then the new session is destroyed, though it has not
  -- expired by its own lifetime.
  pub stale_timer :
      (w : World D) (sid : GoString) (p : ℕ) (s : Session) (due d n e : ℕ)
      → w.locked ≡ false
      → w.databases ≡ []
      → lookup w.table sid ≡ some p
      → get_elem? w.sessions p ≡ some s
      → s.sid ≡ sid
      → (armed : IsArmed w.clock s.lifetime due sid) → due ≤ w.clock.now + d + e
      → e < suc n
      → (w1 w2 w3 : World D) × (p2 : ℕ) × (s2 : Session) × (destroy ops sid w ≡ done tt w1)
        × (read ops sid (pos (suc n)) (later d w1) ≡ done p2 w2)
        × (lookup w2.table sid ≡ some p2)
        × (get_elem? w2.sessions p2 ≡ some s2)
        × (has_expired (later e w2).clock.now s2.lifetime ≡ false)
        × (fire ops armed.at (later e w2) ≡ done tt w3)
        × (lookup w3.table sid ≡ none)
  stale_timer w sid p s due d n e free no_db in_table found same armed over alive =
      let first = destroy_removes ops w sid p s free in_table found same in
      let w1 : World D = first.0 in
      let clock : w1.clock ≡ w.clock = first.7 in
      let v1 : World D = record (later d w1) { locked = false } in
      let no_db1 : v1.databases ≡ [] = first.4 ∙ ap (map _) no_db in
      let gone : lookup w1.table sid ≡ none = first.3 sid ∙ rw (str_eq_refl sid) in
      let w2 : World D = initialised ops v1 sid n in
      let p2 : ℕ = length v1.sessions in
      let s2 : Session = fresh_session ops v1 sid n in
      let known : lookup w2.table sid ≡ some p2 =
        lookup-insert v1.table sid p2 sid ∙ rw (str_eq_refl sid) in
      let at2 : get_elem? w2.sessions p2 ≡ some s2 = get_elem?-append_last v1.sessions s2 in
      let old : get_elem? w1.clock.timers armed.at
          ≡ some (record { armed = some due; callback = sid }) =
        ap (λ (c : Clock GoString). get_elem? c.timers armed.at) clock ∙ armed.found in
      let ends : due ≤ w1.clock.now + d + e =
        subst (λ (c : Clock GoString). due ≤ c.now + d + e) (sym clock) over in
      let w2' : World D = record (later e w2) { clock = rearm (later e w2).clock armed.at none } in
      let second = destroy_removes ops w2' sid p2 s2 refl known at2 refl in
      (
        w1,
        w2,
        second.0,
        p2,
        s2,
        first.2,
        read_missing ops (later d w1) sid (pos (suc n)) first.8 gone
            ∙ init_lem ops v1 sid n refl no_db1,
        known,
        at2,
        alive_lem w1.clock.now d n e _ alive,
        fire_due (later e w2) armed.at due sid
              (timer_kept (later d w1).clock armed.at due _ sid sid old) ends
            ∙ second.2,
        second.3 sid ∙ rw (str_eq_refl sid),
      )
