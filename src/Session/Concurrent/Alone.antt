-- ===== src/Session/Concurrent/Alone.antt =====
-- One handler inside `set` of session.go, step by step.
use go_sessions.Base.{ℕ, GoString, ◌==◌, ◌≡◌, refl, Bool, true, false, some, [], ◌∷◌, get_elem?}
use go_sessions.Base.Outcome.{done}
use go_sessions.Value.{Value}
use go_sessions.Memstore.{Entry, save, len}
use go_sessions.Database.{
  Action, Database, SyncPayload, acquire_sync_payload, release_sync_payload, sync_all,
}
use go_sessions.World.{Session, World, put}
use go_sessions.World.Laws.{IsFree, lock_free, unlock-put, deref_lem, get-put}
use go_sessions.Session.{set_action, with_value, set_with, sync_databases}
use go_sessions.Session.Concurrent.{
  writer, saving, reporting, telling, told_all, next_stage, advance, interleave,
}

module _ {D : Type 0} (ops : Database D) (p : ℕ) (key : GoString) (v : Value) (i : Bool) where
  -- The session that a handler leaves behind.
  abbrev pub filled : Session → Session
  filled s = record s { values = (save s.values key v i).0; is_new = false; locked = false }

  abbrev pub change : Session → Action
  change s = set_action (len s.values == 0) (save s.values key v i).2

  pub saving_lem :
      (w : World D) (s : Session)
      → IsFree w p s
      → advance ops p (writer key v i saving) w
        ≡ done
            (writer key v i (reporting (change s) (save s.values key v i).1))
            (put p (filled s) w)
  unfolding advance next_stage
  saving_lem w s f =
      rw (lock_free w p s f.found f.unlocked f.unread, next_stage)
        (rw
          (unlock-put w p (record s { locked = true })
            (record s { values = (save s.values key v i).0; is_new = false; locked = true }))
          refl)

  abbrev pub report : World D → Session → Action → Entry → SyncPayload
  report w s action entry =
      with_value (some entry) (acquire_sync_payload w.pool s.sid s.values s.lifetime action).0

  pub reporting_lem :
      (w : World D) (s : Session) (action : Action) (entry : Entry)
      → get_elem? w.sessions p ≡ some s
      → advance ops p (writer key v i (reporting action entry)) w
        ≡ done
            (writer key v i (telling (report w s action entry)))
            (record w { pool = (acquire_sync_payload w.pool s.sid s.values s.lifetime action).1 })
  unfolding advance next_stage
  reporting_lem w s action entry h = rw (deref_lem w p s h, next_stage)

  -- The three steps of a handler in `set`, with nothing between them, are `set`: the same values in
  -- the session, and the same payload for the same databases.
  interleave-set_with :
      (w : World D) (s : Session)
      → IsFree w p s
      → (w' : World D) × (interleave ops p (0 ∷ 0 ∷ 0 ∷ []) (writer key v i saving ∷ []) w
          ≡ done (writer key v i told_all ∷ []) w')
        × (set_with ops p key v i w ≡ done tt w')
  unfolding interleave sync_databases set_with
  interleave-set_with w s f =
      let w1 : World D = put p (filled s) w in
      let q = report w1 (filled s) (change s) (save s.values key v i).1 in
      (
        record w1 {
          databases = sync_all ops w.clock.now w.heap q w.databases;
          pool =
              release_sync_payload
                (acquire_sync_payload w.pool s.sid (filled s).values s.lifetime (change s)).1 q;
        },
        rw (saving_lem w s f, interleave)
            (rw (
              reporting_lem w1 (filled s) (change s) (save s.values key v i).1
                  (get-put w p s (filled s) f.found),
              interleave,
            )),
        rw (lock_free w p s f.found f.unlocked f.unread, set_with)
            (rw
              (unlock-put w p (record s { locked = true })
                (record s { values = (save s.values key v i).0; is_new = false; locked = true }))
              refl),
      )
