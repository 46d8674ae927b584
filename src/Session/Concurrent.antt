-- ===== src/Session/Concurrent.antt =====
-- `set` of session.go when several handlers of one client are inside it. A step goes up to where
-- another goroutine can come in between: `set` unlocks the session before it makes the payload, and
-- makes it before it tells the databases.
pub mod Alone
pub mod Lost
use go_sessions.Base.{
  ℕ, GoString, ◌==◌, Bool, Option, none, some, List, [], ◌∷◌, get_elem?, set, false,
}
use go_sessions.Base.Outcome.{Exec, ◌>>=◌, ◌>>◌, pure, gets, modify}
use go_sessions.Value.{Value}
use go_sessions.Memstore.{Entry, save, len}
use go_sessions.Database.{
  Action, Database, SyncPayload, acquire_sync_payload, release_sync_payload, sync_all,
}
use go_sessions.World.{Session, World, lock, unlock, deref}
use go_sessions.Session.{set_action, with_value}

-- Where a handler is: before it locks the session, with the action and the entry that it has to
-- report, with its payload, and after the databases were told.
pub data Stage : Type 0 where
  saving : Stage
  reporting : Action → Entry → Stage
  telling : SyncPayload → Stage
  told_all : Stage

-- A handler inside `set`, with the arguments.
pub record Writer : Type 0 where
  pub key : GoString
  pub value : Value
  pub immutable : Bool
  pub stage : Stage

abbrev pub writer : GoString → Value → Bool → Stage → Writer
writer key v i stage = record { key = key; value = v; immutable = i; stage = stage }

module _ {D : Type 0} (ops : Database D) (p : ℕ) where
  -- `acquireSyncPayload` reads the session again, without a lock.
  unfoldable pub next_stage : Writer → Stage → Exec (World D) Stage
  next_stage x saving = do
    s ← lock p
    let saved = save s.values x.key x.value x.immutable
    unlock p (record s { values = saved.0; is_new = false })
    pure (reporting (set_action (len s.values == 0) saved.2) saved.1)
  next_stage x (reporting action entry) = do
    s ← deref p
    pool ← gets (λ w. w.pool)
    let acquired = acquire_sync_payload pool s.sid s.values s.lifetime action
    modify (λ w. record w { pool = acquired.1 })
    pure (telling (with_value (some entry) acquired.0))
  next_stage x (telling payload) = do
    modify (λ w. record w {
      databases = sync_all ops w.clock.now w.heap payload w.databases;
      pool = release_sync_payload w.pool payload;
    })
    pure told_all
  next_stage x told_all = pure told_all

  unfoldable pub advance : Writer → Exec (World D) Writer
  unfolding next_stage
  advance x = do stage ← next_stage x x.stage; pure (record x { stage = stage })

  -- The handlers, after steps of those with the given numbers, in that order.
  unfoldable pub interleave : List ℕ → List Writer → Exec (World D) (List Writer)
  unfolding advance
  interleave [] xs = pure xs
  interleave (n ∷ ns) xs = elim (get_elem? xs n) [
    | none ↦ interleave ns xs
    | some x ↦ do y ← advance x; interleave ns (set xs n y)
  ]
