-- ===== src/Session/Section.antt =====
-- `set` of session.go from `Lock` to `Unlock`, when several handlers of one client are there: the
-- read and the write of the session's values are steps of their own, and a handler that finds the
-- mutex taken stays where it is.
pub mod Guard
pub mod Serial
use go_sessions.Base.{
  ℕ, GoString, Bool, true, false, ◌||◌, ◌==◌, ltb, Option, none, some, List, [], ◌∷◌, get_elem?,
  set, if◌then◌else◌,
}
use go_sessions.Base.Outcome.{Outcome, done, panics, blocks, Exec, ◌>>=◌, ◌>>◌, pure}
use go_sessions.Value.{Value}
use go_sessions.Memstore.{Entry, Store, save, len}
use go_sessions.Database.{Action, Database}
use go_sessions.World.{Session, World, lock, unlock, deref, store}
use go_sessions.Session.{set_action}

-- Where a handler is: before `Lock`, before it reads the values, with those that it read, before
-- `Unlock`, and after it.
pub data Place : Type 0 where
  arriving reading : Place
  writing : Store → Place
  leaving left : Action → Entry → Place

pub record Saver : Type 0 where
  pub key : GoString
  pub value : Value
  pub immutable : Bool
  pub place : Place

module _ {D : Type 0} (p : ℕ) where
  unfoldable pub next_place : Saver → Place → Exec (World D) Place
  next_place x arriving = do
    s ← deref p
    if s.locked || ltb 0 s.readers then pure arriving else (do lock p; pure reading)
  next_place x reading = do s ← deref p; pure (writing s.values)
  next_place x (writing r) = do
    s ← deref p
    let saved = save r x.key x.value x.immutable
    store p (record s { values = saved.0; is_new = false })
    pure (leaving (set_action (len r == 0) saved.2) saved.1)
  next_place x (leaving action entry) = do s ← deref p; unlock p s; pure (left action entry)
  next_place x (left action entry) = pure (left action entry)

  unfoldable pub advance : Saver → Exec (World D) Saver
  unfolding next_place
  advance x = do place ← next_place x x.place; pure (record x { place = place })

  -- The handlers, after steps of those with the given numbers, in that order.
  unfoldable pub interleave : List ℕ → List Saver → Exec (World D) (List Saver)
  unfolding advance
  interleave [] xs = pure xs
  interleave (n ∷ ns) xs = elim (get_elem? xs n) [
    | none ↦ interleave ns xs
    | some x ↦ do y ← advance x; interleave ns (set xs n y)
  ]
