-- ===== src/World.antt =====
-- The state that a call of the package reads and writes: the provider (provider.go), the sessions
-- that it and its callers point to (session.go), the pool of payloads, the heap and the clock. A
-- `*Session` is an index into the list of sessions. `D` is the type of a registered database.
pub mod Laws
use go_sessions.Base.{
  ℕ, ◌+◌, ◌-◌, GoString, str_eq, Bool, true, false, ◌||◌, ltb, Option, none, some, List, [], ◌∷◌,
  get_elem?, set, if◌then◌else◌,
}
use go_sessions.Base.Outcome.{Outcome, done, panics, blocks, Exec, ◌>>=◌, ◌>>◌}
use go_sessions.Value.{Value, Heap}
use go_sessions.Memstore.{Store}
use go_sessions.Lifetime.{LifeTime, Clock}
use go_sessions.Database.{SyncPayload, Action, Database, acquire_sync_payload}

pub record FlashMessage : Type 0 where
  pub should_remove : Bool
  pub value : Value

-- A map from strings, as the list of its pairs.
abbrev pub StringMap : Type 0 → Type 0
StringMap V = List (GoString × V)

-- `mu` is held for writing if `locked`, and for reading by `readers` calls.
pub record Session : Type 0 where
  pub sid : GoString
  pub is_new : Bool
  pub values : Store
  pub flashes : StringMap FlashMessage
  pub locked : Bool
  pub readers : ℕ
  pub lifetime : LifeTime

-- A timer calls `p.Destroy(sid)` and carries the `sid`. `table` is the provider's field `sessions`,
-- and `locked` its `mu`.
pub record World (D : Type 0) : Type 0 where
  pub clock : Clock GoString
  pub heap : Heap
  pub sessions : List Session
  pub table : StringMap ℕ
  pub databases : List D
  pub pool : List SyncPayload
  pub locked : Bool

module _ {V : Type 0} where
  unfoldable pub lookup : StringMap V → GoString → Option V
  lookup [] key = none
  lookup ((k, v) ∷ m) key = if str_eq k key then some v else lookup m key

  -- `delete(m, key)`
  unfoldable pub delete : StringMap V → GoString → StringMap V
  delete [] key = []
  delete ((k, v) ∷ m) key = let rest = delete m key in if str_eq k key then rest else (k, v) ∷ rest

  -- `m[key] = v`
  unfoldable pub insert : StringMap V → GoString → V → StringMap V
  unfolding delete
  insert m key v = (key, v) ∷ delete m key

module _ {D : Type 0} where
  -- `s := &w.sessions[p]`; a pointer that is not there is a nil pointer.
  unfoldable pub deref : ℕ → Exec (World D) Session
  deref p w = elim (get_elem? w.sessions p) [ none ↦ panics w | some s ↦ done s w ]

  abbrev pub put : ℕ → Session → World D → World D
  put p s w = record w { sessions = set w.sessions p s }

  unfoldable pub store : ℕ → Session → Exec (World D) (Unit {0})
  store p s w = done tt (put p s w)

  -- `s.mu.Lock()`, after which the session is read. A writer that waits keeps later readers out.
  unfoldable pub lock : ℕ → Exec (World D) Session
  unfolding deref
  lock p = do
    s ← deref p
    let s' : Session = record s { locked = true }
    λ w. if s.locked || ltb 0 s.readers then blocks (put p s' w) else done s' (put p s' w)

  -- `s.mu.Unlock()`, with the fields as they are by then.
  unfoldable pub unlock : ℕ → Session → Exec (World D) (Unit {0})
  unfolding store
  unlock p s = store p (record s { locked = false })

  -- `s.mu.RLock()` and `s.mu.RUnlock()`.
  unfoldable pub read_lock : ℕ → Exec (World D) Session
  unfolding deref
  read_lock p = do
    s ← deref p
    let s' : Session = record s { readers = s.readers + 1 }
    λ w. if s.locked then blocks w else done s' (put p s' w)

  unfoldable pub read_unlock : ℕ → Exec (World D) (Unit {0})
  unfolding deref store
  read_unlock p = do s ← deref p; store p (record s { readers = s.readers - 1 })

  -- `p.mu.Lock()` and `p.mu.Unlock()` of the provider.
  unfoldable pub lock_provider : Exec (World D) (Unit {0})
  lock_provider w = if w.locked then blocks w else done tt (record w { locked = true })

  unfoldable pub unlock_provider : Exec (World D) (Unit {0})
  unlock_provider w = done tt (record w { locked = false })
