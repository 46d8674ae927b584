-- ===== src/Session.antt =====
-- session.go: the methods of `*Session`, over the index `p` of the session.
pub mod Values
pub mod Deadlock
pub mod Sync
pub mod Flash
pub mod Concurrent
pub mod Section
use go_sessions.Base.{
  ℕ, GoString, ◌==◌, Bool, true, false, not, Option, none, some, List, [], ◌∷◌, length, ltb,
  if◌then◌else◌,
}
use go_sessions.Base.Outcome.{Outcome, done, panics, blocks, Exec, ◌>>=◌, ◌>>◌, pure}
use go_sessions.Value.{Value, nil, string, Heap}
use go_sessions.Memstore
use go_sessions.Memstore.{Entry, Store, save, remove, reset, len, visit}
use go_sessions.Database.{
  Action, action_create, action_insert, action_update, action_delete, action_clear, Database,
  acquire_sync_payload, release_sync_payload, sync_all, SyncPayload,
}
use go_sessions.World.{
  FlashMessage, StringMap, Session, World, lookup, delete, insert, deref, store, lock, unlock,
  read_lock, read_unlock,
}

-- What goes into the payload beside the session: `p.Value = entry`, or nothing.
abbrev pub with_value : Option Entry → SyncPayload → SyncPayload
with_value none payload = payload
with_value (some entry) payload = record payload { value = entry }

-- The maps that `GetAll` and `GetFlashes` build.
unfoldable pub collect : GoString → Value → StringMap Value → StringMap Value
collect key v m = insert m key v

unfoldable pub flash_values : StringMap FlashMessage → StringMap Value
flash_values [] = []
flash_values ((key, fv) ∷ m) = (key, fv.value) ∷ flash_values m

unfoldable pub mark_all : StringMap FlashMessage → StringMap FlashMessage
mark_all [] = []
mark_all ((key, fv) ∷ m) = (key, record fv { should_remove = true }) ∷ mark_all m

abbrev pub flash_value : Option FlashMessage → Value
flash_value none = nil
flash_value (some fv) = fv.value

-- The loop of `runFlashGC`.
unfoldable pub collect_garbage : StringMap FlashMessage → StringMap FlashMessage
collect_garbage [] = []
collect_garbage ((key, fv) ∷ m) =
    let rest = collect_garbage m in if fv.should_remove then rest else (key, fv) ∷ rest

-- The action that `set` reports.
unfoldable pub set_action : Bool → Bool → Action
set_action is_first is_new =
    if not is_first then (if is_new then action_insert else action_update) else action_create

module _ {D : Type 0} (ops : Database D) where
  -- `syncDatabases(s.provider.databases, p)` with `p := acquireSyncPayload(s, action)`.
  unfoldable pub sync_databases : Session → Action → Option Entry → Exec (World D) (Unit {0})
  sync_databases s action entry w =
      let (acquired, rest) = acquire_sync_payload w.pool s.sid s.values s.lifetime action in
      let payload = with_value entry acquired in
      done tt (record w {
        databases = sync_all ops w.clock.now w.heap payload w.databases;
        pool = release_sync_payload rest payload;
      })

  unfoldable pub set_with : ℕ → GoString → Value → Bool → Exec (World D) (Unit {0})
  unfolding set_action
  set_with p key v immutable = do
    s ← lock p
    let saved = save s.values key v immutable
    let s' : Session = record s { values = saved.0; is_new = false }
    unlock p s'
    sync_databases s' (set_action (len s.values == 0) saved.2) (some saved.1)

  -- `Set` and `SetImmutable`
  unfoldable pub set : ℕ → GoString → Value → Exec (World D) (Unit {0})
  unfolding set_with
  set p key v = set_with p key v false

  unfoldable pub set_immutable : ℕ → GoString → Value → Exec (World D) (Unit {0})
  unfolding set_with
  set_immutable p key v = set_with p key v true

  -- `Delete`
  unfoldable pub delete_value : ℕ → GoString → Exec (World D) Bool
  delete_value p key = do
    s ← lock p
    let cut = remove s.values key
    let s' : Session = record s { values = cut.0; is_new = if cut.1 then false else s.is_new }
    unlock p s'
    sync_databases s' action_delete
        (some (record { key = key; value_raw = nil; immutable = false }))
    pure cut.1

  unfoldable pub clear : ℕ → Exec (World D) (Unit {0})
  clear p = do
    s ← lock p
    let s' : Session = record s { values = reset s.values; is_new = false }
    unlock p s'
    sync_databases s' action_clear none

module _ {D : Type 0} where
  -- `ID` and `IsNew`
  unfoldable pub id_of : ℕ → Exec (World D) GoString
  id_of p = do s ← deref p; pure s.sid

  unfoldable pub is_new_of : ℕ → Exec (World D) Bool
  is_new_of p = do s ← deref p; pure s.is_new

  -- A panic of `f` passes the `RUnlock` by.
  abbrev pub reading : {A : Type 0} → (Heap → Option (A × Heap)) → Exec (World D) A
  reading f w = elim (f w.heap) [ none ↦ panics w | some (a, h) ↦ done a (record w { heap = h }) ]

  unfoldable pub get : ℕ → GoString → Exec (World D) Value
  get p key = do
    s ← read_lock p
    v ← reading (λ h. Memstore.get h s.values key)
    read_unlock p
    pure v

  unfoldable pub get_all : ℕ → Exec (World D) (StringMap Value)
  unfolding collect
  get_all p = do
    s ← read_lock p
    m ← reading (λ h. visit collect h s.values.entries [])
    read_unlock p
    pure m

  -- `VisitAll`, which takes no lock, for a visitor with a state of its own.
  unfoldable pub visit_all : {A : Type 0} → ℕ → (GoString → Value → A → A) → A → Exec (World D) A
  visit_all p visitor a = do s ← deref p; reading (λ h. visit visitor h s.values.entries a)

  unfoldable pub run_flash_gc : ℕ → Exec (World D) (Unit {0})
  unfolding collect_garbage
  run_flash_gc p = do s ← lock p; unlock p (record s { flashes = collect_garbage s.flashes })

  unfoldable pub has_flash : ℕ → Exec (World D) Bool
  has_flash p = do s ← deref p; pure (ltb 0 (length s.flashes))

  -- On the path that finds the message there is no `Unlock`.
  unfoldable pub peeked : ℕ → Session → Option FlashMessage → Exec (World D) (Option FlashMessage)
  peeked p s none = do unlock p s; pure none
  peeked p s (some fv) = pure (some fv)

  unfoldable pub peek_flash_message : ℕ → GoString → Exec (World D) (Option FlashMessage)
  unfolding peeked
  peek_flash_message p key = do s ← lock p; peeked p s (lookup s.flashes key)

  -- `fv.shouldRemove = true`, through the pointer that the map holds.
  unfoldable pub mark_flash : ℕ → GoString → FlashMessage → Exec (World D) (Unit {0})
  mark_flash p key fv = do
    s ← deref p
    store p (record s { flashes = insert s.flashes key (record fv { should_remove = true }) })

  unfoldable pub taken : ℕ → GoString → Option FlashMessage → Exec (World D) Value
  unfolding mark_flash
  taken p key none = pure nil
  taken p key (some fv) = do mark_flash p key fv; pure fv.value

  unfoldable pub get_flash : ℕ → GoString → Exec (World D) Value
  unfolding peek_flash_message taken
  get_flash p key = do found ← peek_flash_message p key; taken p key found

  unfoldable pub peek_flash : ℕ → GoString → Exec (World D) Value
  unfolding peek_flash_message
  peek_flash p key = do found ← peek_flash_message p key; pure (flash_value found)

  unfoldable pub get_flashes : ℕ → Exec (World D) (StringMap Value)
  unfolding flash_values mark_all
  get_flashes p = do
    s ← lock p
    unlock p (record s { flashes = mark_all s.flashes })
    pure (flash_values s.flashes)

  unfoldable pub set_flash : ℕ → GoString → Value → Exec (World D) (Unit {0})
  set_flash p key v = do
    s ← lock p
    unlock p
        (record s { flashes = insert s.flashes key (record { should_remove = false; value = v }) })

  unfoldable pub delete_flash : ℕ → GoString → Exec (World D) (Unit {0})
  delete_flash p key = do s ← lock p; unlock p (record s { flashes = delete s.flashes key })

  unfoldable pub clear_flashes : ℕ → Exec (World D) (Unit {0})
  clear_flashes p = do s ← lock p; unlock p (record s { flashes = [] })
