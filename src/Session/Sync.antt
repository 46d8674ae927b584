-- ===== src/Session/Sync.antt =====
-- What the calls of session.go that change the values do to the session, and what they tell the
-- databases.
use go_sessions.Base.{
  ℕ, GoString, ◌==◌, ◌≡◌, refl, ap, ◌∙◌, Bool, true, false, none, some, Option, List, [], ◌∷◌, map,
  arith, get_elem?, length, if◌then◌else◌, not, ◌&&◌,
}
use go_sessions.Base.Outcome.{done}
use go_sessions.Value.{Value, nil}
use go_sessions.Memstore.{Entry, save, remove, reset, find, len}
use go_sessions.Memstore.Lookup.{is_none, saved, save_lem, remove_lem}
use go_sessions.Database.{
  Action, action_create, action_insert, action_update, action_delete, action_clear, Database,
  SyncPayload, acquire_sync_payload, release_sync_payload,
}
use go_sessions.Database.Payload.{
  IsBlank, AllBlank, sync_all-map, acquire_lem, acquire-IsBlank, rest-AllBlank, release-AllBlank,
}
use go_sessions.World.{Session, World, put}
use go_sessions.World.Laws.{get-put, lock_free, unlock-put, IsFree}
use go_sessions.Session.{sync_databases, with_value, set_action, set_with, delete_value, clear}

-- The action that a save under a key is, by what the session held before.
abbrev pub save_action : List Entry → GoString → Action
save_action [] key = action_create
save_action (kv ∷ kvs) key = if is_none (find (kv ∷ kvs) key) then action_insert else action_update

set_action_lem :
    (kvs : List Entry) (key : GoString)
    → set_action (length kvs == 0) (is_none (find kvs key)) ≡ save_action kvs key
unfolding set_action
set_action_lem [] key = refl
set_action_lem (kv ∷ kvs) key = ground arith

still_new : (b n : Bool) → (if not b then false else n) ≡ b && n
still_new b n = ground arith

module _ {D : Type 0} (ops : Database D) where
  -- The payload of a session's call, and the state once the databases were told.
  unfoldable pub payload : World D → Session → Action → Option Entry → SyncPayload
  payload w s action entry =
      with_value entry (acquire_sync_payload w.pool s.sid s.values s.lifetime action).0

  unfoldable pub told : World D → Session → Action → Option Entry → World D
  told w s action entry = record w {
    databases = map (ops.sync w.clock.now w.heap (payload w s action entry)) w.databases;
    pool =
        release_sync_payload (acquire_sync_payload w.pool s.sid s.values s.lifetime action).1
          (payload w s action entry);
  }

  pub sync_lem :
      (w : World D) (s : Session) (action : Action) (entry : Option Entry)
      → sync_databases ops s action entry w ≡ done tt (told w s action entry)
  unfolding sync_databases told payload
  sync_lem w s action entry = rw (sync_all-map ops)

  -- A call that locks the session, gives it new fields and tells the databases.
  pub set_with_lem :
      (w : World D) (p : ℕ) (s : Session) (key : GoString) (v : Value) (i : Bool)
      → IsFree w p s
      → let s' : Session = record s {
        values = (save s.values key v i).0;
        is_new = false;
        locked = true;
      } in
        set_with ops p key v i w
        ≡ done tt (
            told
              (put p (record s' { locked = false }) w)
              s'
              (set_action (len s.values == 0) (save s.values key v i).2)
              (some (save s.values key v i).1))
  unfolding set_with
  set_with_lem w p s key v i f =
      let held : Session = record s { locked = true } in
      let s' : Session = record s {
        values = (save s.values key v i).0;
        is_new = false;
        locked = true;
      } in
      rw (lock_free w p s f.found f.unlocked f.unread, set_with)
        (rw (unlock-put w p held s') (sync_lem (put p (record s' { locked = false }) w) s' _ _))

  -- `Set` and `SetImmutable` of a session that nobody holds return. The session then has the saved
  -- values and is not new, and each database was told once, in one payload: the session's id, its
  -- values after the call with its lifetime, the entry that now stands under the key, and the
  -- action: create if the session was empty, insert if the key is new, update otherwise.
  pub set_syncs :
      (w : World D) (p : ℕ) (s : Session) (key : GoString) (v : Value) (i : Bool)
      → IsFree w p s
      → (w' : World D) × (q : SyncPayload) × (set_with ops p key v i w ≡ done tt w')
        × (get_elem? w'.sessions p
            ≡ some
                (record s { values = (save s.values key v i).0; is_new = false; locked = false }))
        × (w'.databases ≡ map (ops.sync w.clock.now w.heap q) w.databases)
        × (q.session_id ≡ s.sid)
        × (q.action ≡ save_action s.values.entries key)
        × (q.value ≡ saved (find s.values.entries key) key v i)
        × (q.store ≡ record { values = (save s.values key v i).0; lifetime = s.lifetime })
  unfolding told payload len
  set_syncs w p s key v i f =
      let s' : Session = record s {
        values = (save s.values key v i).0;
        is_new = false;
        locked = true;
      } in
      let action : Action = set_action (len s.values == 0) (save s.values key v i).2 in
      let entry : Option Entry = some (save s.values key v i).1 in
      let w1 : World D = put p (record s' { locked = false }) w in
      let acquired = acquire_lem w.pool s.sid (save s.values key v i).0 s.lifetime action in
      (
        told w1 s' action entry,
        payload w1 s' action entry,
        set_with_lem w p s key v i f,
        get-put w p s (record s' { locked = false }) f.found,
        refl,
        acquired.0,
        rw (acquired.1, (save_lem s.values key v i).1) (set_action_lem s.values.entries key),
        (save_lem s.values key v i).0,
        acquired.2,
      )

  abbrev pub without_key : Session → GoString → Session
  without_key s key = record s {
    values = (remove s.values key).0;
    is_new = if (remove s.values key).1 then false else s.is_new;
    locked = true;
  }

  abbrev pub deleted : GoString → Option Entry
  deleted key = some (record { key = key; value_raw = nil; immutable = false })

  pub delete_lem :
      (w : World D) (p : ℕ) (s : Session) (key : GoString)
      → IsFree w p s
      → delete_value ops p key w
        ≡ done (not (is_none (find s.values.entries key))) (
            told
              (put p (record (without_key s key) { locked = false }) w)
              (without_key s key)
              action_delete
              (deleted key))
  unfolding delete_value
  delete_lem w p s key f =
      let w1 : World D = put p (record (without_key s key) { locked = false }) w in
      rw (lock_free w p s f.found f.unlocked f.unread, delete_value)
        (rw (unlock-put w p (record s { locked = true }) (without_key s key)) (
          rw (sync_lem w1 (without_key s key) action_delete (deleted key)) (
            ap (λ b. done b (told w1 (without_key s key) action_delete (deleted key)))
              (remove_lem s.values key).1)))

  -- `Delete` of a session that nobody holds returns whether the key was there. The session then has
  -- the other values, and counts as not new if the key was there; each database was told the key,
  -- with the values after the call and the session's lifetime, whether or not the key was there.
  pub delete_syncs :
      (w : World D) (p : ℕ) (s : Session) (key : GoString)
      → IsFree w p s
      → (w' : World D) × (q : SyncPayload) × (delete_value ops p key w
          ≡ done (not (is_none (find s.values.entries key))) w')
        × (get_elem? w'.sessions p
            ≡ some (record s {
              values = (remove s.values key).0;
              is_new = is_none (find s.values.entries key) && s.is_new;
              locked = false;
            }))
        × (w'.databases ≡ map (ops.sync w.clock.now w.heap q) w.databases)
        × (q.session_id ≡ s.sid)
        × (q.action ≡ action_delete)
        × (q.value ≡ record { key = key; value_raw = nil; immutable = false })
        × (q.store ≡ record { values = (remove s.values key).0; lifetime = s.lifetime })
  unfolding told payload
  delete_syncs w p s key f =
      let cut = remove s.values key in
      let s' : Session = without_key s key in
      let w1 : World D = put p (record s' { locked = false }) w in
      let acquired = acquire_lem w.pool s.sid cut.0 s.lifetime action_delete in
      (
        told w1 s' action_delete (deleted key),
        payload w1 s' action_delete (deleted key),
        delete_lem w p s key f,
        get-put w p s (record s' { locked = false }) f.found
            ∙ ap (λ b. some (record s { values = cut.0; is_new = b; locked = false }))
                (ap (λ b. if b then false else s.is_new) (remove_lem s.values key).1
                  ∙ still_new (is_none (find s.values.entries key)) s.is_new),
        refl,
        acquired.0,
        acquired.1,
        refl,
        acquired.2,
      )

  pub clear_lem :
      (w : World D) (p : ℕ) (s : Session)
      → IsFree w p s
      → let s' : Session = record s { values = reset s.values; is_new = false; locked = true } in
        clear ops p w ≡ done tt (told (put p (record s' { locked = false }) w) s' action_clear none)
  unfolding clear
  clear_lem w p s f =
      let held : Session = record s { locked = true } in
      let s' : Session = record held { values = reset s.values; is_new = false } in
      rw (lock_free w p s f.found f.unlocked f.unread, clear)
        (rw (unlock-put w p held s') (sync_lem (put p (record s' { locked = false }) w) s' _ _))

  -- `Clear` of a session that nobody holds returns. The session then has no values and is not new,
  -- and each database was told a clear with an empty store and the session's lifetime; where the
  -- pool holds only payloads that a call gave back, the payload has no key and no value.
  pub clear_syncs :
      (w : World D) (p : ℕ) (s : Session)
      → IsFree w p s
      → AllBlank w.pool
      → (w' : World D) × (q : SyncPayload) × (clear ops p w ≡ done tt w')
        × (get_elem? w'.sessions p
            ≡ some (record s { values = reset s.values; is_new = false; locked = false }))
        × ((reset s.values).entries ≡ [])
        × (w'.databases ≡ map (ops.sync w.clock.now w.heap q) w.databases)
        × (q.session_id ≡ s.sid)
        × (q.action ≡ action_clear)
        × IsBlank q
        × (q.store ≡ record { values = reset s.values; lifetime = s.lifetime })
        × AllBlank w'.pool
  unfolding told payload reset
  clear_syncs w p s f blank =
      let s' : Session = record s { values = reset s.values; is_new = false; locked = true } in
      let w1 : World D = put p (record s' { locked = false }) w in
      let acquired = acquire_lem w.pool s.sid (reset s.values) s.lifetime action_clear in
      (
        told w1 s' action_clear none,
        payload w1 s' action_clear none,
        clear_lem w p s f,
        get-put w p s (record s' { locked = false }) f.found,
        refl,
        refl,
        acquired.0,
        acquired.1,
        acquire-IsBlank w.pool s.sid (reset s.values) s.lifetime action_clear blank,
        acquired.2,
        release-AllBlank _ _
            (rest-AllBlank w.pool s.sid (reset s.values) s.lifetime action_clear blank),
      )
