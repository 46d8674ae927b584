-- ===== src/Sessiondb/Goroutines.antt =====
-- The option `async` of the databases: what the goroutines of `Sync` leave behind.
use go_sessions.Base.{
  ℕ, zero, suc, codes, str_eq, str_eq_refl, ◌≡◌, refl, ap, ◌∙◌, true, false, List, [], ◌∷◌, ◌++◌,
  length,
}
use mathlib.Core.List.{append-nil, append_assoc}
use go_sessions.Value.{Heap}
use go_sessions.Database.{SyncPayload}
use go_sessions.Memstore.{Entry}
use go_sessions.Sessiondb.{
  Gob, KeyValue, IsLawful, KeepsBasic, AllBasic, Backend, set_async, dispatch, run_goroutine,
  seen_now, sent, is_destroy,
}
use go_sessions.Sessiondb.Bolt
use go_sessions.Sessiondb.Persistence.{bolt_persists}

abbrev pub queued : {T : Type 0} → T → List SyncPayload → Backend T
queued t ps = record { service = t; async = true; pending = ps }

abbrev at_once : {T : Type 0} → T → Backend T
at_once t = record { service = t; async = false; pending = [] }

module _ {T : Type 0} (sync : Heap → SyncPayload → T → T) (h : Heap) where
  -- The calls of `Sync`, one after another.
  abbrev dispatch_all : List SyncPayload → Backend T → Backend T
  dispatch_all [] db = db
  dispatch_all (p ∷ ps) db = dispatch_all ps (dispatch sync h p db)

  -- `n` goroutines run, each the first that is there, while no array changes.
  abbrev run_in_order : ℕ → Backend T → Backend T
  run_in_order zero db = db
  run_in_order (suc n) db = run_in_order n (run_goroutine sync (λ p. p.store.values.entries) h 0 db)

  -- `Sync` without goroutines.
  abbrev sync_all : List SyncPayload → T → T
  sync_all [] t = t
  sync_all (p ∷ ps) t = sync_all ps (sync h p t)

  dispatched :
      (ps qs : List SyncPayload) (t : T) → dispatch_all ps (queued t qs) ≡ queued t (qs ++ ps)
  unfolding dispatch
  dispatched [] qs t = rw (append-nil qs)
  dispatched (p ∷ ps) qs t =
      dispatched ps (qs ++ p ∷ []) t ∙ ap (queued t) (append_assoc qs (p ∷ []) ps)

  ran :
      (ps : List SyncPayload) (t : T)
      → run_in_order (length ps) (queued t ps) ≡ queued (sync_all ps t) []
  unfolding run_goroutine
  ran [] t = refl
  ran (p ∷ ps) t = ran ps (sync h p t)

  written : (ps : List SyncPayload) (t : T) → dispatch_all ps (at_once t) ≡ at_once (sync_all ps t)
  unfolding dispatch
  written [] t = refl
  written (p ∷ ps) t = written ps (sync h p t)

  -- Goroutines that run in the order of the calls of `Sync`, on a heap and arrays that nobody writes
  -- to, leave the database as those calls do without goroutines.
  async_in_order :
      (ps : List SyncPayload) (t : T)
      → (run_in_order (length ps) (dispatch_all ps (set_async true (at_once t)))).service
        ≡ (dispatch_all ps (set_async false (at_once t))).service
  unfolding set_async
  async_in_order ps t = rw (dispatched ps [] t) (rw (written ps t) (rw (ran ps t)))

module _ {Bytes T : Type 0} (gob : Gob Bytes) (kv : KeyValue Bytes T) where
  -- The second goroutine runs before the first.
  abbrev pub overtaken : (SyncPayload → List Entry) → Heap → T → SyncPayload → SyncPayload → T
  overtaken shown h t p q =
      (run_goroutine (Bolt.sync gob kv) shown h 0 (
        run_goroutine (Bolt.sync gob kv) shown h 1
          (dispatch_all (Bolt.sync gob kv) h (p ∷ q ∷ []) (queued t [])))).service

  overtaken_lem :
      (shown : SyncPayload → List Entry) (h : Heap) (t : T) (p q : SyncPayload)
      → shown p ≡ p.store.values.entries
      → overtaken shown h t p q ≡ Bolt.sync gob kv h p (Bolt.sync gob kv h (seen_now (shown q) q) t)
  unfolding dispatch run_goroutine
  overtaken_lem shown h t p q same =
      ap (λ kvs. Bolt.sync gob kv h (seen_now kvs p) (Bolt.sync gob kv h (seen_now (shown q) q) t))
        same

module _ {Bytes T : Type 0} (gob : Gob Bytes) (kv : KeyValue Bytes T) (law : IsLawful kv)
    (codec : KeepsBasic gob) where
  -- Of two payloads of one session, whose id is not empty, on an asynchronous bolt database, the
  -- first payload no destroy and with values that are no references, the database keeps what the
  -- first one says, if the goroutine of the second runs before that of the first, the write of the
  -- first returns no error, and its values still stand in their array by then, as they do where the
  -- second change is a destroy or a save under a new key. The later change is lost.
  pub update_lost :
      (shown : SyncPayload → List Entry) (h h' : Heap) (t : T) (p q : SyncPayload)
      → str_eq p.session_id (codes "") ≡ false
      → q.session_id ≡ p.session_id
      → is_destroy p.action ≡ false
      → AllBasic p.store.values.entries
      → shown p ≡ p.store.values.entries
      → ((u : T) → (kv.put p.session_id (gob.encode h p.store).0 u).1 ≡ false)
      → Bolt.load gob kv q.session_id h' (overtaken gob kv shown h t p q) ≡ (sent p.store, h')
  update_lost shown h h' t p q nonempty same stored basic kept put_works =
      let same_id : str_eq p.session_id q.session_id ≡ true = rw same (str_eq_refl p.session_id) in
      let u : T = Bolt.sync gob kv h (seen_now (shown q) q) t in
      rw (overtaken_lem gob kv shown h t p q kept) (
        rw
          (bolt_persists gob kv law h p u codec basic (rw stored (put_works u)) q.session_id
            (rw same nonempty) h')
          (rw same_id (rw stored)))
