-- ===== src/Sessiondb/Restart.antt =====
-- A session that survives the process: session.go and provider.go over a database.
use go_sessions.Base.{
  ℕ, GoString, codes, str_eq, str_eq_refl, ◌≡◌, refl, ap, sym, ◌∙◌, Bool, false, Option, none, some,
  List, [], ◌∷◌, arith, map,
}
use go_sessions.Base.Outcome.{done}
use go_sessions.Value.{Value, Heap}
use go_sessions.Memstore.{Entry, Store, save, find}
use go_sessions.Memstore.Lookup.{IsUnique}
use go_sessions.Memstore.Immutable.{save-IsUnique}
use go_sessions.Memstore.Mutable.{AllMutable, raw, or_else}
use go_sessions.Lifetime.{LifeTime, has_expired, zero_lifetime, is_zero}
use go_sessions.Database.{Database, RemoteStore, SyncPayload}
use go_sessions.World.{Session, World}
use go_sessions.World.Laws.{IsFree}
use go_sessions.Session.{set_with}
use go_sessions.Session.Sync.{save_action, set_syncs}
use go_sessions.Provider.{load_session_from_db}
use go_sessions.Provider.Merge.{load_merges, remotes, first_lifetime, newest}
use go_sessions.Sessiondb.{
  Gob, KeyValue, IsLawful, KeepsBasic, AllBasic, Backend, exported, sent, is_destroy, dispatch,
}
use go_sessions.Sessiondb.Bolt
use go_sessions.Sessiondb.Persistence.{bolt_persists}

-- What the provider counts on: a database that was told of the session with this id gives its store
-- back, if the values are no references.
pub record IsPersistent {D : Type 0} (ops : Database D) (d : D) (sid : GoString) : Type 0 where
  pub load-sync :
      (now later : ℕ) (h h' : Heap) (q : SyncPayload)
      → q.session_id ≡ sid
      → is_destroy q.action ≡ false
      → AllBasic q.store.values.entries
      → (ops.load later q.session_id h' (ops.sync now h q d)).0 ≡ sent q.store

bolt_gives_back :
    {Bytes T : Type 0} (gob : Gob Bytes) (kv : KeyValue Bytes T) (db : Backend T) (sid : GoString)
    → IsLawful kv
    → KeepsBasic gob
    → ((h : Heap) (r : RemoteStore) → (kv.put sid (gob.encode h r).0 db.service).1 ≡ false)
    → db.async ≡ false
    → str_eq sid (codes "") ≡ false
    → (h h' : Heap) (q : SyncPayload) → q.session_id ≡ sid
    → is_destroy q.action ≡ false
    → AllBasic q.store.values.entries
    → (Bolt.load gob kv q.session_id h' (dispatch (Bolt.sync gob kv) h q db).service).0
      ≡ sent q.store
unfolding dispatch
bolt_gives_back gob kv db sid law codec put_works at_once nonempty h h' q same stored basic =
    rw at_once (
      rw
        (bolt_persists gob kv law h q db.service codec basic
          (rw stored (rw same (put_works h q.store))) q.session_id (rw same nonempty) h')
        (rw (str_eq_refl q.session_id) (rw stored)))

-- Bolt, without goroutines, where no write under the id returns an error.
pub bolt-IsPersistent :
    {Bytes T : Type 0} (gob : Gob Bytes) (kv : KeyValue Bytes T) (db : Backend T) (sid : GoString)
    → IsLawful kv
    → KeepsBasic gob
    → ((h : Heap) (r : RemoteStore) → (kv.put sid (gob.encode h r).0 db.service).1 ≡ false)
    → db.async ≡ false
    → str_eq sid (codes "") ≡ false
    → IsPersistent (Bolt.database gob kv) db sid
bolt-IsPersistent gob kv db sid law codec put_works at_once nonempty = record {
  load-sync = λ now later h h' q same stored basic.
      bolt_gives_back gob kv db sid law codec put_works at_once nonempty h h' q same stored basic;
}

exported-find : (kvs : List Entry) (k : GoString) → raw (find (exported kvs) k) ≡ raw (find kvs k)
unfolding find
exported-find [] k = refl
exported-find (kv ∷ kvs) k = ground (arith, exported-find kvs k)

exported-missing :
    (kvs : List Entry) (k : GoString) → find kvs k ≡ none → find (exported kvs) k ≡ none
unfolding find
exported-missing [] k h = refl
exported-missing (kv ∷ kvs) k h = ground (arith, exported-missing kvs k)

exported-IsUnique : (kvs : List Entry) → IsUnique kvs → IsUnique (exported kvs)
exported-IsUnique [] u = tt
exported-IsUnique (kv ∷ kvs) u = (exported-missing kvs kv.key u.0, exported-IsUnique kvs u.1)

exported-AllMutable : (kvs : List Entry) → AllMutable (exported kvs)
exported-AllMutable [] = tt
exported-AllMutable (kv ∷ kvs) = (refl, exported-AllMutable kvs)

not_destroyed : (kvs : List Entry) (key : GoString) → is_destroy (save_action kvs key) ≡ false
unfolding is_destroy
not_destroyed [] key = refl
not_destroyed (kv ∷ kvs) key = ground arith

-- What one database that has not expired makes of a new session.
lifetime_of :
    (now : ℕ) (r : RemoteStore)
    → has_expired now r.lifetime ≡ false
    → (first_lifetime now (sent r ∷ []) zero_lifetime).time ≡ r.lifetime.time
unfolding has_expired is_zero
lifetime_of now r alive = rw alive

values_of :
    (now : ℕ) (r : RemoteStore) (k : GoString)
    → has_expired now r.lifetime ≡ false
    → newest now (sent r ∷ []) k none ≡ raw (find r.values.entries k)
unfolding has_expired is_zero
values_of now r k alive =
    rw alive (nothing_else (find (exported r.values.entries) k) ∙ exported-find r.values.entries k)
  where
    nothing_else : (o : Option Entry) → or_else o none ≡ raw o
    nothing_else none = refl
    nothing_else (some kv) = refl

module _ {D : Type 0} (ops : Database D) where
  remotes_lem :
      (d : D) (q : SyncPayload) (r : RemoteStore) (now later : ℕ) (h h' : Heap) (sid : GoString)
      (ds : List D)
      → IsPersistent ops d sid
      → q.session_id ≡ sid
      → is_destroy q.action ≡ false
      → AllBasic q.store.values.entries
      → q.store ≡ r
      → ds ≡ map (ops.sync now h q) (d ∷ [])
      → remotes ops later sid h' ds ≡ sent r ∷ []
  remotes_lem d q r now later h h' sid ds lasts same stored basic store e = rw e (
      ap (λ x. x ∷ [])
        (ap (λ k. (ops.load later k h' (ops.sync now h q d)).0) (sym same)
          ∙ lasts.load-sync now later h h' q same stored basic
          ∙ ap sent store))

  pub set_survives :
      (w next : World D) (d : D) (p : ℕ) (s : Session) (key : GoString) (v : Value) (i : Bool)
      → IsFree w p s
      → IsUnique s.values.entries
      → AllBasic (save s.values key v i).0.entries
      → w.databases ≡ d ∷ []
      → IsPersistent ops d s.sid
      → has_expired next.clock.now s.lifetime ≡ false
      → (w1 w2 : World D) × (values : Store) × (lifetime : LifeTime) × (set_with ops p key v i w
          ≡ done tt w1)
        × (load_session_from_db ops s.sid (record next { databases = w1.databases })
            ≡ done (values, lifetime) w2)
        × (lifetime.time ≡ s.lifetime.time)
        × ((k : GoString)
            → raw (find values.entries k) ≡ raw (find (save s.values key v i).0.entries k))
  set_survives w next d p s key v i free unique basic one lasts alive =
      let told = set_syncs ops w p s key v i free in
      let kvs : List Entry = (save s.values key v i).0.entries in
      let r : RemoteStore = record { values = (save s.values key v i).0; lifetime = s.lifetime } in
      let given : remotes ops next.clock.now s.sid next.heap told.0.databases ≡ sent r ∷ [] =
        remotes_lem d told.1 r w.clock.now next.clock.now w.heap next.heap s.sid told.0.databases
          lasts told.5 (rw told.6 (not_destroyed s.values.entries key)) (rw told.8 basic) told.8
          (rw (told.4, one)) in
      let loaded =
        load_merges ops (record next { databases = told.0.databases }) s.sid
          (rw given (
            (
              exported-IsUnique kvs (save-IsUnique s.values key v i unique),
              exported-AllMutable kvs,
            ),
            tt,
          )) in
      (
        told.0,
        loaded.0,
        loaded.1,
        loaded.2,
        told.2,
        loaded.3,
        ap (λ lt. lt.time) loaded.4 ∙ rw given (lifetime_of next.clock.now r alive),
        λ k. loaded.5 k ∙ rw given (values_of next.clock.now r k alive),
      )
