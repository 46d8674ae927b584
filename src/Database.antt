-- ===== src/Database.antt =====
-- database.go: what a session database is told, the pool of payloads, and the interface that the
-- databases implement. A registered database is a value of type `D`.
pub mod Payload
use go_sessions.Base.{
  ℕ, GoString, Bool, false, Option, none, some, List, [], ◌∷◌, arith, if◌then◌else◌,
}
use go_sessions.Value.{Value, nil, Heap}
use go_sessions.Memstore.{Entry, Store, zero_entry, nil_store}
use go_sessions.Lifetime.{LifeTime, zero_lifetime}

pub data Action : Type 0 where
  action_create action_insert action_update action_delete action_clear action_destroy : Action

pub record RemoteStore : Type 0 where
  pub values : Store
  pub lifetime : LifeTime

abbrev pub zero_remote : RemoteStore
zero_remote = record { values = nil_store; lifetime = zero_lifetime }

pub record SyncPayload : Type 0 where
  pub session_id : GoString
  pub action : Action
  pub value : Entry
  pub store : RemoteStore

-- `Database`. `Load` may change the database (it may connect) and puts what it decodes on the heap.
-- `Sync` reads the heap. Both are told the time.
pub record Database (D : Type 0) : Type 0 where
  pub load : ℕ → GoString → Heap → D → RemoteStore × D × Heap
  pub sync : ℕ → Heap → SyncPayload → D → D

abbrev pub zero_payload : SyncPayload
zero_payload = record {
  session_id = [];
  action = action_create;
  value = zero_entry;
  store = zero_remote;
}

-- `spPool.Get`: some payload that was put back, or a new one.
unfoldable pub pool_get : List SyncPayload → SyncPayload × List SyncPayload
pool_get [] = (zero_payload, [])
pool_get (p ∷ ps) = (p, ps)

-- The session's fields come as arguments.
unfoldable pub acquire_sync_payload :
    List SyncPayload → GoString → Store → LifeTime → Action → SyncPayload × List SyncPayload
unfolding pool_get
acquire_sync_payload pool sid values lifetime action =
    let (p, rest) = pool_get pool in
    (
      record p {
        session_id = sid;
        store = record { values = values; lifetime = lifetime };
        action = action;
      },
      rest,
    )

unfoldable pub release_sync_payload : List SyncPayload → SyncPayload → List SyncPayload
release_sync_payload pool p =
    record p { value = record p.value { key = []; value_raw = nil } } ∷ pool

-- The loop over the databases.
unfoldable pub sync_all : {D : Type 0} → Database D → ℕ → Heap → SyncPayload → List D → List D
sync_all ops now h p [] = []
sync_all ops now h p (d ∷ ds) = ops.sync now h p d ∷ sync_all ops now h p ds
