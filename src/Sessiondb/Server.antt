-- ===== src/Sessiondb/Server.antt =====
-- What sessiondb/redis/database.go loads after it was told something.
use go_sessions.Base.{ℕ, GoString, str_eq, ◌++◌, ◌≡◌, false, if◌then◌else◌}
use go_sessions.Value.{Heap}
use go_sessions.Database.{RemoteStore, SyncPayload}
use go_sessions.Sessiondb.{Gob, KeepsBasic, AllBasic}
use go_sessions.Sessiondb.Redis.Client.{missing, found, Pool, Connection, Service, get, set}

-- What redis promises over a pool, where a command returns no error, as long as no expiry is due.
pub record IsServer {Bytes T : Type 0} (conn : Connection Bytes T) (pool : Pool) : Type 0 where
  pub get-set :
      (k : GoString) (v : Bytes) (t : T) (j : GoString)
      → (conn.set pool k v t).1 ≡ false
      → conn.get pool j (conn.set pool k v t).0
        ≡ (if str_eq k j then found v else conn.get pool j t)
  pub get-setex :
      (k : GoString) (n : ℕ) (v : Bytes) (t : T) (j : GoString)
      → (conn.setex pool k n v t).1 ≡ false
      → conn.get pool j (conn.setex pool k n v t).0
        ≡ (if str_eq k j then found v else conn.get pool j t)
  pub get-del :
      (k : GoString) (t : T) (j : GoString)
      → (conn.del pool k t).1 ≡ false
      → conn.get pool j (conn.del pool k t).0 ≡ (if str_eq k j then missing else conn.get pool j t)

-- A result of `Load`, without the service that it leaves.
abbrev pub result : {T : Type 0} → RemoteStore × Service T × Heap → RemoteStore × Heap
result (store, r, h) = (store, h)

module _ {Bytes T : Type 0} (gob : Gob Bytes) (conn : Connection Bytes T) (r : Service T)
    (law : IsServer conn r.pool) (now : ℕ) (h : Heap) (p : SyncPayload) (codec : KeepsBasic gob)
    (plain_values : AllBasic p.store.values.entries)
    (set_works : (k : GoString) (v : Bytes) → (conn.set r.pool k v r.server).1 ≡ false)
    (setex_works : (k : GoString) (n : ℕ) (v : Bytes)
      → (conn.setex r.pool k n v r.server).1 ≡ false)
    (del_works : (k : GoString) → (conn.del r.pool k r.server).1 ≡ false) (sid : GoString) where
  abbrev key : GoString
  key = r.config.prefix ++ p.session_id
