-- ===== src/Sessiondb/Redis.antt =====
-- sessiondb/redis/database.go. What the package logs is not modelled.
pub mod Client
pub mod Dial
pub mod Connections
use go_sessions.Base.{
  ℕ, GoString, codes, str_eq, ◌*◌, ◌++◌, Bool, true, false, not, ◌&&◌, Option, none, some, [],
  if◌then◌else◌,
}
use go_sessions.Base.Int.{ℤ, pos, pos_part, ltb_ℤ, leb_ℤ}
use go_sessions.Value.{Heap}
use go_sessions.Lifetime.{LifeTime, is_zero}
use go_sessions.Cookie.{seconds_until}
use go_sessions.Database.{Database, RemoteStore, SyncPayload, zero_remote}
use Client.{
  Reply, failed, missing, odd, found, Connection, Service, connect, ping_pong, get, set, delete,
  close_connection, RedisConfig, new_service,
}
use go_sessions.Sessiondb.{
  Decoding, Gob, serialize, decode_remote_store, Backend, dispatch, is_destroy,
}

-- What `Load` makes of the reply.
unfoldable pub decode_reply : {Bytes : Type 0} → Gob Bytes → Heap → Reply Bytes → RemoteStore × Heap
decode_reply gob h (found v) = let d : Decoding = decode_remote_store gob h v in (d.store, d.heap)
decode_reply gob h r = (zero_remote, h)

-- The seconds for `Set`: 0 for a lifetime that is zero.
unfoldable pub seconds_left : ℕ → LifeTime → ℤ
unfolding is_zero seconds_until
seconds_left now lt = if is_zero lt then pos 0 else seconds_until now lt.time

-- `New`, with the configuration that `Config` returns, and no goroutine.
unfoldable pub new : {T : Type 0} → Option RedisConfig → T → Backend (Service T)
unfolding new_service
new c t = record { service = new_service c t; async = false; pending = [] }

-- `Config`
unfoldable pub config : {T : Type 0} → Backend (Service T) → RedisConfig
config db = db.service.config

module _ {Bytes T : Type 0} (gob : Gob Bytes) (conn : Connection Bytes T) where
  -- It connects where that was not done.
  unfoldable pub load : GoString → Heap → Service T → RemoteStore × Service T × Heap
  unfolding connect ping_pong get decode_reply
  load sid h r =
      let r' : Service T = if r.connected then r else connect r in
      if not r.connected && (ping_pong conn r').1
      then (zero_remote, r', h)
      else (let (store, h') = decode_reply gob h (get conn sid r') in (store, r', h'))

  unfoldable pub sync : ℕ → Heap → SyncPayload → Service T → Service T
  unfolding set delete seconds_left is_destroy
  sync now h p r =
      if is_destroy p.action
      then (delete conn p.session_id r).0
      else if (serialize gob h p.store).1
      then r
      else (set conn p.session_id (serialize gob h p.store).0 (seconds_left now p.store.lifetime)
          r).0

  -- `Close`
  unfoldable pub close : Service T → Service T × Bool
  unfolding close_connection
  close r = close_connection conn r

  abbrev pub database : Database (Backend (Service T))
  database = record {
    load = λ now sid h db.
        let (r, service, h') = load sid h db.service in (r, record db { service = service }, h');
    sync = λ now h p db. dispatch (sync now) h p db;
  }
