-- ===== src/Sessiondb/Redis/Client.antt =====
-- sessiondb/redis/service: a client of redis over the pool of the redigo library, which is a
-- parameter, with the server behind it.
use go_sessions.Base.{
  ℕ, GoString, codes, str_eq, ◌*◌, ◌++◌, Bool, true, false, Option, none, some, if◌then◌else◌,
}
use go_sessions.Base.Int.{ℤ, pos, pos_part, ltb_ℤ, leb_ℤ}

-- config.go of the service. A duration is in nanoseconds.
pub record RedisConfig : Type 0 where
  pub network : GoString
  pub addr : GoString
  pub password : GoString
  pub database : GoString
  pub max_idle : ℤ
  pub max_active : ℤ
  pub idle_timeout : ℤ
  pub prefix : GoString

abbrev pub default_redis_network : GoString
default_redis_network = codes "tcp"

abbrev pub default_redis_addr : GoString
default_redis_addr = codes "127.0.0.1:6379"

abbrev pub default_redis_idle_timeout : ℤ
default_redis_idle_timeout = pos (5 * 60 * 1000000000)

unfoldable pub default_config : RedisConfig
default_config = record {
  network = default_redis_network;
  addr = default_redis_addr;
  password = codes "";
  database = codes "";
  max_idle = pos 0;
  max_active = pos 0;
  idle_timeout = default_redis_idle_timeout;
  prefix = codes "";
}

-- What a pool dials with.
pub record Address : Type 0 where
  pub network : GoString
  pub addr : GoString
  pub password : GoString
  pub database : GoString

-- `redis.Pool`; `dial` is `none` where the function is nil.
pub record Pool : Type 0 where
  pub dial : Option Address
  pub idle_timeout : ℤ
  pub max_idle : ℤ
  pub max_active : ℤ

abbrev pub zero_pool : Pool
zero_pool = record { dial = none; idle_timeout = pos 0; max_idle = pos 0; max_active = pos 0 }

-- A reply to a command: an error, nil, bytes, or something that is no bytes.
pub data Reply (Bytes : Type 0) : Type 0 where
  failed missing odd : Reply Bytes
  found : Bytes → Reply Bytes

-- A reply to PING: an error, nil, or a text.
pub data Pong : Type 0 where
  no_pong nil_pong : Pong
  pong : GoString → Pong

-- The commands over a connection that the pool gives out; where it gives none out, the error is
-- that of the command. The Boolean is the error.
pub record Connection (Bytes T : Type 0) : Type 0 where
  pub ping : Pool → T → Pong
  pub get : Pool → GoString → T → Reply Bytes
  pub scan : Pool → T → Reply Bytes
  pub set : Pool → GoString → Bytes → T → T × Bool
  pub setex : Pool → GoString → ℕ → Bytes → T → T × Bool
  pub del : Pool → GoString → T → T × Bool
  pub close : Pool → T → T × Bool

-- `Service`: `server` is what the pool connects to.
pub record Service (T : Type 0) : Type 0 where
  pub connected : Bool
  pub config : RedisConfig
  pub pool : Pool
  pub server : T

-- `New`
unfoldable pub new_service : {T : Type 0} → Option RedisConfig → T → Service T
unfolding default_config
new_service c t = record {
  connected = false;
  config = elim c [ none ↦ default_config | some c' ↦ c' ];
  pool = zero_pool;
  server = t;
}

-- The defaults that `Connect` writes to the configuration.
unfoldable pub completed : RedisConfig → RedisConfig
completed c = record c {
  idle_timeout =
      if leb_ℤ c.idle_timeout (pos 0) then default_redis_idle_timeout else c.idle_timeout;
  network = if str_eq c.network (codes "") then default_redis_network else c.network;
  addr = if str_eq c.addr (codes "") then default_redis_addr else c.addr;
}

-- The pool has the default as its idle timeout, whatever the configuration says.
unfoldable pub connect : {T : Type 0} → Service T → Service T
unfolding completed
connect r = record r {
  connected = true;
  config = completed r.config;
  pool = record {
    dial = some (record {
      network = (completed r.config).network;
      addr = (completed r.config).addr;
      password = r.config.password;
      database = r.config.database;
    });
    idle_timeout = default_redis_idle_timeout;
    max_idle = r.config.max_idle;
    max_active = r.config.max_active;
  };
}

module _ {Bytes T : Type 0} (conn : Connection Bytes T) where
  -- `PingPong`, with its error.
  unfoldable pub ping_pong : Service T → Bool × Bool
  ping_pong r = elim (conn.ping r.pool r.server) [
    | no_pong ↦ (false, true)
    | nil_pong ↦ (false, false)
    | pong s ↦ (str_eq s (codes "PONG"), false)
  ]

  -- `CloseConnection`; no service has a nil pool.
  unfoldable pub close_connection : Service T → Service T × Bool
  close_connection r =
      let answer = conn.close r.pool r.server in (record r { server = answer.0 }, answer.1)

  unfoldable pub get : GoString → Service T → Reply Bytes
  get key r = conn.get r.pool (r.config.prefix ++ key) r.server

  -- `SCAN`, from the cursor 0.
  unfoldable pub get_all : Service T → Reply Bytes
  get_all r = conn.scan r.pool r.server

  -- `GetBytes`; `none` is an error.
  unfoldable pub get_bytes : GoString → Service T → Option Bytes
  get_bytes key r = elim (conn.get r.pool (r.config.prefix ++ key) r.server) [
    | failed ↦ none
    | missing ↦ none
    | odd ↦ none
    | found v ↦ some v
  ]

  -- `Set`: with an expiry only for a positive number of seconds.
  unfoldable pub set : GoString → Bytes → ℤ → Service T → Service T × Bool
  set key v seconds r =
      let answer =
        if ltb_ℤ (pos 0) seconds
        then conn.setex r.pool (r.config.prefix ++ key) (pos_part seconds) v r.server
        else conn.set r.pool (r.config.prefix ++ key) v r.server in
      (record r { server = answer.0 }, answer.1)

  unfoldable pub delete : GoString → Service T → Service T × Bool
  delete key r =
      let answer = conn.del r.pool (r.config.prefix ++ key) r.server in
      (record r { server = answer.0 }, answer.1)
