-- ===== src/Sessiondb/Redis/Dial.antt =====
-- How the pool of sessiondb/redis/service/service.go makes a connection: `dial`, and the function
-- that `Connect` gives to the pool.
use go_sessions.Base.{ℕ, GoString, codes, str_eq, Bool, Option, none, some, if◌then◌else◌}
use go_sessions.Sessiondb.Redis.Client.{Address, default_redis_network, default_redis_addr}

-- The two commands that a new connection is sent.
pub data Command : Type 0 where
  auth select : GoString → Command

-- What redigo does: `redis.Dial`, a command, and `Close`. A connection is a handle, and the
-- Boolean is the error.
pub record Redigo (T : Type 0) : Type 0 where
  pub open_connection : GoString → GoString → T → Option ℕ × T
  pub command : ℕ → Command → T → Bool × T
  pub close : ℕ → T → T

module _ {T : Type 0} (lib : Redigo T) where
  -- A command on a new connection, which is closed on an error.
  unfoldable pub greet : ℕ → Command → T → Option ℕ × T
  greet c command t =
      let (failed, t') = lib.command c command t in
      if failed then (none, lib.close c t') else (some c, t')

  unfoldable pub dial : GoString → GoString → GoString → T → Option ℕ × T
  unfolding greet
  dial network addr pass t =
      let network' = if str_eq network (codes "") then default_redis_network else network in
      let addr' = if str_eq addr (codes "") then default_redis_addr else addr in
      let (opened, t') = lib.open_connection network' addr' t in
      elim opened [
        | none ↦ (none, t')
        | some c ↦ if str_eq pass (codes "") then (some c, t') else greet c (auth pass) t'
      ]

  -- `pool.Dial`
  unfoldable pub pool_dial : Address → T → Option ℕ × T
  unfolding dial greet
  pool_dial a t =
      let (dialled, t') = dial a.network a.addr a.password t in
      elim dialled [
        | none ↦ (none, t')
        | some c ↦
            if str_eq a.database (codes "") then (some c, t') else greet c (select a.database) t'
      ]
