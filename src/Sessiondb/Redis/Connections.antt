-- ===== src/Sessiondb/Redis/Connections.antt =====
-- The connections that `dial` and `pool.Dial` leave open.
use go_sessions.Base.{
  ℕ, GoString, codes, str_eq, ◌≡◌, ◌∙◌, Option, none, some, List, ◌∷◌, if◌then◌else◌, Bool-cases,
  inl, inr,
}
use go_sessions.Sessiondb.Redis.Client.{Address, default_redis_network, default_redis_addr}
use go_sessions.Sessiondb.Redis.Dial.{Command, Redigo, auth, select, greet, dial, pool_dial}

-- One more connection, if there is one.
abbrev pub with_opened : Option ℕ → List ℕ → List ℕ
with_opened none cs = cs
with_opened (some c) cs = c ∷ cs

-- What redigo promises of the connections that are open: `redis.Dial` opens the one that it
-- returns, a command opens and closes none, and `Close` closes its own.
pub record IsAccounted {T : Type 0} (lib : Redigo T) : Type 0 where
  pub opened : T → List ℕ
  pub opened-open :
      (network addr : GoString) (t : T)
      → opened (lib.open_connection network addr t).1
        ≡ with_opened (lib.open_connection network addr t).0 (opened t)
  pub opened-command : (c : ℕ) (m : Command) (t : T) → opened (lib.command c m t).1 ≡ opened t
  pub opened-close : (c : ℕ) (cs : List ℕ) (t : T) → opened t ≡ c ∷ cs → opened (lib.close c t) ≡ cs

module _ {T : Type 0} (lib : Redigo T) (law : IsAccounted lib) where
  -- The call leaves open what was open, and the connection that it returns.
  abbrev pub Accounts : T → Option ℕ × T → Type 0
  Accounts t answer = law.opened answer.1 ≡ with_opened answer.0 (law.opened t)

  greet-Accounts :
      (c : ℕ) (m : Command) (t t' : T)
      → law.opened t' ≡ c ∷ law.opened t
      → Accounts t (greet lib c m t')
  unfolding greet
  greet-Accounts c m t t' e = elim (Bool-cases (lib.command c m t').0) [
    | inl failed ↦ rw failed (law.opened-close c (law.opened t) _ (law.opened-command c m t' ∙ e))
    | inr works ↦ rw works (law.opened-command c m t' ∙ e)
  ]

  dial-Accounts : (network addr pass : GoString) (t : T) → Accounts t (dial lib network addr pass t)
  unfolding dial
  dial-Accounts network addr pass t = of _ (
      law.opened-open (if str_eq network (codes "") then default_redis_network else network)
        (if str_eq addr (codes "") then default_redis_addr else addr) t)
    where
      of :
          (answer : Option ℕ × T)
          → Accounts t answer
          → Accounts t (elim answer.0 [
            | none ↦ (none, answer.1)
            | some c ↦
                if str_eq pass (codes "")
                then (some c, answer.1)
                else greet lib c (auth pass) answer.1
          ])
      of (none, t') e = e
      of (some c, t') e = elim (Bool-cases (str_eq pass (codes ""))) [
        | inl b ↦ rw b e
        | inr b ↦ rw b (greet-Accounts c (auth pass) t t' e)
      ]

  -- Whatever fails on the way, the function that `Connect` gives to the pool leaves open what was
  -- open before, and the connection that it returns, if it returns one: a connection that was
  -- refused a password or a database is closed.
  pub pool_dial-Accounts : (a : Address) (t : T) → Accounts t (pool_dial lib a t)
  unfolding pool_dial
  pool_dial-Accounts a t =
      of (dial lib a.network a.addr a.password t) (dial-Accounts a.network a.addr a.password t)
    where
      of :
          (answer : Option ℕ × T)
          → Accounts t answer
          → Accounts t (elim answer.0 [
            | none ↦ (none, answer.1)
            | some c ↦
                if str_eq a.database (codes "")
                then (some c, answer.1)
                else greet lib c (select a.database) answer.1
          ])
      of (none, t') e = e
      of (some c, t') e = elim (Bool-cases (str_eq a.database (codes ""))) [
        | inl b ↦ rw b e
        | inr b ↦ rw b (greet-Accounts c (select a.database) t t' e)
      ]
