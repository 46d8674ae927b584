-- ===== src/Lifetime.antt =====
-- lifetime.go. A `time.Time` is the number of nanoseconds since the zero time, so that `IsZero` is
-- a test for 0. The runtime's timers are a list, and a `*time.Timer` is an index into it. What the
-- timer calls is a value of type `C`. The clock stands still during a call.
pub mod Expiry
use Prim.Native.Nat.{min}
use go_sessions.Base.{
  ℕ, ◌+◌, ◌-◌, ◌*◌, ◌^◌, ltb, ◌==◌, Bool, true, false, ◌&&◌, Option, none, some, List, [], ◌∷◌,
  ◌++◌, length, get_elem?, set, if◌then◌else◌,
}
use go_sessions.Base.Int.{ℤ, pos, pos_part, leb_ℤ, ltb_ℤ}

-- `armed` is the time at which the timer fires, if it is to fire.
pub record Timer (C : Type 0) : Type 0 where
  pub armed : Option ℕ
  pub callback : C

-- `now` is the time at which a call first reads the clock, and `tick` what passes until it reads it
-- again.
pub record Clock (C : Type 0) : Type 0 where
  pub now : ℕ
  pub tick : ℕ
  pub timers : List (Timer C)

pub record LifeTime : Type 0 where
  pub time : ℕ
  pub timer : Option ℕ

abbrev pub zero_lifetime : LifeTime
zero_lifetime = record { time = 0; timer = none }

-- 2009-11-10 23:00:00 UTC, `CookieExpireDelete` of cookie.go.
abbrev pub cookie_expire_delete : ℕ
cookie_expire_delete = 63393490800 * 1000000000

-- The greatest `time.Duration`, at which `Sub` stops.
abbrev pub max_duration : ℕ
max_duration = 2 ^ 63 - 1

module _ {C : Type 0} where
  -- `time.AfterFunc`
  unfoldable pub after_func : Clock C → ℕ → C → ℕ × Clock C
  after_func c d f = (
    length c.timers,
    record c { timers = c.timers ++ record { armed = some (c.now + d); callback = f } ∷ [] },
  )

  -- `Timer.Reset` and `Timer.Stop`
  unfoldable pub rearm : Clock C → ℕ → Option ℕ → Clock C
  rearm c t when = elim (get_elem? c.timers t) [
    | none ↦ c
    | some timer ↦ record c { timers = set c.timers t (record timer { armed = when }) }
  ]

  unfoldable pub begin : Clock C → LifeTime → ℤ → C → LifeTime × Clock C
  unfolding after_func
  begin c lt d on_expire =
      if leb_ℤ d (pos 0)
      then (lt, c)
      else (let (t, c') = after_func c (pos_part d) on_expire in
          (record lt { time = c.now + pos_part d; timer = some t }, c'))

  unfoldable pub revive : Clock C → LifeTime → C → LifeTime × Clock C
  unfolding after_func
  revive c lt on_expire =
      if lt.time == 0
      then (lt, c)
      else if ltb c.now lt.time
      then (let (t, c') = after_func c (min (lt.time - c.now) max_duration) on_expire in
          (record lt { timer = some t }, c'))
      else (lt, c)

  unfoldable pub shift : Clock C → LifeTime → ℤ → Clock C
  unfolding rearm
  shift c lt d = elim lt.timer [
    | none ↦ c
    | some t ↦ if ltb_ℤ (pos 0) d then rearm c t (some (c.now + pos_part d)) else c
  ]

  unfoldable pub expire_now : Clock C → LifeTime → LifeTime × Clock C
  unfolding rearm
  expire_now c lt = (
    record lt { time = cookie_expire_delete },
    elim lt.timer [ none ↦ c | some t ↦ rearm c t none ],
  )

unfoldable pub is_zero : LifeTime → Bool
is_zero lt = lt.time == 0

unfoldable pub has_expired : ℕ → LifeTime → Bool
unfolding is_zero
has_expired now lt = if is_zero lt then false else ltb lt.time now
