-- ===== src/Lifetime/Expiry.antt =====
-- The timer of a lifetime against its stored time, after each operation of lifetime.go.
use go_sessions.Base.{
  ℕ, suc, ◌+◌, ◌≤◌, ◌<◌, ◌≡◌, refl, true, false, Option, some, [], ◌∷◌, ◌++◌, length, get_elem?,
  arith, get_elem?-append, get_elem?-append_last, get_elem?-set_self, get_elem?-lt,
}
use go_sessions.Base.Int.{pos, negsuc}
use go_sessions.Lifetime.{
  Clock, LifeTime, after_func, rearm, begin, revive, shift, has_expired, max_duration,
}

module _ {C : Type 0} where
  -- A timer of the lifetime is armed for `due` and calls `f`.
  pub record IsArmed (c : Clock C) (lt : LifeTime) (due : ℕ) (f : C) : Type 0 where
    pub at : ℕ
    pub held : lt.timer ≡ some at
    pub found : get_elem? c.timers at ≡ some (record { armed = some due; callback = f })

  -- A clock with one more timer.
  abbrev pub with_timer : Clock C → ℕ → C → Clock C
  with_timer c due f = record c {
    timers = c.timers ++ record { armed = some due; callback = f } ∷ [];
  }

  pub begin_lem :
      (c : Clock C) (lt : LifeTime) (n : ℕ) (f : C)
      → begin c lt (pos (suc n)) f ≡ (
        record { time = c.now + suc n; timer = some (length c.timers) },
        with_timer c (c.now + suc n) f,
      )
  unfolding begin
  begin_lem c lt n f = ground arith

  begin_zero : (c : Clock C) (lt : LifeTime) (f : C) → begin c lt (pos 0) f ≡ (lt, c)
  unfolding begin
  begin_zero c lt f = refl

  begin_negative : (c : Clock C) (lt : LifeTime) (n : ℕ) (f : C) → begin c lt (negsuc n) f ≡ (lt, c)
  unfolding begin
  begin_negative c lt n f = ground arith

  -- `Begin` with a positive duration stores the time at which the session ends and arms a timer of
  -- its own for that very time; the other timers stay. With no positive duration it does nothing.
  begin_armed :
      (c : Clock C) (lt : LifeTime) (n : ℕ) (f : C)
      → ((begin c lt (pos (suc n)) f).0.time ≡ c.now + suc n)
        × IsArmed (begin c lt (pos (suc n)) f).1 (begin c lt (pos (suc n)) f).0 (c.now + suc n) f
        × ((t : ℕ)
            → t < length c.timers
            → get_elem? (begin c lt (pos (suc n)) f).1.timers t ≡ get_elem? c.timers t)
        × (begin c lt (pos 0) f ≡ (lt, c))
        × (begin c lt (negsuc n) f ≡ (lt, c))
  begin_armed c lt n f = rw (begin_lem c lt n f) (
    refl,
    record { at = length c.timers; held = refl; found = get_elem?-append_last c.timers _ },
    (λ t h. get_elem?-append c.timers _ t h),
    begin_zero c lt f,
    begin_negative c lt n f,
  )

  revive_future :
      (c : Clock C) (lt : LifeTime) (f : C)
      → c.now < lt.time
      → lt.time ≤ c.now + max_duration
      → revive c lt f ≡ (record lt { timer = some (length c.timers) }, with_timer c lt.time f)
  unfolding revive after_func
  revive_future c lt f h fits = ground arith

  revive_past : (c : Clock C) (lt : LifeTime) (f : C) → lt.time ≤ c.now → revive c lt f ≡ (lt, c)
  unfolding revive
  revive_past c lt f h = ground arith

  -- `Revive` keeps the stored time. If that lies ahead, by no more than a duration can hold, a timer
  -- of the lifetime's own is armed for it and the other timers stay; otherwise nothing changes, also
  -- at the stored time itself, when `HasExpired` still says no.
  revive_armed :
      (c : Clock C) (lt : LifeTime) (f : C)
      → ((revive c lt f).0.time ≡ lt.time)
        × (c.now < lt.time
            → lt.time ≤ c.now + max_duration
            → IsArmed (revive c lt f).1 (revive c lt f).0 lt.time f)
        × (lt.time ≤ c.now → revive c lt f ≡ (lt, c))
        × (has_expired lt.time lt ≡ false)
  revive_armed c lt f = (
    unfold revive in ground arith,
    (λ h fits.
        rw (revive_future c lt f h fits)
          (record { at = length c.timers; held = refl; found = get_elem?-append_last c.timers _ })),
    revive_past c lt f,
    unfold has_expired in ground arith,
  )

  rearm_lem :
      (c : Clock C) (t : ℕ) (old when : Option ℕ) (f : C)
      → get_elem? c.timers t ≡ some (record { armed = old; callback = f })
      → get_elem? (rearm c t when).timers t ≡ some (record { armed = when; callback = f })
  unfolding rearm
  rearm_lem c t old when f h = ground (
    arith,
    get_elem?-set_self c.timers t (record { armed = when; callback = f }),
    get_elem?-lt c.timers t (record { armed = old; callback = f }),
  )

  shift_pos :
      (c : Clock C) (lt : LifeTime) (n t : ℕ)
      → lt.timer ≡ some t
      → shift c lt (pos (suc n)) ≡ rearm c t (some (c.now + suc n))
  unfolding shift
  shift_pos c lt n t h = ground arith

  -- `Shift` by a positive duration moves the timer and leaves the stored time behind: from the old
  -- end of the session to the new one the timer is still to fire, and `HasExpired` says that the
  -- session is over.
  pub shift_stale :
      (c : Clock C) (lt : LifeTime) (due : ℕ) (f : C) (n later : ℕ)
      → IsArmed c lt due f
      → 0 < lt.time
      → lt.time < later
      → later ≤ c.now + suc n
      → IsArmed (shift c lt (pos (suc n))) lt (c.now + suc n) f × (has_expired later lt ≡ true)
  shift_stale c lt due f n later a nonzero over before = (
    record {
      at = a.at;
      held = a.held;
      found = rw (shift_pos c lt n a.at a.held) (rearm_lem c a.at (some due) _ f a.found);
    },
    unfold has_expired in ground arith,
  )
