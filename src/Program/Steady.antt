-- ===== src/Program/Steady.antt =====
-- What holds of the state between two calls, and calls that keep it.
use go_sessions.Base.{
  ℕ, ◌+◌, ◌-◌, ◌≡◌, refl, ◌∙◌, Bool, true, false, Option, none, some, arith, get_elem?,
  Option-cases, inl, inr,
}
use go_sessions.Base.Outcome.{Outcome, done, panics, blocks, Exec, continue, ◌>>=◌, ◌>>◌, pure}
use go_sessions.Value.{Heap}
use go_sessions.Session.{reading}
use go_sessions.World.{Session, World, put, deref, lock, unlock, read_lock, read_unlock, store}
use go_sessions.World.Laws.{deref_lem, lock_free, unlock-put, get-put, put-put}
use go_sessions.Session.Flash.{IsMap}
use go_sessions.Provider.Everyone.{HasOwners}
use go_sessions.Program.Owners.{IsIdle, AllIdle, AllIdle-get, AllIdle-set, HasOwners-set}

-- The provider's mutex is held or not, nobody holds a session, and the table has each id once, for
-- the session with that id.
pub record IsSteady {D : Type 0} (held : Bool) (w : World D) : Type 0 where
  pub mutex : w.locked ≡ held
  pub idle : AllIdle w.sessions
  pub owners : HasOwners w.table w.sessions
  pub distinct : IsMap w.table

-- The call returns with a result and a state of which `P` holds, or it panics.
abbrev pub Ends {ℓ} : {S A : Type ℓ} → (A → S → Type 0) → Outcome S A → Type 0
Ends P (done a s) = P a s
Ends P (panics s) = Unit {0}
Ends P (blocks s) = ⊥

pub Ends-continue {ℓ} :
    {S A B : Type ℓ} (P : A → S → Type 0) (Q : B → S → Type 0) (o : Outcome S A) (f : A → Exec S B)
    → Ends P o
    → ((a : A) (s : S) → P a s → Ends Q (f a s))
    → Ends Q (continue o f)
Ends-continue P Q (done a s) f e next = next a s e
Ends-continue P Q (panics s) f e next = tt
Ends-continue P Q (blocks s) f e next = absurd e

module _ {D : Type 0} (held : Bool) where
  IsSteady-put :
      (w : World D) (p : ℕ) (s t : Session)
      → IsSteady held w
      → get_elem? w.sessions p ≡ some s
      → IsIdle t
      → t.sid ≡ s.sid
      → IsSteady held (put p t w)
  IsSteady-put w p s t v h i same = record {
    mutex = v.mutex;
    idle = AllIdle-set w.sessions p t v.idle i;
    owners = HasOwners-set w.table w.sessions p s t h same v.owners;
    distinct = v.distinct;
  }

  deref-none : (w : World D) (p : ℕ) → get_elem? w.sessions p ≡ none → deref p w ≡ panics w
  unfolding deref
  deref-none w p h = rw (h, deref)

  lock-none : (w : World D) (p : ℕ) → get_elem? w.sessions p ≡ none → lock p w ≡ panics w
  unfolding lock
  lock-none w p h = rw (deref-none w p h, lock)

  read_lock-none : (w : World D) (p : ℕ) → get_elem? w.sessions p ≡ none → read_lock p w ≡ panics w
  unfolding read_lock
  read_lock-none w p h = rw (deref-none w p h, read_lock)

  pub read_lock_idle :
      (w : World D) (p : ℕ) (s : Session)
      → get_elem? w.sessions p ≡ some s
      → IsIdle s
      → read_lock p w
        ≡ done
            (record s { readers = s.readers + 1 })
            (put p (record s { readers = s.readers + 1 }) w)
  unfolding read_lock
  read_lock_idle w p s h i = rw (deref_lem w p s h, read_lock) (rw i.0)

  -- A method that locks the session, writes it as `change` does, unlocks it and goes on.
  pub Ends-lock :
      {A : Type 0} (Q : A → World D → Type 0) (change : Session → Session)
      (k : Session → Exec (World D) A) (p : ℕ) (w : World D)
      → ((s : Session) → ((change s).sid ≡ s.sid) × ((change s).readers ≡ s.readers))
      → IsSteady held w
      → ((s : Session) (w' : World D) → IsSteady held w' → Ends Q (k s w'))
      → Ends Q ((lock p >>= λ s. unlock p (change s) >> k s) w)
  Ends-lock Q change k p w same v next = elim (Option-cases (get_elem? w.sessions p)) [
    | inl e ↦ rw (lock-none w p e) tt
    | inr (s, e) ↦
        let i = AllIdle-get w.sessions p s v.idle e in
        let s' : Session = record s { locked = true } in
        let t : Session = record (change s') { locked = false } in
        rw (lock_free w p s e i.0 i.1) (
          rw (unlock-put w p s' (change s'))
            (next s' (put p t w) (IsSteady-put w p s t v e (refl, (same s').1 ∙ i.1) (same s').0)))
  ]

  pub read_unlock_lem :
      (w : World D) (p : ℕ) (s : Session)
      → get_elem? w.sessions p ≡ some s
      → read_unlock p w ≡ done tt (put p (record s { readers = s.readers - 1 }) w)
  unfolding read_unlock store
  read_unlock_lem w p s h = rw (deref_lem w p s h, read_unlock)

  reading_lem :
      {A : Type 0} (g : Heap → Option (A × Heap)) (w : World D)
      → Ends (λ a w'. (h : Heap) × (w' ≡ record w { heap = h })) (reading g w)
  reading_lem {A = A} g w = of (g w.heap)
    where
      of :
          (o : Option (A × Heap))
          → Ends
              (λ a w'. (h : Heap) × (w' ≡ record w { heap = h }))
              (elim o [ none ↦ panics w | some (a, h) ↦ done a (record w { heap = h }) ])
      of none = tt
      of (some (a, h)) = (h, refl)

  released :
      {A : Type 0} (a : A) (p : ℕ) (w w' : World D) (s : Session) (h : Heap)
      → IsSteady held w
      → get_elem? w.sessions p ≡ some s
      → IsIdle s
      → w' ≡ record (put p (record s { readers = s.readers + 1 }) w) { heap = h }
      → Ends (λ b u. IsSteady held u) ((read_unlock p >> pure a) w')
  released a p w w' s h v found i e =
      let s' : Session = record s { readers = s.readers + 1 } in
      let w1 : World D = record w { heap = h } in
      let v1 : IsSteady held w1 = record {
        mutex = v.mutex;
        idle = v.idle;
        owners = v.owners;
        distinct = v.distinct;
      } in
      let none_left : s.readers + 1 - 1 ≡ 0 = omega (arith, i.1) in
      rw e (
        rw (read_unlock_lem (put p s' w1) p s' (get-put w1 p s s' found)) (
          rw (put-put w1 p s' (record s { readers = s.readers + 1 - 1 }))
            (IsSteady-put w1 p s _ v1 found (i.0, none_left) refl)))

  -- A method that reads the values under the read lock.
  pub Ends-read :
      {A : Type 0} (f : Session → Heap → Option (A × Heap)) (p : ℕ) (w : World D)
      → IsSteady held w
      → Ends
          (λ a w'. IsSteady held w')
          ((read_lock p >>= λ s. reading (f s) >>= λ a. read_unlock p >> pure a) w)
  Ends-read f p w v = elim (Option-cases (get_elem? w.sessions p)) [
    | inl e ↦ rw (read_lock-none w p e) tt
    | inr (s, e) ↦
        let i = AllIdle-get w.sessions p s v.idle e in
        let s' : Session = record s { readers = s.readers + 1 } in
        rw (read_lock_idle w p s e i) (
          Ends-continue _ _ (reading (f s') (put p s' w)) _ (reading_lem (f s') (put p s' w))
            (λ a w' x. released a p w w' s x.0 v e i x.1))
  ]

  -- The call returns with the state steady, or it panics.
  abbrev pub Keeps : {A : Type 0} → Outcome (World D) A → Type 0
  Keeps o = Ends (λ a w. IsSteady held w) o

  drop_pure :
      {A : Type 0} (P : Unit {0} → World D → Type 0) (o : Outcome (World D) A)
      (f : A → Exec (World D) (Unit {0}))
      → Ends P (continue o (λ a. f a >> pure tt))
      → Ends P (continue o f)
  drop_pure P (done a w) f e = last (f a w) e
    where
      last : (o : Outcome (World D) (Unit {0})) → Ends P (continue o (λ u. pure tt)) → Ends P o
      last (done u w) e = e
      last (panics w) e = tt
      last (blocks w) e = e
  drop_pure P (panics w) f e = tt
  drop_pure P (blocks w) f e = e

  -- A method that locks the session, writes it and unlocks it.
  pub lock-Keeps :
      (change : Session → Session) (p : ℕ) (w : World D)
      → ((s : Session) → ((change s).sid ≡ s.sid) × ((change s).readers ≡ s.readers))
      → IsSteady held w
      → Keeps ((lock p >>= λ s. unlock p (change s)) w)
  lock-Keeps change p w same v =
      drop_pure (λ a w'. IsSteady held w') (lock p w) (λ s. unlock p (change s))
        (Ends-lock (λ a w'. IsSteady held w') change (λ s. pure tt) p w same v (λ s w' v'. v'))

  pub Ends-deref :
      (p : ℕ) (w : World D)
      → Ends (λ s w'. (w' ≡ w) × (get_elem? w.sessions p ≡ some s)) (deref p w)
  unfolding deref
  Ends-deref p w = of (get_elem? w.sessions p)
    where
      of :
          (o : Option Session)
          → Ends (λ s w'. (w' ≡ w) × (o ≡ some s)) (elim o [ none ↦ panics w | some s ↦ done s w ])
      of none = tt
      of (some s) = (refl, refl)

  -- A write to a session that leaves its mutex and its id alone.
  pub store-Keeps :
      (p : ℕ) (w : World D) (s t : Session)
      → IsSteady held w
      → get_elem? w.sessions p ≡ some s
      → t.locked ≡ s.locked
      → t.readers ≡ s.readers
      → t.sid ≡ s.sid
      → Keeps (store p t w)
  unfolding store
  store-Keeps p w s t v h unlocked unread same =
      let i = AllIdle-get w.sessions p s v.idle h in
      IsSteady-put w p s t v h (unlocked ∙ i.0, unread ∙ i.1) same

  pub reading-Keeps :
      {A : Type 0} (g : Heap → Option (A × Heap)) (w : World D)
      → IsSteady held w
      → Keeps (reading g w)
  reading-Keeps {A = A} g w v = of (g w.heap)
    where
      of :
          (o : Option (A × Heap))
          → Keeps {A = A}
              (elim o [ none ↦ panics w | some (a, h) ↦ done a (record w { heap = h }) ])
      of none = tt
      of (some (a, h)) = record {
        mutex = v.mutex;
        idle = v.idle;
        owners = v.owners;
        distinct = v.distinct;
      }
