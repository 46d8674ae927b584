-- ===== src/Session/Section/Guard.antt =====
-- What holds between two steps of the handlers that are inside `set` of session.go at once.
use go_sessions.Base.{
  ℕ, zero, suc, ◌≡◌, ◌≢◌, refl, sym, ◌∙◌, ap, subst, ◌⊎◌, inl, inr, Bool, true, false, some, List,
  [], ◌∷◌, get_elem?, set, Bool-cases, arith,
}
use go_sessions.Memstore.{Store, save}
use go_sessions.World.{Session, World, put, store, unlock}
use go_sessions.World.Laws.{get-put, deref_lem, lock_free}
use go_sessions.Clients.{Returns}
use go_sessions.Session.Section.{
  Place, arriving, reading, writing, leaving, left, Saver, next_place,
}

-- The handler is between `Lock` and `Unlock`.
abbrev pub inside : Place → Bool
inside arriving = false
inside reading = true
inside (writing r) = true
inside (leaving a e) = true
inside (left a e) = false

-- What a handler has read is what the session holds.
abbrev pub IsCurrent : Store → Place → Type 0
IsCurrent r (writing r') = r' ≡ r
IsCurrent r place = Unit {0}

pub outside-IsCurrent : (r : Store) (place : Place) → inside place ≡ false → IsCurrent r place
outside-IsCurrent r (writing r') e = cc
outside-IsCurrent r arriving e = tt
outside-IsCurrent r reading e = tt
outside-IsCurrent r (leaving a b) e = tt
outside-IsCurrent r (left a b) e = tt

-- What stands in a list after a write, by place.
set_found {ℓ} :
    {A : Type ℓ} (xs : List A) (n m : ℕ) (y z : A)
    → get_elem? (set xs n y) m ≡ some z
    → ((m ≡ n) × (z ≡ y)) ⊎ ((m ≢ n) × (get_elem? xs m ≡ some z))
set_found [] n m y z e = cc
set_found (x ∷ xs) zero zero y z e = inl (refl, cc)
set_found (x ∷ xs) zero (suc m) y z e = inr ((λ q. omega (arith, q)), e)
set_found (x ∷ xs) (suc n) zero y z e = inr ((λ q. omega (arith, q)), e)
set_found (x ∷ xs) (suc n) (suc m) y z e = elim (set_found xs n m y z e) [
  | inl same ↦ inl (ap suc same.0, same.1)
  | inr (apart, old) ↦ inr ((λ q. apart (omega (arith, q))), old)
]

set_same {ℓ} :
    {A : Type ℓ} (xs : List A) (n : ℕ) (x : A) → get_elem? xs n ≡ some x → set xs n x ≡ xs
set_same [] n x e = refl
set_same (y ∷ ys) zero x e = ap (λ z. z ∷ ys) cc
set_same (y ∷ ys) (suc n) x e = ap (◌∷◌ y) (set_same ys n x e)

get_elem?-set_same {ℓ} :
    {A : Type ℓ} (xs : List A) (n : ℕ) (x y : A)
    → get_elem? xs n ≡ some x
    → get_elem? (set xs n y) n ≡ some y
get_elem?-set_same [] n x y e = cc
get_elem?-set_same (z ∷ zs) zero x y e = refl
get_elem?-set_same (z ∷ zs) (suc n) x y e = get_elem?-set_same zs n x y e

-- Nobody but the handler with this number is inside.
abbrev Solo : List Saver → ℕ → Type 0
Solo xs n = (m : ℕ) (z : Saver) → m ≢ n → get_elem? xs m ≡ some z → inside z.place ≡ false

module _ {D : Type 0} (p : ℕ) where
  -- Between two steps: the session holds `r`, at most one handler is inside, one is exactly where
  -- the mutex is taken, and what it has read is `r`.
  pub record Guarded (xs : List Saver) (w : World D) (r : Store) : Type 0 where
    pub session : Session
    pub found : get_elem? w.sessions p ≡ some session
    pub values : session.values ≡ r
    pub unread : session.readers ≡ 0
    pub current : (n : ℕ) (x : Saver) → get_elem? xs n ≡ some x → IsCurrent r x.place
    pub alone :
        (n m : ℕ) (x y : Saver)
        → get_elem? xs n ≡ some x
        → get_elem? xs m ≡ some y
        → inside x.place ≡ true
        → inside y.place ≡ true
        → n ≡ m
    pub held :
        (n : ℕ) (x : Saver)
        → get_elem? xs n ≡ some x
        → inside x.place ≡ true
        → session.locked ≡ true
    pub owned :
        session.locked ≡ true
        → (n : ℕ) × (x : Saver) × (get_elem? xs n ≡ some x) × (inside x.place ≡ true)

  unlocked-Solo :
      (xs : List Saver) (w : World D) (r : Store) (n : ℕ) (k : Guarded xs w r)
      → k.session.locked ≡ false
      → Solo xs n
  unlocked-Solo xs w r n k free m z apart e = elim (Bool-cases (inside z.place)) [
    | inl i ↦ cc (k.held m z e i, free)
    | inr o ↦ o
  ]

  inside-Solo :
      (xs : List Saver) (w : World D) (r : Store) (n : ℕ) (x : Saver) (k : Guarded xs w r)
      → get_elem? xs n ≡ some x
      → inside x.place ≡ true
      → Solo xs n
  inside-Solo xs w r n x k here within m z apart e = elim (Bool-cases (inside z.place)) [
    | inl i ↦ absurd (apart (k.alone m n z x e here i within))
    | inr o ↦ o
  ]

  -- A step of the only handler that may be inside, to a session that is locked if it is.
  moved-Guarded :
      (xs : List Saver) (n : ℕ) (x y : Saver) (w : World D) (r : Store) (t : Session)
      → get_elem? xs n ≡ some x
      → Solo xs n
      → get_elem? w.sessions p ≡ some t
      → t.values ≡ r
      → t.readers ≡ 0
      → IsCurrent r y.place
      → (inside y.place ≡ true → t.locked ≡ true)
      → (t.locked ≡ true → inside y.place ≡ true)
      → Guarded (set xs n y) w r
  moved-Guarded xs n x y w r t here solo found values unread fresh locks locked_by = record {
    session = t;
    found = found;
    values = values;
    unread = unread;
    current = λ m z e. elim (set_found xs n m y z e) [
      | inl same ↦ subst (λ (x : Saver). IsCurrent r x.place) (sym same.1) fresh
      | inr (apart, old) ↦ outside-IsCurrent r z.place (solo m z apart old)
    ];
    alone = λ m l x z e f i j. at_n m x e i ∙ sym (at_n l z f j);
    held = λ m z e i. elim (set_found xs n m y z e) [
      | inl same ↦ locks (subst (λ (x : Saver). inside x.place ≡ true) same.1 i)
      | inr (apart, old) ↦ cc (solo m z apart old, i)
    ];
    owned = λ e. (n, y, get_elem?-set_same xs n x y here, locked_by e);
  }
    where
      at_n : (m : ℕ) (z : Saver) → get_elem? (set xs n y) m ≡ some z → inside z.place ≡ true → m ≡ n
      at_n m z e i = elim (set_found xs n m y z e) [
        | inl same ↦ same.0
        | inr (apart, old) ↦ cc (solo m z apart old, i)
      ]

  unchanged-Guarded :
      (xs : List Saver) (n : ℕ) (x : Saver) (w : World D) (r : Store)
      → get_elem? xs n ≡ some x
      → Guarded xs w r
      → Guarded (set xs n x) w r
  unchanged-Guarded xs n x w r here k = subst (λ ys. Guarded ys w r) (sym (set_same xs n x here)) k

-- The values after a step of a handler.
abbrev pub written : Saver → Place → Store → Store
written x (writing r') r = (save r x.key x.value x.immutable).0
written x place r = r

module _ {D : Type 0} (p : ℕ) where
  pub next_place-Returns :
      (place : Place) (xs : List Saver) (n : ℕ) (x : Saver) (w : World D) (r : Store)
      → x.place ≡ place
      → get_elem? xs n ≡ some x
      → Guarded p xs w r
      → Returns
          (λ place' w'. Guarded p (set xs n (record x { place = place' })) w' (written x place r))
          (next_place p x place w)
  unfolding next_place unlock store
  next_place-Returns arriving xs n x w r at here k =
      let s = k.session in
      let t : Session = record s { locked = true } in
      rw (deref_lem w p s k.found, next_place)
        (elim (Bool-cases s.locked) [
          | inl e ↦ rw e (
              subst (λ (y : Saver). Guarded p (set xs n y) w r)
                (ap (λ q. record x { place = q }) at) (unchanged-Guarded p xs n x w r here k))
          | inr e ↦ rw e (
              rw (k.unread) (
                rw (lock_free w p s k.found e k.unread) (
                  moved-Guarded p xs n x _ (put p t w) r t here (unlocked-Solo p xs w r n k e)
                    (get-put w p s t k.found) k.values k.unread tt (λ i. refl) (λ i. refl))))
        ])
  next_place-Returns reading xs n x w r at here k =
      let s = k.session in
      let within : inside x.place ≡ true = rw at refl in
      rw (deref_lem w p s k.found, next_place)
        (moved-Guarded p xs n x _ w r s here (inside-Solo p xs w r n x k here within) k.found
          k.values k.unread k.values (λ i. k.held n x here within) (λ i. refl))
  next_place-Returns (writing r') xs n x w r at here k =
      let s = k.session in
      let within : inside x.place ≡ true = rw at refl in
      let t : Session = record s {
        values = (save r' x.key x.value x.immutable).0;
        is_new = false;
      } in
      let same : r' ≡ r = subst (IsCurrent r) at (k.current n x here) in
      rw (deref_lem w p s k.found, next_place)
        (moved-Guarded p xs n x _ (put p t w) _ t here (inside-Solo p xs w r n x k here within)
          (get-put w p s t k.found) (ap (λ q. (save q x.key x.value x.immutable).0) same) k.unread
          tt (λ i. k.held n x here within) (λ i. refl))
  next_place-Returns (leaving a e) xs n x w r at here k =
      let s = k.session in
      let within : inside x.place ≡ true = rw at refl in
      let t : Session = record s { locked = false } in
      rw (deref_lem w p s k.found, next_place)
        (moved-Guarded p xs n x _ (put p t w) r t here (inside-Solo p xs w r n x k here within)
          (get-put w p s t k.found) k.values k.unread tt (λ i. cc) (λ i. cc))
  next_place-Returns (left a e) xs n x w r at here k =
      subst (λ (y : Saver). Guarded p (set xs n y) w r) (ap (λ q. record x { place = q }) at)
        (unchanged-Guarded p xs n x w r here k)
