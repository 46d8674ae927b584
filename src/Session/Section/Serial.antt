-- ===== src/Session/Section/Serial.antt =====
-- What the mutex of a session does for the handlers that are inside `set` of session.go at once.
use go_sessions.Base.{
  ℕ, zero, suc, ◌≡◌, ◌≤◌, refl, sym, ◌∙◌, ap, subst, ◌↔◌, inl, inr, true, false, none, some, List,
  [], ◌∷◌, get_elem?, set, Option-cases, Bool-cases, arith, if◌then◌else◌,
}
use go_sessions.Base.Outcome.{done, panics, blocks}
use go_sessions.Memstore.{Store, save}
use go_sessions.World.{Session, World}
use go_sessions.World.Laws.{IsFree}
use go_sessions.Clients.{Returns, Returns-weaken, Returns-returned}
use go_sessions.Session.Section.{
  Place, arriving, reading, writing, leaving, left, Saver, next_place, advance, interleave,
}
use go_sessions.Session.Section.Guard.{
  inside, outside-IsCurrent, Guarded, written, next_place-Returns,
}

-- How many handlers are between `Lock` and `Unlock`.
abbrev pub count_inside : List Saver → ℕ
count_inside [] = 0
count_inside (x ∷ xs) = let n = count_inside xs in if inside x.place then suc n else n

none_inside :
    (xs : List Saver)
    → ((n : ℕ) (x : Saver) → get_elem? xs n ≡ some x → inside x.place ≡ false)
    → count_inside xs ≡ 0
none_inside [] out = refl
none_inside (x ∷ xs) out = rw (out 0 x refl) (none_inside xs (λ n y e. out (suc n) y e))

at_most_one :
    (xs : List Saver)
    → ((n m : ℕ) (x y : Saver)
        → get_elem? xs n ≡ some x
        → get_elem? xs m ≡ some y
        → inside x.place ≡ true
        → inside y.place ≡ true
        → n ≡ m)
    → count_inside xs ≤ 1
at_most_one [] alone = omega arith
at_most_one (x ∷ xs) alone = elim (Bool-cases (inside x.place)) [
  | inl i ↦ rw i (
      rw
        (none_inside xs (λ n y e. elim (Bool-cases (inside y.place)) [
          | inl j ↦ absurd (omega (arith, alone 0 (suc n) x y refl e i j))
          | inr o ↦ o
        ]))
        (omega arith))
  | inr o ↦
      rw o (at_most_one xs (λ n m y z e f i j. omega (arith, alone (suc n) (suc m) y z e f i j)))
]

count_inside-found :
    (xs : List Saver) (n : ℕ) (x : Saver)
    → get_elem? xs n ≡ some x
    → inside x.place ≡ true
    → 1 ≤ count_inside xs
count_inside-found [] n x e i = cc
count_inside-found (y ∷ ys) zero x e i = let same : y ≡ x = cc in rw same (rw i (omega arith))
count_inside-found (y ∷ ys) (suc n) x e i = elim (Bool-cases (inside y.place)) [
  | inl j ↦ rw j (omega arith)
  | inr o ↦ rw o (count_inside-found ys n x e i)
]

one_inside :
    (xs : List Saver)
    → count_inside xs ≡ 1
    → (n : ℕ) × (x : Saver) × (get_elem? xs n ≡ some x) × (inside x.place ≡ true)
one_inside [] e = absurd (omega (arith, e))
one_inside (x ∷ xs) e = elim (Bool-cases (inside x.place)) [
  | inl i ↦ (0, x, refl, i)
  | inr o ↦
      let (n, y, at, i) =
        one_inside xs
          (subst (λ b. (if b then suc (count_inside xs) else count_inside xs) ≡ 1) o e) in
      (suc n, y, at, i)
]

abbrev pub save_all : Store → List Saver → Store
save_all r [] = r
save_all r (x ∷ xs) = save_all (save r x.key x.value x.immutable).0 xs

abbrev writer_of : Saver → Place → List Saver → List Saver
writer_of x (writing r) xs = x ∷ xs
writer_of x place xs = xs

save_all-writer_of :
    (r : Store) (x : Saver) (place : Place) (xs : List Saver)
    → save_all r (writer_of x place xs) ≡ save_all (written x place r) xs
save_all-writer_of r x (writing q) xs = refl
save_all-writer_of r x arriving xs = refl
save_all-writer_of r x reading xs = refl
save_all-writer_of r x (leaving a e) xs = refl
save_all-writer_of r x (left a e) xs = refl

module _ {D : Type 0} (p : ℕ) where
  -- The handlers that write in these steps, in the order in which they do.
  abbrev pub writers : List ℕ → List Saver → World D → List Saver
  writers [] xs w = []
  writers (n ∷ ns) xs w = elim (get_elem? xs n) [
    | none ↦ writers ns xs w
    | some x ↦ writer_of x x.place (elim (advance p x w) [
      | done y u ↦ writers ns (set xs n y) u
      | panics u ↦ []
      | blocks u ↦ []
    ])
  ]

  writers-nobody :
      (n : ℕ) (ns : List ℕ) (xs : List Saver) (w : World D)
      → get_elem? xs n ≡ none
      → writers (n ∷ ns) xs w ≡ writers ns xs w
  writers-nobody n ns xs w e = rw (e, writers)

  writers-step :
      (n : ℕ) (ns : List ℕ) (xs : List Saver) (w u : World D) (x y : Saver)
      → get_elem? xs n ≡ some x
      → advance p x w ≡ done y u
      → writers (n ∷ ns) xs w ≡ writer_of x x.place (writers ns (set xs n y) u)
  writers-step n ns xs w u x y e stepped = rw (e, writers) (rw stepped)

  interleave-step :
      (n : ℕ) (ns : List ℕ) (xs : List Saver) (w u : World D) (x y : Saver)
      → get_elem? xs n ≡ some x
      → advance p x w ≡ done y u
      → interleave p (n ∷ ns) xs w ≡ interleave p ns (set xs n y) u
  unfolding interleave
  interleave-step n ns xs w u x y e stepped = rw (e, interleave) (rw stepped)

  stepped :
      (xs : List Saver) (n : ℕ) (x : Saver) (w : World D) (r : Store)
      → get_elem? xs n ≡ some x
      → Guarded p xs w r
      → (y : Saver) × (u : World D) × (advance p x w ≡ done y u)
        × Guarded p (set xs n y) u (written x x.place r)
  unfolding advance
  stepped xs n x w r e k =
      let (place, u, ran, g) =
        Returns-returned _ (next_place p x x.place w)
          (next_place-Returns p x.place xs n x w r refl e k) in
      (record x { place = place }, u, rw ran, g)

  interleave-Returns :
      (ns : List ℕ) (xs : List Saver) (w : World D) (r : Store)
      → Guarded p xs w r
      → Returns (λ ys w'. Guarded p ys w' (save_all r (writers ns xs w))) (interleave p ns xs w)
  unfolding interleave
  interleave-Returns [] xs w r k = k
  interleave-Returns (n ∷ ns) xs w r k = elim (Option-cases (get_elem? xs n)) [
    | inl e ↦
        rw (e, interleave)
          (Returns-weaken _ _ (interleave p ns xs w) (interleave-Returns ns xs w r k) (λ ys u q.
            subst (λ l. Guarded p ys u (save_all r l)) (sym (writers-nobody n ns xs w e)) q))
    | inr (x, e) ↦
        let (y, u, ran, g) = stepped xs n x w r e k in
        rw (interleave-step n ns xs w u x y e ran) (
          Returns-weaken _ _ (interleave p ns (set xs n y) u)
            (interleave-Returns ns (set xs n y) u (written x x.place r) g)
            (λ ys v q.
              subst (λ a. Guarded p ys v a)
                (sym (
                  ap (save_all r) (writers-step n ns xs w u x y e ran)
                  ∙ save_all-writer_of r x x.place (writers ns (set xs n y) u)))
                q))
  ]

  -- Any handlers of one client in `Set` or `SetImmutable` at once, each before its `Lock`, on a
  -- session that nobody holds, whatever the order of their steps: all steps return, at most one
  -- handler is then between `Lock` and `Unlock`, one exactly where the mutex is taken, and the
  -- session has the values that it would have if the handlers that wrote had saved one after
  -- another, in the order of their writes.
  pub sets_serial :
      (ns : List ℕ) (xs : List Saver) (w : World D) (s : Session)
      → IsFree w p s
      → ((n : ℕ) (x : Saver) → get_elem? xs n ≡ some x → x.place ≡ arriving)
      → (ys : List Saver) × (w' : World D) × (t : Session) × (interleave p ns xs w ≡ done ys w')
        × (get_elem? w'.sessions p ≡ some t)
        × (t.values ≡ save_all s.values (writers ns xs w))
        × (count_inside ys ≤ 1)
        × ((t.locked ≡ true) ↔ (count_inside ys ≡ 1))
  sets_serial ns xs w s f outside =
      let out : (n : ℕ) (x : Saver) → get_elem? xs n ≡ some x → inside x.place ≡ false =
        λ n x e. ap inside (outside n x e) in
      let k : Guarded p xs w s.values = record {
        session = s;
        found = f.found;
        values = refl;
        unread = f.unread;
        current = λ n x e. outside-IsCurrent s.values x.place (out n x e);
        alone = λ n m x y e e' i j. cc (out n x e, i);
        held = λ n x e i. cc (out n x e, i);
        owned = λ e. cc (f.unlocked, e);
      } in
      let (ys, u, e, g) =
        Returns-returned _ (interleave p ns xs w) (interleave-Returns ns xs w s.values k) in
      let few = at_most_one ys g.alone in
      (
        ys,
        u,
        g.session,
        e,
        g.found,
        g.values,
        few,
        (
          λ l. let (n, x, at, i) = g.owned l in omega (arith, few, count_inside-found ys n x at i),
          λ c. let (n, x, at, i) = one_inside ys c in g.held n x at i,
        ),
      )
