-- ===== src/Provider/Merge.antt =====
-- `loadSessionFromDB` of provider.go: which values and which lifetime a new session starts with.
use go_sessions.Base.{
  ℕ, suc, ◌+◌, ◌≤◌, GoString, ◌==◌, ◌≡◌, refl, sym, ap₂, subst, ◌∙◌, ◌⊎◌, inl, inr, true, false,
  Option, none, some, List, [], ◌∷◌, length, arith, if◌then◌else◌, Bool-cases, ==_iff,
}
use go_sessions.Base.Outcome.{done}
use go_sessions.Value.{Value, Heap}
use go_sessions.Memstore.{Entry, Store, find}
use go_sessions.Memstore.Lookup.{IsUnique}
use go_sessions.Memstore.Mutable.{
  AllMutable, raw, or_else, set_each, visit-set_each, raw-set_each, set_each-AllMutable,
  set_each-IsUnique,
}
use go_sessions.Lifetime.{LifeTime, has_expired, is_zero, zero_lifetime}
use go_sessions.Database.{Database, RemoteStore}
use go_sessions.World.{World}
use go_sessions.Provider.{Loading, load_round, load_rounds, load_session_from_db, start}

-- What a database of this package returns: distinct keys and no immutable entry.
abbrev pub IsPlain : RemoteStore → Type 0
IsPlain r = IsUnique r.values.entries × AllMutable r.values.entries

abbrev pub AllPlain : List RemoteStore → Type 0
AllPlain [] = Unit {0}
AllPlain (r ∷ rs) = IsPlain r × AllPlain rs

-- The value under a key, from the value that earlier databases gave it.
abbrev pub newest : ℕ → List RemoteStore → GoString → Option Value → Option Value
newest now [] k v = v
newest now (r ∷ rs) k v =
    newest now rs k (if has_expired now r.lifetime then v else or_else (find r.values.entries k) v)

-- The first lifetime that is not zero among the stores that have not expired.
abbrev pub first_lifetime : ℕ → List RemoteStore → LifeTime → LifeTime
first_lifetime now [] lt = lt
first_lifetime now (r ∷ rs) lt =
    first_lifetime now rs
      (if has_expired now r.lifetime then lt else if is_zero lt then r.lifetime else lt)

-- The variables of the loop before a round, with `left` databases to go out of `n`.
record Inv (n left : ℕ) (l : Loading) : Type 0 where
  unique : IsUnique l.store.entries
  mutable : AllMutable l.store.entries
  bound : l.first_valid + left ≤ n + 1
  untouched : (l.store.entries ≡ []) ⊎ (l.first_valid + left ≤ n)

record Round (now n left : ℕ) (r : RemoteStore) (l l' : Loading) : Type 0 where
  runs : load_round now n r l ≡ some l'
  inv : Inv n left l'
  heap : l'.heap ≡ l.heap
  lifetime : l'.lifetime ≡ (
      if has_expired now r.lifetime
      then l.lifetime
      else if is_zero l.lifetime
      then r.lifetime
      else l.lifetime)
  values :
      (k : GoString)
      → raw (find l'.store.entries k) ≡ (
          if has_expired now r.lifetime
          then raw (find l.store.entries k)
          else or_else (find r.values.entries k) (raw (find l.store.entries k)))

next_lifetime : RemoteStore → LifeTime → LifeTime
next_lifetime r lt = if is_zero lt then r.lifetime else lt

still_untouched :
    (n left : ℕ) (l : Loading)
    → (l.store.entries ≡ []) ⊎ (l.first_valid + suc left ≤ n)
    → (l.store.entries ≡ []) ⊎ (l.first_valid + 1 + left ≤ n)
still_untouched n left l (inl e) = inl e
still_untouched n left l (inr b) = inr (omega arith)

raw-or_else : (o : Option Entry) → raw o ≡ or_else o none
raw-or_else none = refl
raw-or_else (some kv) = refl

expired-Round :
    (now n left : ℕ) (r : RemoteStore) (l : Loading)
    → Inv n (suc left) l
    → has_expired now r.lifetime ≡ true
    → Round now n left r l (record l { first_valid = l.first_valid + 1 })
unfolding load_round
expired-Round now n left r l i h = record {
  runs = rw (h, load_round);
  inv = record {
    unique = i.unique;
    mutable = i.mutable;
    bound = omega (arith, i.bound);
    untouched = still_untouched n left l i.untouched;
  };
  heap = refl;
  lifetime = rw h;
  values = λ k. rw h;
}

-- The store of the last database is taken as it is only where nothing was merged before.
whole_untouched :
    (n left : ℕ) (l : Loading)
    → Inv n (suc left) l
    → n == l.first_valid ≡ true
    → l.store.entries ≡ []
whole_untouched n left l i h = only i.untouched
  where
    only : (l.store.entries ≡ []) ⊎ (l.first_valid + suc left ≤ n) → l.store.entries ≡ []
    only (inl e) = e
    only (inr b) = absurd (omega (arith, (==_iff n l.first_valid).0 h))

nothing_found :
    (l : Loading) (k : GoString) → l.store.entries ≡ [] → raw (find l.store.entries k) ≡ none
unfolding find
nothing_found l k e = rw e

whole-Round :
    (now n left : ℕ) (r : RemoteStore) (l : Loading)
    → IsPlain r
    → Inv n (suc left) l
    → has_expired now r.lifetime ≡ false
    → n == l.first_valid ≡ true
    → Round now n left r l (record l { store = r.values; lifetime = next_lifetime r l.lifetime })
unfolding load_round next_lifetime
whole-Round now n left r l plain i h last = record {
  runs = rw (h, load_round) (rw last);
  inv = record {
    unique = plain.0;
    mutable = plain.1;
    bound = omega (arith, i.bound);
    untouched = inr (omega (arith, i.bound));
  };
  heap = refl;
  lifetime = rw h;
  values = λ k.
      rw (h, nothing_found l k (whole_untouched n left l i last))
        (raw-or_else (find r.values.entries k));
}

merge-Round :
    (now n left : ℕ) (r : RemoteStore) (l : Loading)
    → IsPlain r
    → Inv n (suc left) l
    → has_expired now r.lifetime ≡ false
    → n == l.first_valid ≡ false
    → Round now n left r l (record l {
      store = set_each r.values.entries l.store;
      lifetime = next_lifetime r l.lifetime;
    })
unfolding load_round next_lifetime
merge-Round now n left r l plain i h more = record {
  runs = rw (h, load_round) (rw more (rw (visit-set_each l.heap r.values.entries l.store plain.1)));
  inv = record {
    unique = set_each-IsUnique r.values.entries l.store i.unique;
    mutable = set_each-AllMutable r.values.entries l.store i.mutable;
    bound = omega (arith, i.bound);
    untouched = inr (omega (arith, i.bound));
  };
  heap = refl;
  lifetime = rw h;
  values = λ k. rw h (raw-set_each r.values.entries l.store k plain.0 i.mutable);
}

one-Round :
    (now n left : ℕ) (r : RemoteStore) (l : Loading)
    → IsPlain r
    → Inv n (suc left) l
    → (l' : Loading) × Round now n left r l l'
one-Round now n left r l plain i = elim (Bool-cases (has_expired now r.lifetime)) [
  | inl h ↦ (_, expired-Round now n left r l i h)
  | inr h ↦ elim (Bool-cases (n == l.first_valid)) [
    | inl last ↦ (_, whole-Round now n left r l plain i h last)
    | inr more ↦ (_, merge-Round now n left r l plain i h more)
  ]
]

module _ {D : Type 0} (ops : Database D) (now : ℕ) (sid : GoString) where
  -- What the databases return, one after the other.
  abbrev pub remotes : Heap → List D → List RemoteStore
  remotes h [] = []
  remotes h (d ∷ ds) = (ops.load now sid h d).0 ∷ remotes (ops.load now sid h d).2 ds

  record Loaded (n : ℕ) (ds : List D) (l : Loading) : Type 0 where
    after : List D
    last : Loading
    runs : load_rounds ops now sid n ds l ≡ some (after, last)
    lifetime : last.lifetime ≡ first_lifetime now (remotes l.heap ds) l.lifetime
    values :
        (k : GoString)
        → raw (find last.store.entries k)
          ≡ newest now (remotes l.heap ds) k (raw (find l.store.entries k))

  load_step :
      (n : ℕ) (d : D) (ds after : List D) (l l2 last : Loading)
      → load_round now n
          (ops.load now sid l.heap d).0
          (record l { heap = (ops.load now sid l.heap d).2 })
        ≡ some l2
      → load_rounds ops now sid n ds l2 ≡ some (after, last)
      → load_rounds ops now sid n (d ∷ ds) l ≡ some ((ops.load now sid l.heap d).1 ∷ after, last)
  unfolding load_rounds
  load_step n d ds after l l2 last e rest = rw (e, load_rounds) (rw rest)

  all_rounds :
      (n : ℕ) (ds : List D) (l : Loading)
      → AllPlain (remotes l.heap ds)
      → Inv n (length ds) l
      → Loaded n ds l
  unfolding load_rounds
  all_rounds n [] l plain i = record {
    after = [];
    last = l;
    runs = refl;
    lifetime = refl;
    values = λ k. refl;
  }
  all_rounds n (d ∷ ds) l plain i =
      let loaded = ops.load now sid l.heap d in
      let l1 : Loading = record l { heap = loaded.2 } in
      let i1 : Inv n (suc (length ds)) l1 = record {
        unique = i.unique;
        mutable = i.mutable;
        bound = i.bound;
        untouched = i.untouched;
      } in
      let round = one-Round now n (length ds) loaded.0 l1 plain.0 i1 in
      let l2 : Loading = round.0 in
      let rest =
        all_rounds n ds l2 (subst (λ h. AllPlain (remotes h ds)) (sym round.1.heap) plain.1)
          round.1.inv in
      record {
        after = loaded.1 ∷ rest.after;
        last = rest.last;
        runs = load_step n d ds rest.after l l2 rest.last round.1.runs rest.runs;
        lifetime =
            rest.lifetime
            ∙ ap₂ (λ h lt. first_lifetime now (remotes h ds) lt) round.1.heap round.1.lifetime;
        values = λ k.
            rest.values k
            ∙ ap₂ (λ h v. newest now (remotes h ds) k v) round.1.heap (round.1.values k);
      }

load_from_rounds :
    {D : Type 0} (ops : Database D) (w : World D) (sid : GoString) (ds : List D) (l : Loading)
    → load_rounds ops w.clock.now sid (length w.databases) w.databases (start w.heap) ≡ some (ds, l)
    → load_session_from_db ops sid w
      ≡ done (l.store, l.lifetime) (record w { databases = ds; heap = l.heap })
unfolding load_session_from_db
load_from_rounds ops w sid ds l e = rw (e, load_session_from_db)

-- Loading a session always succeeds where the databases return plain stores. Databases whose stored
-- lifetime has expired are skipped. Of the others, all are merged: under each key stands the value
-- of the last database that has it, and the lifetime is the first one that is not zero.
pub load_merges :
    {D : Type 0} (ops : Database D) (w : World D) (sid : GoString)
    → AllPlain (remotes ops w.clock.now sid w.heap w.databases)
    → (w' : World D) × (values : Store) × (lifetime : LifeTime) × (load_session_from_db ops sid w
        ≡ done (values, lifetime) w')
      × (lifetime
          ≡ first_lifetime w.clock.now
              (remotes ops w.clock.now sid w.heap w.databases)
              zero_lifetime)
      × ((k : GoString)
          → raw (find values.entries k)
            ≡ newest w.clock.now (remotes ops w.clock.now sid w.heap w.databases) k none)
unfolding find
load_merges ops w sid plain =
    let n : ℕ = length w.databases in
    let begun : Inv n n (start w.heap) = record {
      unique = tt;
      mutable = tt;
      bound = omega arith;
      untouched = inl refl;
    } in
    let all = all_rounds ops w.clock.now sid n w.databases (start w.heap) plain begun in
    (
      record w { databases = all.after; heap = all.last.heap },
      all.last.store,
      all.last.lifetime,
      load_from_rounds ops w sid all.after all.last all.runs,
      all.lifetime,
      all.values,
    )
