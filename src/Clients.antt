-- ===== src/Clients.antt =====
-- What a client of the package sees of the sessions: the entry under each key of each id. This is
-- about a manager with no database, between two requests.
pub mod Values
pub mod Start
pub mod Ends
use go_sessions.Base.{
  ℕ, GoString, str_eq, str_eq_sound, str_eq_refl, ◌≡◌, ◌≢◌, refl, sym, ◌∙◌, true, false, Option,
  none, some, [], get_elem?, get_elem?-set_self, get_elem?-set_ne, get_elem?-lt, Bool-cases,
  Option-cases, inl, inr, if◌then◌else◌, arith, Bool, subst, zero, suc, set, List, ◌∷◌, ◌⊎◌, ap,
}
use go_sessions.Base.Outcome.{Outcome, done, panics, blocks, Exec, continue}
use go_sessions.Memstore.{Entry, find}
use go_sessions.Memstore.Lookup.{IsUnique}
use go_sessions.World.{Session, World, lookup, put}
use go_sessions.Value.{Heap}
use go_sessions.Lifetime.{Clock}
use go_sessions.Config.{Config, Generator, validate}
use go_sessions.Provider.{new_provider}
use go_sessions.Sessions
use go_sessions.Program.Owners.{IsIdle, AllIdle-set, HasOwners-set, HasOwners-lookup}
use go_sessions.Program.Steady.{IsSteady}

-- What stands in a list after a write.
set_cases {ℓ} :
    {A : Type ℓ} (xs : List A) (p q : ℕ) (v y : A)
    → get_elem? (set xs p v) q ≡ some y
    → (y ≡ v) ⊎ (get_elem? xs q ≡ some y)
set_cases [] p q v y h = inr h
set_cases (x ∷ xs) zero zero v y h = inl cc
set_cases (x ∷ xs) zero (suc q) v y h = inr h
set_cases (x ∷ xs) (suc p) zero v y h = inr h
set_cases (x ∷ xs) (suc p) (suc q) v y h = set_cases xs p q v y h

-- The call returns, with a result and a state of which `Q` holds.
abbrev pub Returns {ℓ} : {S A : Type ℓ} → (A → S → Type 0) → Outcome S A → Type 0
Returns Q (done a s) = Q a s
Returns Q (panics s) = ⊥
Returns Q (blocks s) = ⊥

pub Returns-continue {ℓ} :
    {S A B : Type ℓ} (P : A → S → Type 0) (Q : B → S → Type 0) (o : Outcome S A) (f : A → Exec S B)
    → Returns P o
    → ((a : A) (s : S) → P a s → Returns Q (f a s))
    → Returns Q (continue o f)
Returns-continue P Q (done a s) f e next = next a s e
Returns-continue P Q (panics s) f e next = absurd e
Returns-continue P Q (blocks s) f e next = absurd e

pub Returns-weaken {ℓ} :
    {S A : Type ℓ} (P Q : A → S → Type 0) (o : Outcome S A)
    → Returns P o
    → ((a : A) (s : S) → P a s → Q a s)
    → Returns Q o
Returns-weaken P Q (done a s) e next = next a s e
Returns-weaken P Q (panics s) e next = e
Returns-weaken P Q (blocks s) e next = e

pub Returns-returned {ℓ} :
    {S A : Type ℓ} (P : A → S → Type 0) (o : Outcome S A)
    → Returns P o
    → (a : A) × (s : S) × (o ≡ done a s) × P a s
Returns-returned P (done a s) e = (a, s, refl, e)
Returns-returned P (panics s) e = absurd e
Returns-returned P (blocks s) e = absurd e

abbrev pub behind : List Session → Option ℕ → Option Session
behind ss none = none
behind ss (some p) = get_elem? ss p

abbrev pub entry_of : Option Session → GoString → Option Entry
entry_of none key = none
entry_of (some s) key = find s.values.entries key

module _ {D : Type 0} where
  -- What is stored in memory for an id under a key.
  abbrev pub stored : World D → GoString → GoString → Option Entry
  stored w sid key = entry_of (behind w.sessions (lookup w.table sid)) key

  pub record IsServing (w : World D) : Type 0 where
    pub steady : IsSteady false w
    pub no_databases : w.databases ≡ []
    pub unique : (p : ℕ) (s : Session) → get_elem? w.sessions p ≡ some s → IsUnique s.values.entries

  -- The id has the session at `p`.
  pub record Holds (w : World D) (sid : GoString) (p : ℕ) (s : Session) : Type 0 where
    pub in_table : lookup w.table sid ≡ some p
    pub found : get_elem? w.sessions p ≡ some s
    pub named : s.sid ≡ sid

  pub holder :
      (w : World D) (sid : GoString) (p : ℕ)
      → IsServing w
      → lookup w.table sid ≡ some p
      → (s : Session) × Holds w sid p s
  holder w sid p v h =
      let (s, found, named) = HasOwners-lookup w.table w.sessions sid p v.steady.owners h in
      (s, record { in_table = h; found = found; named = named })

  pub put-IsServing :
      (w : World D) (sid : GoString) (p : ℕ) (s t : Session)
      → IsServing w
      → Holds w sid p s
      → IsIdle t
      → t.sid ≡ s.sid
      → IsUnique t.values.entries
      → IsServing (put p t w)
  put-IsServing w sid p s t v h i same u = record {
    steady = record {
      mutex = v.steady.mutex;
      idle = AllIdle-set w.sessions p t v.steady.idle i;
      owners = HasOwners-set w.table w.sessions p s t h.found same v.steady.owners;
      distinct = v.steady.distinct;
    };
    no_databases = v.no_databases;
    unique = λ q y e. elim (set_cases w.sessions p q t y e) [
      | inl c ↦ subst (λ (x : Session). IsUnique x.values.entries) (sym c) u
      | inr old ↦ v.unique q y old
    ];
  }

  other_pointer :
      (w : World D) (sid j : GoString) (p q : ℕ) (s t : Session)
      → str_eq sid j ≡ false
      → Holds w sid p s
      → Holds w j q t
      → p ≢ q
  other_pointer w sid j p q s t differ h k e =
      let same : s ≡ t = cc (h.found, k.found, e) in
      let ids : sid ≡ j = cc (same, h.named, k.named) in
      cc (differ, subst (λ x. str_eq sid x ≡ true) ids (str_eq_refl sid))

  -- A write to the session of one id.
  pub stored-put :
      (w : World D) (sid : GoString) (p : ℕ) (s t : Session)
      → IsServing w
      → Holds w sid p s
      → (j key : GoString)
      → stored (put p t w) j key
        ≡ (if str_eq sid j then find t.values.entries key else stored w j key)
  stored-put w sid p s t v h j key = elim (Bool-cases (str_eq sid j)) [
    | inl e ↦
        let here : lookup w.table j ≡ some p =
          subst (λ x. lookup w.table x ≡ some p) (str_eq_sound sid j e) h.in_table in
        rw e
          (rw here (rw (get_elem?-set_self w.sessions p t (get_elem?-lt w.sessions p s h.found))))
    | inr e ↦ elim (Option-cases (lookup w.table j)) [
      | inl gone ↦ rw e (rw gone)
      | inr (q, there) ↦
          let (u, k) = holder w j q v there in
          rw e (
            rw there (rw (get_elem?-set_ne w.sessions p q t (other_pointer w sid j p q s u e h k))))
    ]
  ]

  pub stored-Holds :
      (w : World D) (sid : GoString) (p : ℕ) (s : Session) (key : GoString)
      → Holds w sid p s
      → stored w sid key ≡ find s.values.entries key
  stored-Holds w sid p s key h = rw (h.in_table) (rw (h.found))

  -- A write that leaves the values alone.
  pub stored-put_same :
      (w : World D) (sid : GoString) (p : ℕ) (s t : Session)
      → IsServing w
      → Holds w sid p s
      → t.values ≡ s.values
      → (j key : GoString) → stored (put p t w) j key ≡ stored w j key
  stored-put_same w sid p s t v h same j key =
      stored-put w sid p s t v h j key
      ∙ rw same (elim (Bool-cases (str_eq sid j)) [
        | inl e ↦
            rw e
              (sym (stored-Holds w sid p s key h) ∙ ap (λ x. stored w x key) (str_eq_sound sid j e))
        | inr e ↦ rw e
      ])

module _ {D : Type 0} where
  -- The clock and the heap are free to change.
  pub kept-IsServing :
      (w : World D) (clock : Clock GoString) (heap : Heap)
      → IsServing w
      → IsServing (record w { clock = clock; heap = heap; locked = false })
  kept-IsServing w clock heap v = record {
    steady = record {
      mutex = refl;
      idle = v.steady.idle;
      owners = v.steady.owners;
      distinct = v.steady.distinct;
    };
    no_databases = v.no_databases;
    unique = v.unique;
  }

  pub nothing_stored :
      (w : World D) (sid j key : GoString)
      → lookup w.table sid ≡ none
      → (if str_eq sid j then none else stored w j key) ≡ stored w j key
  nothing_stored w sid j key gone = elim (Bool-cases (str_eq sid j)) [
    | inl e ↦
        let same : lookup w.table j ≡ none =
          subst (λ x. lookup w.table x ≡ none) (str_eq_sound sid j e) gone in
        rw e (rw same)
    | inr e ↦ rw e
  ]

module _ {D : Type 0} where
  -- A manager that `New` made.
  pub new-IsServing :
      (uuid_v4 : Generator) (c : Config) (clock : Clock GoString) (heap : Heap)
      → IsServing (Sessions.new {D = D} uuid_v4 c clock heap).1
  unfolding Sessions.new new_provider
  new-IsServing uuid_v4 c clock heap = record {
    steady = record { mutex = refl; idle = tt; owners = tt; distinct = tt };
    no_databases = refl;
    unique = λ p s e. cc;
  }
