-- ===== src/Clients/Start.antt =====
-- `Start` of sessions.go for one client, for a manager with no database.
use go_sessions.Base.{
  ℕ, GoString, str_eq, str_eq_refl, str_eq_sound, ◌≡◌, refl, sym, ◌∙◌, Bool, true, false, ◌&&◌,
  none, some, List, [], ◌∷◌, ◌++◌, length, get_elem?, get_elem?-append_last, get_elem?-append,
  get_elem?-lt, if◌then◌else◌, Bool-cases, Option-cases, inl, inr, ◌⊎◌, zero, suc, subst,
}
use go_sessions.Base.Int.{ℤ}
use go_sessions.Base.Outcome.{done}
use go_sessions.Memstore.{nil_store, find, len}
use go_sessions.Memstore.Lookup.{IsUnique}
use go_sessions.Lifetime.{zero_lifetime}
use go_sessions.Database.{Database}
use go_sessions.World.{Session, World, lookup, insert, put, store, unlock_provider}
use go_sessions.World.Laws.{lookup-insert, lock_provider_free, deref_lem}
use go_sessions.Session.{collect_garbage}
use go_sessions.Session.Flash.{insert-IsMap}
use go_sessions.Provider.{start_lifetime, new_session, init, read}
use go_sessions.Provider.Table.{load_nothing, read_missing}
use go_sessions.Provider.Requests.{read_existing}
use go_sessions.Cookie.{Request, get_cookie, Cookie}
use go_sessions.Config.{Config, Generator}
use go_sessions.Sessions.{decode_cookie_value, start_new, start}
use go_sessions.Sessions.Roundtrip.{request_sid_lem}
use go_sessions.Program.Owners.{AllIdle-get, AllIdle-append, HasOwners-append, HasOwners-insert}
use go_sessions.Clients.{
  Returns, Returns-continue, stored, IsServing, Holds, holder, put-IsServing, stored-put_same,
  kept-IsServing, nothing_stored,
}

-- What stands at the places of a longer list.
append_cases {ℓ} :
    {A : Type ℓ} (xs : List A) (x : A) (q : ℕ) (y : A)
    → get_elem? (xs ++ x ∷ []) q ≡ some y
    → (y ≡ x) ⊎ (get_elem? xs q ≡ some y)
append_cases [] x zero y h = inl cc
append_cases [] x (suc q) y h = cc
append_cases (z ∷ xs) x zero y h = inr h
append_cases (z ∷ xs) x (suc q) y h = append_cases xs x q y h

module _ {D : Type 0} (ops : Database D) where
  -- A session that was just made.
  abbrev pub made : World D → GoString → ℤ → Session
  made w sid expires = record {
    sid = sid;
    is_new = false;
    values = nil_store;
    flashes = [];
    locked = false;
    readers = 0;
    lifetime = (start_lifetime sid expires zero_lifetime w.clock).0;
  }

  abbrev pub listed : World D → GoString → ℤ → World D
  listed w sid expires = record w {
    clock = (start_lifetime sid expires zero_lifetime w.clock).1;
    sessions = w.sessions ++ made w sid expires ∷ [];
    table = insert w.table sid (length w.sessions);
    locked = false;
  }

  pub init_any :
      (w : World D) (sid : GoString) (expires : ℤ)
      → w.locked ≡ false
      → w.databases ≡ []
      → init ops sid expires w ≡ done (length w.sessions) (listed w sid expires)
  unfolding init new_session unlock_provider
  init_any w sid expires free no_databases =
      rw (load_nothing ops w sid no_databases, new_session)
        (rw (
          lock_provider_free
              (record w {
                clock = (start_lifetime sid expires zero_lifetime w.clock).1;
                sessions = w.sessions ++ made w sid expires ∷ [];
              })
              free,
          init,
        ))

  listed-IsServing :
      (w : World D) (sid : GoString) (expires : ℤ) → IsServing w → IsServing (listed w sid expires)
  listed-IsServing w sid expires v =
      let s : Session = made w sid expires in
      record {
        steady = record {
          mutex = refl;
          idle = AllIdle-append w.sessions s v.steady.idle (refl, refl);
          owners =
              HasOwners-insert w.table _ sid (length w.sessions) s
                (HasOwners-append w.table w.sessions s v.steady.owners)
                (get_elem?-append_last w.sessions s) refl;
          distinct = insert-IsMap w.table sid (length w.sessions) v.steady.distinct;
        };
        no_databases = v.no_databases;
        unique = λ q y e. elim (append_cases w.sessions s q y e) [
          | inl c ↦ subst (λ (x : Session). IsUnique x.values.entries) (sym c) tt
          | inr old ↦ v.unique q y old
        ];
      }

  listed-Holds :
      (w : World D) (sid : GoString) (expires : ℤ)
      → Holds (listed w sid expires) sid (length w.sessions) (made w sid expires)
  listed-Holds w sid expires = record {
    in_table = lookup-insert w.table sid (length w.sessions) sid ∙ rw (str_eq_refl sid);
    found = get_elem?-append_last w.sessions _;
    named = refl;
  }

  stored-listed :
      (w : World D) (sid : GoString) (expires : ℤ) (j key : GoString)
      → IsServing w
      → stored (listed w sid expires) j key ≡ (if str_eq sid j then none else stored w j key)
  unfolding find
  stored-listed w sid expires j key v =
      rw (lookup-insert w.table sid (length w.sessions) j) (elim (Bool-cases (str_eq sid j)) [
        | inl e ↦ rw e (rw (get_elem?-append_last w.sessions (made w sid expires)))
        | inr e ↦ rw e (elim (Option-cases (lookup w.table j)) [
          | inl gone ↦ rw gone
          | inr (q, there) ↦
              let (u, h) = holder w j q v there in
              rw there (
                rw (
                  get_elem?-append w.sessions (made w sid expires ∷ []) q
                    (get_elem?-lt w.sessions q u h.found)))
        ])
      ])

-- After `Start`: the client with the id has the session at `p`, and it has what it had, or nothing
-- where the id is a new one.
pub record IsStarted {D : Type 0} (w : World D) (sid : GoString) (fresh : Bool) (p : ℕ)
    (w' : World D) : Type 0 where
  pub serving : IsServing w'
  pub in_table : lookup w'.table sid ≡ some p
  pub contents :
      (j key : GoString)
      → stored w' j key ≡ (if fresh && str_eq sid j then none else stored w j key)
  pub heap : w'.heap ≡ w.heap

module _ {D : Type 0} (ops : Database D) where
  -- A request with an id, which may be in memory or not.
  read-Returns :
      (w : World D) (sid : GoString) (expires : ℤ)
      → IsServing w
      → Returns (λ p w'. IsStarted w sid false p w') (read ops sid expires w)
  read-Returns w sid expires v = elim (Option-cases (lookup w.table sid)) [
    | inl gone ↦
        let w0 : World D = record w { locked = false } in
        let v0 = kept-IsServing w w.clock w.heap v in
        rw (read_missing ops w sid expires v.steady.mutex gone) (
          rw (init_any ops w0 sid expires refl v.no_databases) (record {
            serving = listed-IsServing ops w0 sid expires v0;
            in_table = (listed-Holds ops w0 sid expires).in_table;
            contents = λ j key.
                stored-listed ops w0 sid expires j key v0 ∙ nothing_stored w sid j key gone;
            heap = refl;
          }))
    | inr (p, there) ↦
        let (s, h) = holder w sid p v there in
        let i = AllIdle-get w.sessions p s v.steady.idle h.found in
        let t : Session = record s { flashes = collect_garbage s.flashes; locked = false } in
        let after = put-IsServing w sid p s t v h (refl, i.1) refl (v.unique p s h.found) in
        rw
          (read_existing ops w sid expires p s v.steady.mutex there
            (record { found = h.found; unlocked = i.0; unread = i.1 }))
          (record {
            serving = kept-IsServing (put p t w) w.clock w.heap after;
            in_table = there;
            contents = stored-put_same w sid p s t v h refl;
            heap = refl;
          })
  ]

-- The generator of a configuration, and the id that it knows from a cookie's value, if any.
pub record Identifies (c : Config) (g : Generator) (known : GoString → GoString) : Type 0 where
  pub generates : c.session_id_generator ≡ some g
  pub identifies : (v : GoString) → decode_cookie_value c v ≡ some (known v)

-- With no codec the id is the cookie's value.
pub bare-Identifies :
    (c : Config) (g : Generator)
    → c.session_id_generator ≡ some g
    → c.decode ≡ none
    → Identifies c g (λ v. v)
unfolding decode_cookie_value
bare-Identifies c g generates no_decode = record {
  generates = generates;
  identifies = λ v. elim (Bool-cases (str_eq v [])) [
    | inl e ↦ rw e (rw (str_eq_sound v [] e))
    | inr e ↦ rw e (rw no_decode)
  ];
}

-- The id of the client, from the id that its cookie has: a new one if it has none.
abbrev pub client : Generator → ℕ → GoString → GoString
client g draw x = if str_eq x [] then g draw else x

module _ {D : Type 0} (ops : Database D) (c : Config) (g : Generator) (known : GoString → GoString)
    (i : Identifies c g known) where
  start_new-Returns :
      (w : World D) (draw : ℕ)
      → IsServing w
      → Returns (λ a w'. (a.0 ≡ g draw) × IsStarted w (g draw) true a.1 w') (start_new ops c draw w)
  unfolding start_new store len
  start_new-Returns w draw v =
      let sid = g draw in
      let p = length w.sessions in
      let w1 : World D = listed ops w sid c.expires in
      let v1 = listed-IsServing ops w sid c.expires v in
      let h = listed-Holds ops w sid c.expires in
      let t : Session = record (made ops w sid c.expires) { is_new = true } in
      rw (i.generates, start_new)
        (rw (init_any ops w sid c.expires v.steady.mutex v.no_databases) (
          rw (deref_lem w1 p (made ops w sid c.expires) h.found) (
            refl,
            record {
              serving =
                  put-IsServing w1 sid p (made ops w sid c.expires) t v1 h (refl, refl) refl tt;
              in_table = h.in_table;
              contents = λ j key.
                  stored-put_same w1 sid p (made ops w sid c.expires) t v1 h refl j key
                  ∙ stored-listed ops w sid c.expires j key v;
              heap = refl;
            },
          )))

  -- A request of a client starts its session: with what it had, or empty for a client whose cookie
  -- has no id.
  pub start-Returns :
      (w : World D) (unlimited draw : ℕ) (r : Request)
      → IsServing w
      → Returns
          (λ (a : ℕ × List Cookie) w'.
            IsStarted w
              (client g draw (known (get_cookie r c.cookie)))
              (str_eq (known (get_cookie r c.cookie)) [])
              a.0
              w')
          (start ops c unlimited draw r w)
  unfolding start str_eq
  start-Returns w unlimited draw r v =
      let v0 = get_cookie r c.cookie in
      let x = known v0 in
      rw (request_sid_lem c v0 x w (i.identifies v0), start)
        (elim (Bool-cases (str_eq x [])) [
          | inl e ↦ rw e (
              Returns-continue _ _ (start_new ops c draw w) _ (start_new-Returns w draw v)
                (λ a u b. b.1))
          | inr e ↦ rw e (
              Returns-continue _ _ (read ops x c.expires w) _ (read-Returns ops w x c.expires v)
                (λ p u b. b))
        ])
