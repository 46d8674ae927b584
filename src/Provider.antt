-- ===== src/Provider.antt =====
-- provider.go: the sessions in memory, and what is loaded from and told to the databases. The
-- package's provider is the `World`; a `*Session` is an index.
pub mod Merge
pub mod Deadlock
pub mod Table
pub mod StaleTimer
pub mod Requests
pub mod Everyone
pub mod Concurrent
use go_sessions.Base.{
  ℕ, ◌+◌, GoString, ◌==◌, leb, Bool, true, false, not, Option, none, some, List, [], ◌∷◌, ◌++◌,
  length, get_elem?, if◌then◌else◌,
}
use go_sessions.Base.Int.{ℤ, pos, leb_ℤ}
use go_sessions.Base.Outcome.{Outcome, done, panics, blocks, Exec, ◌>>=◌, ◌>>◌, pure, gets, modify}
use go_sessions.Value.{Value, Heap}
use go_sessions.Memstore.{Store, nil_store, set_entry, visit}
use go_sessions.Lifetime.{
  LifeTime, zero_lifetime, Clock, begin, revive, shift, rearm, is_zero, has_expired,
}
use go_sessions.Database.{Database, RemoteStore, action_destroy}
use go_sessions.World.{
  Session, World, StringMap, lookup, delete, insert, deref, lock_provider, unlock_provider,
}
use go_sessions.Session.{sync_databases, run_flash_gc}

-- The variables of the loop of `loadSessionFromDB`, with the heap that the loads write.
pub record Loading : Type 0 where
  pub store : Store
  pub lifetime : LifeTime
  pub first_valid : ℕ
  pub heap : Heap

-- The visitor `store.Set(key, value)`.
unfoldable pub merge : GoString → Value → Store → Store
unfolding set_entry
merge key v store = (set_entry store key v).0

-- One round, for one of `n` databases, after its `Load`; `none` is a panic in `Visit`.
unfoldable pub load_round : ℕ → ℕ → RemoteStore → Loading → Option Loading
unfolding merge has_expired is_zero
load_round now n remote l =
    if has_expired now remote.lifetime
    then some (record l { first_valid = l.first_valid + 1 })
    else (let lifetime = if is_zero l.lifetime then remote.lifetime else l.lifetime in
        if n == l.first_valid
        then some (record l { store = remote.values; lifetime = lifetime })
        else elim (visit merge l.heap remote.values.entries l.store) [
          | none ↦ none
          | some (store, h) ↦ some (record l { store = store; lifetime = lifetime; heap = h })
        ])

abbrev pub start : Heap → Loading
start h = record { store = nil_store; lifetime = zero_lifetime; first_valid = 1; heap = h }

-- The timer of a new session destroys what its id names when it fires.
unfoldable pub start_lifetime : GoString → ℤ → LifeTime → Clock GoString → LifeTime × Clock GoString
unfolding is_zero revive begin
start_lifetime sid expires lifetime c =
    if not (is_zero lifetime) then revive c lifetime sid else begin c lifetime expires sid

module _ {D : Type 0} (ops : Database D) where
  unfoldable pub load_rounds : ℕ → GoString → ℕ → List D → Loading → Option (List D × Loading)
  unfolding load_round
  load_rounds now sid n [] l = some ([], l)
  load_rounds now sid n (d ∷ ds) l =
      let (remote, d', h) = ops.load now sid l.heap d in
      elim (load_round now n remote (record l { heap = h })) [
        | none ↦ none
        | some l' ↦ elim (load_rounds now sid n ds l') [
          | none ↦ none
          | some (ds', l'') ↦ some (d' ∷ ds', l'')
        ]
      ]

  unfoldable pub load_session_from_db : GoString → Exec (World D) (Store × LifeTime)
  unfolding load_rounds
  load_session_from_db sid w =
      elim (load_rounds w.clock.now sid (length w.databases) w.databases (start w.heap)) [
        | none ↦ panics w
        | some (ds, l) ↦ done (l.store, l.lifetime) (record w { databases = ds; heap = l.heap })
      ]

  -- The pointer to the new session.
  unfoldable pub new_session : GoString → ℤ → Exec (World D) ℕ
  unfolding start_lifetime
  new_session sid expires = do
    loaded ← load_session_from_db sid
    λ w.
        let (lifetime, clock) = start_lifetime sid expires loaded.1 w.clock in
        let sess : Session = record {
          sid = sid;
          is_new = false;
          values = loaded.0;
          flashes = [];
          locked = false;
          readers = 0;
          lifetime = lifetime;
        } in
        done (length w.sessions) (record w { clock = clock; sessions = w.sessions ++ sess ∷ [] })

  unfoldable pub init : GoString → ℤ → Exec (World D) ℕ
  init sid expires = do
    p ← new_session sid expires
    lock_provider
    modify (λ w. record w { table = insert w.table sid p })
    unlock_provider
    pure p

  unfoldable pub read_found : GoString → ℤ → Option ℕ → Exec (World D) ℕ
  read_found sid expires (some p) = do run_flash_gc p; unlock_provider; pure p
  read_found sid expires none = do unlock_provider; init sid expires

  unfoldable pub read : GoString → ℤ → Exec (World D) ℕ
  unfolding read_found
  read sid expires = do
    lock_provider
    found ← gets (λ w. lookup w.table sid)
    read_found sid expires found

  unfoldable pub delete_session : ℕ → Exec (World D) (Unit {0})
  delete_session p = do
    s ← deref p
    modify (λ w. record w { table = delete w.table s.sid })
    sync_databases ops s action_destroy none

  unfoldable pub destroy_found : Option ℕ → Exec (World D) (Unit {0})
  unfolding delete_session
  destroy_found none = pure tt
  destroy_found (some p) = delete_session p

  unfoldable pub destroy : GoString → Exec (World D) (Unit {0})
  unfolding destroy_found
  destroy sid = do
    lock_provider
    found ← gets (λ w. lookup w.table sid)
    destroy_found found
    unlock_provider

  -- The loop of `DestroyAll` over the sessions of the table as it was.
  unfoldable pub delete_sessions : StringMap ℕ → Exec (World D) (Unit {0})
  unfolding delete_session
  delete_sessions [] = pure tt
  delete_sessions ((k, p) ∷ m) = do delete_session p; delete_sessions m

  unfoldable pub destroy_all : Exec (World D) (Unit {0})
  unfolding delete_sessions
  destroy_all = do lock_provider; m ← gets (λ w. w.table); delete_sessions m; unlock_provider

  -- A timer fires, if it is due: it is disarmed, and its callback runs.
  unfoldable pub fire : ℕ → Exec (World D) (Unit {0})
  unfolding destroy rearm
  fire t w = elim (get_elem? w.clock.timers t) [
    | none ↦ done tt w
    | some timer ↦ elim timer.armed [
      | none ↦ done tt w
      | some due ↦
          if leb due w.clock.now
          then destroy timer.callback (record w { clock = rearm w.clock t none })
          else done tt w
    ]
  ]

module _ {D : Type 0} where
  -- `newProvider`, in a process with that clock and heap.
  unfoldable pub new_provider : Clock GoString → Heap → World D
  new_provider clock heap = record {
    clock = clock;
    heap = heap;
    sessions = [];
    table = [];
    databases = [];
    pool = [];
    locked = false;
  }

  unfoldable pub register_database : D → Exec (World D) (Unit {0})
  register_database db = do
    lock_provider
    modify (λ w. record w { databases = w.databases ++ db ∷ [] })
    unlock_provider

  unfoldable pub shift_found : ℤ → Option ℕ → Exec (World D) Bool
  unfolding shift
  shift_found expires none = pure false
  shift_found expires (some p) = do
    s ← deref p
    modify (λ w. record w { clock = shift w.clock s.lifetime expires })
    pure true

  unfoldable pub update_expiration : GoString → ℤ → Exec (World D) Bool
  unfolding shift_found
  update_expiration sid expires = if leb_ℤ expires (pos 0) then pure false else (do
    lock_provider
    found ← gets (λ w. lookup w.table sid)
    unlock_provider
    shift_found expires found)
