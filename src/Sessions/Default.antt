-- ===== src/Sessions/Default.antt =====
-- The functions at the top level of sessions.go, each of which calls the method of its name on the
-- variable `Default`.
use go_sessions.Base.{
  ℕ, GoString, codes, str_eq, ◌≡◌, refl, true, false, none, some, List, [], ◌∷◌, ◌++◌, length,
  get_elem?, get_elem?-append_last,
}
use go_sessions.Base.Int.{ℤ, pos}
use go_sessions.Base.Outcome.{done, Exec}
use go_sessions.Value.{Heap}
use go_sessions.Memstore.{len, nil_store}
use go_sessions.Lifetime.{Clock, zero_lifetime, begin}
use go_sessions.Database.{Database}
use go_sessions.World.{Session, World, insert, put, store, unlock_provider}
use go_sessions.World.Laws.{deref_lem, get-put, lock_provider_free}
use go_sessions.Provider.{init, new_session}
use go_sessions.Provider.Table.{load_nothing}
use go_sessions.Cookie.{Cookie, Request, get_cookie}
use go_sessions.Config.{Config, Generator, validate, default_cookie_name}
use go_sessions.Sessions
use go_sessions.Sessions.{new, start_new, encode_cookie_value, cookie_expires}
use go_sessions.Sessions.Roundtrip.{no_cookie}
use go_sessions.Sessions.Fasthttp
use go_sessions.Sessions.Fasthttp.{Server}

-- `Config{}`
abbrev pub zero_config : Config
zero_config = record {
  cookie = codes "";
  cookie_secure_tls = false;
  encode = none;
  decode = none;
  expires = pos 0;
  session_id_generator = none;
  disable_subdomain_persistence = false;
}

-- `Default`, when the program starts.
unfoldable pub default : {D : Type 0} → Generator → Clock GoString → Heap → Config × World D
unfolding new
default uuid_v4 clock heap = new uuid_v4 (validate uuid_v4 zero_config) clock heap

-- Its configuration, which no function changes.
abbrev pub config : Generator → Config
config uuid_v4 = validate uuid_v4 (validate uuid_v4 zero_config)

module _ {D : Type 0} (ops : Database D) (uuid_v4 : Generator) where
  unfoldable pub start : ℕ → ℕ → Request → Exec (World D) (ℕ × List Cookie)
  unfolding Sessions.start
  start unlimited draw r = Sessions.start ops (config uuid_v4) unlimited draw r

  unfoldable pub destroy : Request → Exec (World D) (List Cookie)
  unfolding Sessions.destroy
  destroy r = Sessions.destroy ops (config uuid_v4) r

  unfoldable pub destroy_by_id : GoString → Exec (World D) (Unit {0})
  unfolding Sessions.destroy_by_id
  destroy_by_id sid = Sessions.destroy_by_id ops (config uuid_v4) sid

  unfoldable pub destroy_all : Exec (World D) (Unit {0})
  unfolding Sessions.destroy_all
  destroy_all = Sessions.destroy_all ops (config uuid_v4)

  unfoldable pub start_fasthttp :
      {Ctx : Type 0} → Server Ctx → ℕ → ℕ → Ctx → Exec (World D) (ℕ × Ctx)
  unfolding Fasthttp.start
  start_fasthttp server unlimited draw ctx =
      Fasthttp.start server ops (config uuid_v4) unlimited draw ctx

  unfoldable pub destroy_fasthttp : {Ctx : Type 0} → Server Ctx → Ctx → Exec (World D) Ctx
  unfolding Fasthttp.destroy
  destroy_fasthttp server ctx = Fasthttp.destroy server ops (config uuid_v4) ctx

module _ {D : Type 0} (uuid_v4 : Generator) where
  unfoldable pub update_expiration : ℕ → Request → ℤ → Exec (World D) (List Cookie)
  unfolding Sessions.update_expiration
  update_expiration unlimited r expires =
      Sessions.update_expiration (config uuid_v4) unlimited r expires

  unfoldable pub shift_expiration : ℕ → Request → Exec (World D) (List Cookie)
  unfolding Sessions.shift_expiration
  shift_expiration unlimited r = Sessions.shift_expiration (config uuid_v4) unlimited r

  unfoldable pub update_expiration_fasthttp :
      {Ctx : Type 0} → Server Ctx → ℕ → ℤ → Ctx → Exec (World D) Ctx
  unfolding Fasthttp.update_expiration
  update_expiration_fasthttp server unlimited expires ctx =
      Fasthttp.update_expiration server (config uuid_v4) unlimited expires ctx

  unfoldable pub shift_expiration_fasthttp :
      {Ctx : Type 0} → Server Ctx → ℕ → Ctx → Exec (World D) Ctx
  unfolding Fasthttp.shift_expiration
  shift_expiration_fasthttp server unlimited ctx =
      Fasthttp.shift_expiration server (config uuid_v4) unlimited ctx

unfoldable pub use_database : {D : Type 0} → D → Exec (World D) (Unit {0})
unfolding Sessions.use_database
use_database db = Sessions.use_database db

module _ {D : Type 0} (ops : Database D) where
  -- A session that never ends.
  abbrev endless : GoString → Session
  endless sid = record {
    sid = sid;
    is_new = false;
    values = nil_store;
    flashes = [];
    locked = false;
    readers = 0;
    lifetime = zero_lifetime;
  }

  abbrev added : GoString → World D → World D
  added sid w = record w { sessions = w.sessions ++ endless sid ∷ [] }

  new_endless :
      (w : World D) (sid : GoString)
      → w.databases ≡ []
      → new_session ops sid (pos 0) w ≡ done (length w.sessions) (added sid w)
  unfolding new_session begin
  new_endless w sid no_databases = rw (load_nothing ops w sid no_databases, new_session)

  abbrev listed : GoString → World D → World D
  listed sid w = record (added sid w) {
    table = insert w.table sid (length w.sessions);
    locked = false;
  }

  init_endless :
      (w : World D) (sid : GoString)
      → w.locked ≡ false
      → w.databases ≡ []
      → init ops sid (pos 0) w ≡ done (length w.sessions) (listed sid w)
  unfolding init unlock_provider
  init_endless w sid free no_databases =
      rw (new_endless w sid no_databases, init) (rw (lock_provider_free (added sid w) free, init))

module _ {D : Type 0} (ops : Database D) (uuid_v4 : Generator) where
  abbrev given : World D → GoString → World D
  given w sid =
      put (length w.sessions) (record (endless ops sid) { is_new = true }) (listed ops sid w)

  start_new_endless :
      (w : World D) (draw : ℕ)
      → w.locked ≡ false
      → w.databases ≡ []
      → start_new ops (config uuid_v4) draw w
        ≡ done (uuid_v4 draw, length w.sessions) (given w (uuid_v4 draw))
  unfolding start_new store len validate
  start_new_endless w draw free no_databases =
      rw (init_endless ops w (uuid_v4 draw) free no_databases, start_new)
        (rw (
          deref_lem (listed ops (uuid_v4 draw) w) (length w.sessions) (endless ops (uuid_v4 draw))
            (get_elem?-append_last w.sessions _)))

  -- `Start` of the package, before anything is configured, with no database and the provider's mutex
  -- free, for a request that has no cookie of the default name: the new session never ends, since no
  -- timer is armed for it, and the cookie of that name, which holds its id, expires as
  -- `CookieExpireUnlimited` says.
  default_start :
      (w : World D) (unlimited draw : ℕ) (r : Request)
      → w.locked ≡ false
      → w.databases ≡ []
      → get_cookie r default_cookie_name ≡ []
      → (w' : World D) × (p : ℕ) × (cookie : Cookie) × (s : Session) × (start ops uuid_v4 unlimited
            draw r w
          ≡ done (p, cookie ∷ []) w')
        × (get_elem? w'.sessions p ≡ some s)
        × (s.sid ≡ uuid_v4 draw)
        × (s.lifetime ≡ zero_lifetime)
        × (w'.clock ≡ w.clock)
        × (cookie.name ≡ default_cookie_name)
        × (cookie.value ≡ uuid_v4 draw)
        × (cookie.expires ≡ unlimited)
  unfolding start str_eq encode_cookie_value cookie_expires validate Sessions.update_cookie
  default_start w unlimited draw r free no_databases fresh = (
    given w (uuid_v4 draw),
    length w.sessions,
    Sessions.update_cookie (config uuid_v4) w.clock.now w.clock.tick unlimited r (uuid_v4 draw)
        (pos 0),
    record (endless ops (uuid_v4 draw)) { is_new = true },
    rw (fresh, start)
        (rw (no_cookie (config uuid_v4) w) (rw (start_new_endless w draw free no_databases))),
    get-put (listed ops (uuid_v4 draw) w) (length w.sessions) (endless ops (uuid_v4 draw)) _
        (get_elem?-append_last w.sessions _),
    refl,
    refl,
    refl,
    refl,
    refl,
    refl,
  )
