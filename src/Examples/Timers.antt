-- ===== src/Examples/Timers.antt =====
-- Lifetimes and timers at concrete times.
use go_sessions.Base.{
  codes, GoString, str_eq, ◌≡◌, refl, true, false, none, some, List, [], ◌∷◌, arith,
}
use go_sessions.Memstore.{nil_store}
use go_sessions.Lifetime.{Clock, LifeTime, has_expired}
use go_sessions.Lifetime.Expiry.{IsArmed, shift_stale}
use go_sessions.Database.{SyncPayload}
use go_sessions.World.{Session, World, lookup}
use go_sessions.Provider.StaleTimer.{stale_timer}
use go_sessions.Examples.Requests.{journal}

abbrev pub ticking : Clock GoString
ticking = record {
  now = 100;
  tick = 3;
  timers = record { armed = some 130; callback = codes "s1" } ∷ [];
}

abbrev pub half_minute : LifeTime
half_minute = record { time = 130; timer = some 0 }

abbrev armed_at_130 : IsArmed ticking half_minute 130 (codes "s1")
armed_at_130 = record { at = 0; held = refl; found = refl }

shift_stale_example : has_expired 150 half_minute ≡ true
shift_stale_example =
    (shift_stale ticking half_minute 130 (codes "s1") 59 150 armed_at_130 (omega arith)
      (omega arith) (omega arith)).1

abbrev client : Session
client = record {
  sid = codes "s1";
  is_new = false;
  values = nil_store;
  flashes = [];
  locked = false;
  readers = 0;
  lifetime = half_minute;
}

abbrev one_client : World (List SyncPayload)
one_client = record {
  clock = ticking;
  heap = [];
  sessions = client ∷ [];
  table = (codes "s1", 0) ∷ [];
  databases = [];
  pool = [];
  locked = false;
}

one_client-lookup : lookup one_client.table (codes "s1") ≡ some 0
unfolding lookup str_eq
one_client-lookup = refl

after_stale : World (List SyncPayload)
after_stale =
    (stale_timer journal one_client (codes "s1") 0 client 130 10 29 20 refl refl one_client-lookup
      refl refl armed_at_130 (omega arith) (omega arith)).2

stale_timer_example : lookup after_stale.table (codes "s1") ≡ none
unfolding after_stale
stale_timer_example =
    (stale_timer journal one_client (codes "s1") 0 client 130 10 29 20 refl refl one_client-lookup
      refl refl armed_at_130 (omega arith) (omega arith)).11
