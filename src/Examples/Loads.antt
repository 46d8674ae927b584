-- ===== src/Examples/Loads.antt =====
-- A session that two databases know.
use go_sessions.Base.{codes, ◌≡◌, refl, str_eq, false, none, some, [], ◌∷◌}
use go_sessions.Base.Int.{pos}
use go_sessions.Value.{Value, int}
use go_sessions.Memstore.{Store, find}
use go_sessions.Memstore.Mutable.{raw}
use go_sessions.Lifetime.{LifeTime, has_expired}
use go_sessions.Database.{Database, RemoteStore}
use go_sessions.World.{World}
use go_sessions.Provider.Merge.{load_merges}

abbrev remote : Database RemoteStore
remote = record { load = λ now sid h d. (d, d, h); sync = λ now h p d. d }

abbrev holding : Value → LifeTime → RemoteStore
holding v lt = record {
  values = record {
    entries = record { key = codes "k"; value_raw = v; immutable = false } ∷ [];
    spare = [];
  };
  lifetime = lt;
}

-- The first has expired.
abbrev loading : World RemoteStore
loading = record {
  clock = record { now = 100; tick = 3; timers = [] };
  heap = [];
  sessions = [];
  table = [];
  databases =
      holding (int (pos 1)) (record { time = 50; timer = none })
      ∷ holding (int (pos 2)) (record { time = 0; timer = none })
      ∷ holding (int (pos 3)) (record { time = 120; timer = none })
      ∷ [];
  pool = [];
  locked = false;
}

loaded_store : Store
unfolding find
loaded_store =
    (load_merges remote loading (codes "s")
      (((refl, tt), (refl, tt)), (((refl, tt), (refl, tt)), (((refl, tt), (refl, tt)), tt)))).1

load_merges_example : raw (find loaded_store.entries (codes "k")) ≡ some (int (pos 3))
unfolding loaded_store find str_eq has_expired
load_merges_example =
    (load_merges remote loading (codes "s")
        (((refl, tt), (refl, tt)), (((refl, tt), (refl, tt)), (((refl, tt), (refl, tt)), tt)))).5
      (codes "k")
