-- ===== src/Examples/Restart.antt =====
-- A session that a second process finds in bolt.
use go_sessions.Base.{codes, refl, str_eq, false, [], ◌∷◌}
use go_sessions.Base.Int.{pos}
use go_sessions.Value.{int}
use go_sessions.Memstore.{Store, save, replace, overwrite}
use go_sessions.Lifetime.{has_expired}
use go_sessions.World.{World}
use go_sessions.Sessiondb.{Backend, AllBasic}
use go_sessions.Sessiondb.Bolt
use go_sessions.Sessiondb.Restart.{bolt-IsPersistent, IsPersistent, set_survives}
use go_sessions.Examples.Stores.{two-IsUnique}
use go_sessions.Examples.Requests.{visitor}
use go_sessions.Examples.Databases.{
  Table, copying, copying-KeepsBasic, in_memory, in_memory-IsLawful,
}

abbrev bucket : Backend Table
bucket = record { service = []; async = false; pending = [] }

bucket-IsPersistent : IsPersistent (Bolt.database copying in_memory) bucket (codes "s1")
unfolding str_eq
bucket-IsPersistent =
    bolt-IsPersistent copying in_memory bucket (codes "s1") in_memory-IsLawful copying-KeepsBasic
      (λ h r. refl) refl refl

saved_basic : AllBasic (save visitor.values (codes "b") (int (pos 8)) false).0.entries
unfolding save replace overwrite str_eq
saved_basic = (tt, (tt, tt))

abbrev process : World (Backend Table)
process = record {
  clock = record { now = 100; tick = 3; timers = [] };
  heap = [];
  sessions = visitor ∷ [];
  table = (codes "s1", 0) ∷ [];
  databases = bucket ∷ [];
  pool = [];
  locked = false;
}

abbrev next_process : World (Backend Table)
next_process = record process {
  clock = record { now = 900; tick = 3; timers = [] };
  sessions = [];
  table = [];
}

survived : Store
unfolding str_eq has_expired
survived =
    (set_survives (Bolt.database copying in_memory) process next_process bucket 0 visitor
      (codes "b") (int (pos 8)) false (record { found = refl; unlocked = refl; unread = refl })
      two-IsUnique saved_basic refl bucket-IsPersistent refl).2
