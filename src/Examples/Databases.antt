-- ===== src/Examples/Databases.antt =====
-- A database in memory, and what the ones under sessiondb/ do over it.
use go_sessions.Base.{
  ℕ, GoString, codes, str_eq, str_eq_iff, ◌≡◌, refl, false, Option, none, some, List, [], ◌∷◌,
  arith, if◌then◌else◌,
}
use go_sessions.Value.{nil}
use go_sessions.Memstore.{nil_store}
use go_sessions.Lifetime.{has_expired, is_zero}
use go_sessions.Database.{RemoteStore, SyncPayload, action_update, zero_remote}
use go_sessions.World.{delete}
use go_sessions.Sessiondb.{Gob, KeyValue, value_at, IsLawful, KeepsBasic, sent, is_destroy}
use go_sessions.Sessiondb.Bolt
use go_sessions.Sessiondb.Leveldb
use go_sessions.Sessiondb.File
use go_sessions.Sessiondb.Redis.{sync}
use go_sessions.Sessiondb.Redis.Client.{Connection, pong, missing}
use go_sessions.Sessiondb.File.{Contents, unopened, contents, FileSystem, FileDatabase, sess_path}
use go_sessions.Sessiondb.File.Paths.{join, clean, elements, clean_elements, written}
use go_sessions.Sessiondb.File.Directory.{IsPlain, sess_path_plain}
use go_sessions.Sessiondb.Persistence.{bolt_persists}
use go_sessions.Sessiondb.Cleanup.{cleanup_deletes}
use go_sessions.Examples.Stores.{two}

-- The bytes of a store are what gob keeps of it.
abbrev pub copying : Gob RemoteStore
copying = record {
  encode = λ h r. (sent r, false);
  encode_store = λ h s. (record zero_remote { values = s }, false);
  decode = λ h b. record { store = b; failed = false; heap = h };
}

pub copying-KeepsBasic : KeepsBasic copying
copying-KeepsBasic h r basic = (refl, λ h'. refl)

abbrev pub Table : Type 0
Table = List (GoString × RemoteStore)

abbrev pub in_memory : KeyValue RemoteStore Table
in_memory = record {
  pairs = λ t. t;
  put = λ k v t. ((k, v) ∷ t, false);
  delete = λ k t. (delete t k, false);
}

pub value_at-delete :
    (t : Table) (k j : GoString)
    → value_at (delete t k) j ≡ (if str_eq k j then none else value_at t j)
unfolding delete
value_at-delete [] k j = ground arith
value_at-delete ((i, v) ∷ t) k j =
    ground (arith, value_at-delete t k j, str_eq_iff i k, str_eq_iff i j, str_eq_iff k j)

pub in_memory-IsLawful : IsLawful in_memory
in_memory-IsLawful = record {
  value-put = λ k v t j h. refl;
  value-delete = λ k t j h. value_at-delete t k j;
}

abbrev pub update : SyncPayload
update = record {
  session_id = codes "s1";
  action = action_update;
  value = record { key = []; value_raw = nil; immutable = false };
  store = record { values = two; lifetime = record { time = 500; timer = none } };
}

bolt_persists_example :
    Bolt.load copying in_memory (codes "s1") [] (Bolt.sync copying in_memory [] update [])
    ≡ (sent update.store, [])
unfolding str_eq is_destroy
bolt_persists_example =
    bolt_persists copying in_memory in_memory-IsLawful [] update [] copying-KeepsBasic
      (tt, (tt, tt)) refl (codes "s1") refl []

abbrev past : RemoteStore
past = record { values = nil_store; lifetime = record { time = 100; timer = none } }

abbrev two_sessions : Table
two_sessions = (codes "s1", past) ∷ (codes "s2", zero_remote) ∷ []

cleanup_deletes_example :
    value_at (Leveldb.cleanup copying in_memory 200 [] two_sessions) (codes "s1") ≡ none
unfolding str_eq has_expired is_zero
cleanup_deletes_example =
    (cleanup_deletes copying in_memory 200 [] in_memory-IsLawful (λ k t. refl) two_sessions
      (codes "s1") (refl, (refl, tt)))

-- A server that keeps what it stores, with its expiry.
abbrev server : Connection RemoteStore (List (GoString × Option ℕ))
server = record {
  ping = λ pool t. pong (codes "PONG");
  get = λ pool k t. missing;
  scan = λ pool t. missing;
  set = λ pool k v t. ((k, none) ∷ t, false);
  setex = λ pool k n v t. ((k, some n) ∷ t, false);
  del = λ pool k t. (t, false);
  close = λ pool t. (t, false);
}

abbrev found_at : Table → GoString → Contents RemoteStore
found_at t path = elim (value_at t path) [ none ↦ unopened | some b ↦ contents b ]

abbrev disk : FileSystem RemoteStore Table
disk = record {
  read = λ path mode t. found_at t path;
  write = λ path b mode t. ((path, b) ∷ t, false);
  remove = λ path t. (delete t path, false);
  mkdir_all = λ path mode t. (t, false);
  walk = λ path t. [];
}

abbrev saved : FileDatabase Table
saved = record { dir = codes "d/"; file_mode = 0o666; files = [] }

id-IsPlain : IsPlain (codes "s1")
unfolding str_eq
id-IsPlain = record {
  one_element = (refl, (refl, tt));
  nonempty = refl;
  no_dot = refl;
  no_dots = refl;
}

sess_path_plain_example : sess_path (codes "s1") saved ≡ codes "d/s1"
unfolding clean_elements elements written str_eq
sess_path_plain_example =
    (sess_path_plain saved (codes "s1") (codes "s1") (λ e. cc) id-IsPlain id-IsPlain).0

-- Another id leaves the directory.
outside : sess_path (codes "../x") saved ≡ codes "x"
unfolding str_eq sess_path join clean elements clean_elements written
outside = refl
