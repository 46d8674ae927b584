-- ===== src/Examples/Redis.antt =====
-- A redis server in memory, and connections to it.
use go_sessions.Base.{
  ℕ, GoString, codes, str_eq, ◌≡◌, refl, length, true, false, none, some, List, [], ◌∷◌,
}
use go_sessions.Base.Int.{pos}
use go_sessions.Database.{RemoteStore}
use go_sessions.World.{delete}
use go_sessions.Sessiondb.{value_at}
use go_sessions.Sessiondb.Redis.Client.{
  Reply, missing, found, pong, Address, Connection, Service, zero_pool,
}
use go_sessions.Sessiondb.Redis.Dial.{Redigo, pool_dial, dial, greet}
use go_sessions.Sessiondb.Redis.Connections.{IsAccounted, pool_dial-Accounts}
use go_sessions.Examples.Databases.{Table}

abbrev reply_at : Table → GoString → Reply RemoteStore
reply_at t k = elim (value_at t k) [ none ↦ missing | some v ↦ found v ]

abbrev keeping : Connection RemoteStore Table
keeping = record {
  ping = λ pool t. pong (codes "PONG");
  get = λ pool k t. reply_at t k;
  scan = λ pool t. missing;
  set = λ pool k v t. ((k, v) ∷ t, false);
  setex = λ pool k n v t. ((k, v) ∷ t, false);
  del = λ pool k t. (delete t k, false);
  close = λ pool t. (t, false);
}

abbrev client : Service Table
client = record {
  connected = true;
  config = record {
    network = codes "tcp";
    addr = codes "127.0.0.1:6379";
    password = codes "";
    database = codes "";
    max_idle = pos 0;
    max_active = pos 0;
    idle_timeout = pos 0;
    prefix = codes "s:";
  };
  pool = zero_pool;
  server = [];
}

abbrev close_first : List ℕ → List ℕ
close_first [] = []
close_first (c ∷ cs) = cs

-- A server that takes no password; the state is the list of the open connections.
abbrev guarded : Redigo (List ℕ)
guarded = record {
  open_connection = λ network addr cs. (some (length cs), length cs ∷ cs);
  command = λ c m cs. (true, cs);
  close = λ c cs. close_first cs;
}

abbrev remote : Address
remote = record {
  network = codes "";
  addr = codes "";
  password = codes "secret";
  database = codes "2";
}

guarded-IsAccounted : IsAccounted guarded
guarded-IsAccounted = record {
  opened = λ cs. cs;
  opened-open = λ network addr cs. refl;
  opened-command = λ c m cs. refl;
  opened-close = λ c ds cs e. rw e;
}

pool_dial-Accounts_example : (pool_dial guarded remote (5 ∷ [])).1 ≡ 5 ∷ []
unfolding guarded-IsAccounted pool_dial dial greet str_eq
pool_dial-Accounts_example = pool_dial-Accounts guarded guarded-IsAccounted remote (5 ∷ [])
