-- ===== src/Examples/Programs.antt =====
-- A program that starts a session, uses it, and waits for its timer.
use go_sessions.Base.{GoString, codes, ◌≡◌, ◌⊎◌, refl, str_eq, false, none, List, [], ◌∷◌}
use go_sessions.Base.Int.{pos}
use go_sessions.Base.Outcome.{done, panics, final}
use go_sessions.Value.{int}
use go_sessions.Database.{SyncPayload}
use go_sessions.World.{World, lookup, lock_provider, unlock_provider, deref, store, lock, unlock}
use go_sessions.Lifetime.{Clock}
use go_sessions.Sessions
use go_sessions.Provider.{destroy_all, init, new_session, load_session_from_db}
use go_sessions.Cookie.{get_cookie}
use go_sessions.Session.{set_with, sync_databases}
use go_sessions.Program.{Call, starts, sets, sets_flash, gets_flashes, waits, fires, gets, run}
use go_sessions.Program.Steady.{IsSteady}
use go_sessions.Program.Progress.{manager, run_returns, destroy_all_reachable}
use go_sessions.Examples.Requests.{journal, running}
use go_sessions.Examples.Visits.{config, first, second, only}

abbrev pub Journal : Type 0
Journal = List SyncPayload

abbrev visits : List (Call Journal)
visits =
    starts 0 first
    ∷ sets 1 (codes "k") (int (pos 1)) false
    ∷ sets_flash 1 (codes "n") (int (pos 2))
    ∷ starts 1 second
    ∷ gets_flashes 1
    ∷ waits 100
    ∷ fires 0
    ∷ gets 1 (codes "k")
    ∷ []

pub running-IsSteady : IsSteady false running
unfolding lookup
running-IsSteady = record {
  mutex = refl;
  idle = ((refl, refl), tt);
  owners = ((_, refl, refl), tt);
  distinct = (refl, tt);
}

run_returns_example :
    ((w : World Journal) × (run journal config 7 visits running ≡ done tt w) × IsSteady false w)
    ⊎ ((w : World Journal) × (run journal config 7 visits running ≡ panics w))
run_returns_example =
    run_returns journal config 7 visits running
      (refl, (refl, (refl, (refl, (refl, (refl, (refl, (refl, tt)))))))) running-IsSteady

abbrev stopped : Clock GoString
stopped = record { now = 100; tick = 3; timers = [] }

abbrev two_calls : List (Call Journal)
two_calls = starts 0 first ∷ sets 0 (codes "k") (int (pos 1)) false ∷ []

after_calls : World Journal
unfolding run
after_calls = final (
    run journal (manager journal only config 7 stopped []).0 7 two_calls
      (manager journal only config 7 stopped []).1)

ran :
    run journal
      (manager journal only config 7 stopped []).0
      7
      two_calls
      (manager journal only config 7 stopped []).1
    ≡ done tt after_calls
unfolding after_calls run Sessions.start Sessions.request_sid Sessions.new str_eq get_cookie init
    new_session load_session_from_db lock_provider unlock_provider deref store set_with lock unlock
    sync_databases
ran = refl

destroy_all_reachable_example :
    (w : World Journal) × (destroy_all journal after_calls ≡ done tt w)
    × ((j : GoString) → lookup w.table j ≡ none)
    × (w.locked ≡ false)
destroy_all_reachable_example =
    destroy_all_reachable journal only config 7 stopped [] two_calls after_calls (refl, (refl, tt))
      ran
