-- ===== src/Examples/Requests.antt =====
-- Requests to a provider that holds one session, over a database that remembers what it is told.
use go_sessions.Base.{codes, GoString, str_eq, ◌≡◌, refl, true, false, none, some, List, [], ◌∷◌}
use go_sessions.Base.Int.{pos}
use go_sessions.Base.Outcome.{done, blocks}
use go_sessions.Value.{Value, int}
use go_sessions.Memstore.{find}
use go_sessions.Lifetime.{zero_lifetime}
use go_sessions.Database.{
  Database, SyncPayload, action_clear, action_delete, action_update, zero_remote,
}
use go_sessions.World.{FlashMessage, Session, StringMap, World, lookup}
use go_sessions.World.Laws.{IsFree}
use go_sessions.Session.Sync.{set_syncs, delete_syncs, clear_syncs}
use go_sessions.Session.Flash.{unread}
use go_sessions.Provider.{read}
use go_sessions.Provider.Deadlock.{get_flash_deadlock}
use go_sessions.Provider.Requests.{read_keeps, flashes_read_once}
use go_sessions.Provider.Everyone.{destroy_all_empties}
use go_sessions.Examples.Stores.{two}

-- A database that keeps the payloads, and loads nothing.
abbrev pub journal : Database (List SyncPayload)
journal = record { load = λ now sid h d. (zero_remote, d, h); sync = λ now h p d. p ∷ d }

abbrev notice : FlashMessage
notice = record { should_remove = false; value = int (pos 5) }

abbrev pub visitor : Session
visitor = record {
  sid = codes "s1";
  is_new = true;
  values = two;
  flashes = (codes "n", notice) ∷ [];
  locked = false;
  readers = 0;
  lifetime = zero_lifetime;
}

abbrev pub running : World (List SyncPayload)
running = record {
  clock = record { now = 100; tick = 3; timers = [] };
  heap = [];
  sessions = visitor ∷ [];
  table = (codes "s1", 0) ∷ [];
  databases = [] ∷ [];
  pool = [];
  locked = false;
}

pub running-IsFree : IsFree running 0 visitor
running-IsFree = record { found = refl; unlocked = refl; unread = refl }

pub running-lookup : lookup running.table (codes "s1") ≡ some 0
unfolding lookup str_eq
running-lookup = refl

notice_found : lookup visitor.flashes (codes "n") ≡ some notice
unfolding lookup str_eq
notice_found = refl

deadlocked : World (List SyncPayload)
deadlocked =
    (get_flash_deadlock journal running (codes "s1") 0 visitor (codes "n") notice refl
      running-lookup running-IsFree notice_found).1

get_flash_deadlock_example : read journal (codes "other") (pos 0) deadlocked ≡ blocks deadlocked
unfolding deadlocked
get_flash_deadlock_example =
    (get_flash_deadlock journal running (codes "s1") 0 visitor (codes "n") notice refl
        running-lookup running-IsFree notice_found).4
      (codes "other") (pos 0)

saved_payload : SyncPayload
saved_payload =
    (set_syncs journal running 0 visitor (codes "b") (int (pos 8)) false running-IsFree).1

set_syncs_example : saved_payload.action ≡ action_update
unfolding saved_payload find str_eq
set_syncs_example =
    (set_syncs journal running 0 visitor (codes "b") (int (pos 8)) false running-IsFree).6

deleted_payload : SyncPayload
deleted_payload = (delete_syncs journal running 0 visitor (codes "b") running-IsFree).1

delete_syncs_example : deleted_payload.action ≡ action_delete
unfolding deleted_payload
delete_syncs_example = (delete_syncs journal running 0 visitor (codes "b") running-IsFree).6

cleared_payload : SyncPayload
cleared_payload = (clear_syncs journal running 0 visitor running-IsFree tt).1

clear_syncs_example : cleared_payload.action ≡ action_clear
unfolding cleared_payload
clear_syncs_example = (clear_syncs journal running 0 visitor running-IsFree tt).7

read_keeps_example :
    (w' : World (List SyncPayload)) × (s' : Session) × (read journal (codes "s1") (pos 0) running
      ≡ done 0 w')
    × IsFree w' 0 s'
    × (w'.locked ≡ false)
    × (s'.sid ≡ visitor.sid)
    × (s'.values ≡ visitor.values)
    × ((k : GoString) → lookup s'.flashes k ≡ unread (lookup visitor.flashes k))
unfolding lookup
read_keeps_example =
    read_keeps journal running (codes "s1") (pos 0) 0 visitor refl running-lookup running-IsFree
      (refl, tt)

flashes_message : StringMap Value
flashes_message =
    (flashes_read_once journal running (codes "s1") 0 visitor refl running-lookup running-IsFree).0

flashes_read_once_example : lookup flashes_message (codes "n") ≡ some (int (pos 5))
unfolding flashes_message lookup str_eq
flashes_read_once_example =
    (flashes_read_once journal running (codes "s1") 0 visitor refl running-lookup running-IsFree).4
      (codes "n")

emptied : World (List SyncPayload)
emptied = (destroy_all_empties journal running refl ((visitor, refl, refl), tt)).0

destroy_all_empties_example : lookup emptied.table (codes "s1") ≡ none
unfolding emptied
destroy_all_empties_example =
    (destroy_all_empties journal running refl ((visitor, refl, refl), tt)).2 (codes "s1")
