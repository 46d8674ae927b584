-- ===== src/Examples/Goroutines.antt =====
-- Two changes of a session, each in a goroutine.
use go_sessions.Base.{codes, str_eq, ◌≡◌, refl, []}
use go_sessions.Database.{SyncPayload, action_destroy}
use go_sessions.Sessiondb.{sent, is_destroy}
use go_sessions.Sessiondb.Bolt
use go_sessions.Sessiondb.Goroutines.{overtaken, update_lost}
use go_sessions.Examples.Databases.{
  copying, in_memory, in_memory-IsLawful, copying-KeepsBasic, update,
}

abbrev logout : SyncPayload
logout = record update { action = action_destroy }

update_lost_example :
    Bolt.load copying in_memory
      (codes "s1")
      []
      (overtaken copying in_memory (λ p. p.store.values.entries) [] [] update logout)
    ≡ (sent update.store, [])
unfolding str_eq is_destroy
update_lost_example =
    update_lost copying in_memory in_memory-IsLawful copying-KeepsBasic
      (λ p. p.store.values.entries) [] [] [] update logout refl refl refl (tt, (tt, tt)) refl
      (λ u. refl)
