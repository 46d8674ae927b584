-- ===== src/Database/Payload.antt =====
-- The payloads of database.go and the pool that they come from.
use go_sessions.Base.{ℕ, GoString, ◌≡◌, refl, ap, List, [], ◌∷◌, map, arith}
use go_sessions.Value.{nil, Heap}
use go_sessions.Memstore.{Store}
use go_sessions.Lifetime.{LifeTime}
use go_sessions.Database.{
  Action, Database, SyncPayload, pool_get, acquire_sync_payload, release_sync_payload, sync_all,
}

-- Nothing of an earlier call's entry can be read from the payload but whether it was immutable.
abbrev pub IsBlank : SyncPayload → Type 0
IsBlank p = (p.value.key ≡ []) × (p.value.value_raw ≡ nil)

abbrev pub AllBlank : List SyncPayload → Type 0
AllBlank [] = Unit {0}
AllBlank (p ∷ ps) = IsBlank p × AllBlank ps

-- Each database is told the same payload.
pub sync_all-map :
    {D : Type 0} (ops : Database D) (now : ℕ) (h : Heap) (p : SyncPayload) (ds : List D)
    → sync_all ops now h p ds ≡ map (ops.sync now h p) ds
unfolding sync_all
sync_all-map ops now h p [] = refl
sync_all-map ops now h p (d ∷ ds) = ap (◌∷◌ (ops.sync now h p d)) (sync_all-map ops now h p ds)

module _ (pool : List SyncPayload) (sid : GoString) (values : Store) (lifetime : LifeTime)
    (action : Action) where
  -- What the payload says of the session does not depend on the pool.
  pub acquire_lem :
      let p = (acquire_sync_payload pool sid values lifetime action).0 in
      (p.session_id ≡ sid)
      × (p.action ≡ action)
      × (p.store ≡ record { values = values; lifetime = lifetime })
  unfolding acquire_sync_payload
  acquire_lem = (refl, refl, refl)

  pub acquire-IsBlank :
      AllBlank pool → IsBlank (acquire_sync_payload pool sid values lifetime action).0
  unfolding acquire_sync_payload pool_get
  acquire-IsBlank b = ground arith

  pub rest-AllBlank :
      AllBlank pool → AllBlank (acquire_sync_payload pool sid values lifetime action).1
  unfolding acquire_sync_payload pool_get
  rest-AllBlank b = ground arith

pub release-AllBlank :
    (pool : List SyncPayload) (p : SyncPayload)
    → AllBlank pool
    → AllBlank (release_sync_payload pool p)
unfolding release_sync_payload
release-AllBlank pool p b = ((refl, refl), b)
