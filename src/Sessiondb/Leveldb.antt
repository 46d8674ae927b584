-- ===== src/Sessiondb/Leveldb.antt =====
-- sessiondb/leveldb/database.go, over the pairs that its iterator visits. The library is a
-- parameter. What the package logs is not modelled.
use go_sessions.Base.{
  ℕ, GoString, codes, str_eq, ◌||◌, Bool, false, Option, none, some, List, [], ◌∷◌, if◌then◌else◌,
}
use go_sessions.Value.{Heap}
use go_sessions.Lifetime.{has_expired}
use go_sessions.Database.{Database, RemoteStore, SyncPayload, zero_remote}
use go_sessions.Sessiondb.{
  Creation, options_missing, not_opened, created, Opener, Decoding, Gob, serialize,
  decode_remote_store, KeyValue, Backend, dispatch, is_destroy,
}

-- The loop of `Load`.
unfoldable pub scan : {Bytes : Type 0} → List (GoString × Bytes) → GoString → Option Bytes
scan [] sid = none
scan ((k, v) ∷ m) sid =
    let rest = scan m sid in
    if str_eq k (codes "") then rest else if str_eq k sid then some v else rest

module _ {Bytes T : Type 0} (gob : Gob Bytes) (kv : KeyValue Bytes T) where
  -- A store that does not decode counts as none.
  unfoldable pub load : GoString → Heap → T → RemoteStore × Heap
  unfolding scan
  load sid h t = elim (scan (kv.pairs t) sid) [
    | none ↦ (zero_remote, h)
    | some v ↦
        let d : Decoding = decode_remote_store gob h v in
        if d.failed then (zero_remote, d.heap) else (d.store, d.heap)
  ]

  unfoldable pub destroy : GoString → T → T × Bool
  destroy sid t = kv.delete sid t

  -- An error of `Serialize` is logged, and what it wrote is put all the same.
  unfoldable pub sync : Heap → SyncPayload → T → T
  unfolding destroy is_destroy
  sync h p t =
      if is_destroy p.action
      then (destroy p.session_id t).0
      else (kv.put p.session_id (serialize gob h p.store).0 t).0

  unfoldable pub clean : ℕ → Heap → List (GoString × Bytes) → T → T
  clean now h [] t = t
  clean now h ((k, v) ∷ m) t =
      let d : Decoding = decode_remote_store gob h v in
      let rest = clean now h m t in
      let cut = clean now h m (kv.delete k t).0 in
      if str_eq k (codes "") || d.failed
      then rest
      else if has_expired now d.store.lifetime
      then cut
      else rest

  unfoldable pub cleanup : ℕ → Heap → T → T
  unfolding clean
  cleanup now h t = clean now h (kv.pairs t) t

  -- `NewFromDB`; `none` is the error for a nil connection.
  unfoldable pub new_from_db : ℕ → Heap → Option T → Option (Backend T)
  unfolding cleanup
  new_from_db now h none = none
  new_from_db now h (some t) =
      some (record { service = cleanup now h t; async = false; pending = [] })

  unfoldable pub new :
      {F : Type 0} → Opener F T → ℕ → Heap → GoString → F → Creation (Backend T) × F
  unfolding new_from_db
  new lib now h directory_path f =
      let opened = lib.open_database directory_path f in
      if str_eq directory_path (codes "") then (options_missing, f) else (
        elim opened.0 [
          | none ↦ not_opened
          | some t ↦ elim (new_from_db now h (some t)) [ none ↦ not_opened | some db ↦ created db ]
        ],
        opened.1,
      )

  -- `Close`, over the library's.
  unfoldable pub close : (T → T × Bool) → Backend T → Backend T × Bool
  close close_service db =
      let answer = close_service db.service in (record db { service = answer.0 }, answer.1)

  abbrev pub database : Database (Backend T)
  database = record {
    load = λ now sid h db. let (r, h') = load sid h db.service in (r, db, h');
    sync = λ now h p db. dispatch sync h p db;
  }
