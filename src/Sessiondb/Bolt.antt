-- ===== src/Sessiondb/Bolt.antt =====
-- sessiondb/boltdb/database.go, over the pairs of its bucket. The library is a parameter. What the
-- package logs is not modelled.
use go_sessions.Base.{
  ℕ, GoString, codes, str_eq, ◌||◌, ◌==◌, Bool, false, Option, none, some, List, [], ◌∷◌, length,
  if◌then◌else◌,
}
use go_sessions.Value.{Heap}
use go_sessions.Lifetime.{has_expired}
use go_sessions.Database.{Database, RemoteStore, SyncPayload, zero_remote}
use go_sessions.Sessiondb.{
  Creation, options_missing, no_directory, not_opened, created, Opener, Decoding, Gob, serialize,
  decode_remote_store, KeyValue, Backend, dispatch, is_destroy,
}
use go_sessions.Sessiondb.File.Paths.{dir}

abbrev pub default_file_mode : ℕ
default_file_mode = 0o666

-- What a cursor gives, from the first pair on, if the pairs of which the test holds are deleted
-- through it on the way. The library does not say what that is, beside that it can be unexpected.
abbrev pub Cursor : Type 0 → Type 0 → Type 0
Cursor Bytes T = (GoString → Bytes → Bool) → T → List (GoString × Bytes)

-- The loop of `Load`, which passes empty keys by and stops at the session's id.
unfoldable pub scan : {Bytes : Type 0} → List (GoString × Bytes) → GoString → Option Bytes
scan [] sid = none
scan ((k, v) ∷ m) sid =
    let rest = scan m sid in
    if str_eq k (codes "") then rest else if str_eq k sid then some v else rest

module _ {Bytes T : Type 0} (gob : Gob Bytes) (kv : KeyValue Bytes T) where
  unfoldable pub load : GoString → Heap → T → RemoteStore × Heap
  unfolding scan
  load sid h t = elim (scan (kv.pairs t) sid) [
    | none ↦ (zero_remote, h)
    | some v ↦ let d : Decoding = decode_remote_store gob h v in (d.store, d.heap)
  ]

  unfoldable pub destroy : GoString → T → T × Bool
  destroy sid t = kv.delete sid t

  -- An error of `Serialize` is logged, and what it wrote is put all the same.
  unfoldable pub sync : Heap → SyncPayload → T → T
  unfolding destroy is_destroy
  sync h p t =
      if is_destroy p.action
      then (destroy p.session_id t).0
      else (kv.put p.session_id (serialize gob h p.store).0 t).0

  -- The session of a pair is over, and `Cleanup` deletes it.
  unfoldable pub stale : ℕ → Heap → GoString → Bytes → Bool
  stale now h k v =
      let d : Decoding = decode_remote_store gob h v in
      if str_eq k (codes "") || d.failed then false else has_expired now d.store.lifetime

  -- The loop of `Cleanup` over what its cursor gives; an error of `Delete` is logged.
  unfoldable pub clean : ℕ → Heap → List (GoString × Bytes) → T → T
  unfolding stale
  clean now h [] t = t
  clean now h ((k, v) ∷ m) t =
      let rest = clean now h m t in
      let cut = clean now h m (kv.delete k t).0 in if stale now h k v then cut else rest

  unfoldable pub cleanup : Cursor Bytes T → ℕ → Heap → T → T
  unfolding clean stale
  cleanup cursor now h t = clean now h (cursor (stale now h) t) t

  unfoldable pub len : T → ℕ
  len t = length (kv.pairs t)

  -- `NewFromDB`, over the library's `CreateBucketIfNotExists`; `none` is `ErrOptionsMissing`.
  unfoldable pub new_from_db :
      Cursor Bytes T → (GoString → T → T) → ℕ → Heap → GoString → T → Option (Backend T)
  unfolding cleanup
  new_from_db cursor create_bucket now h bucket_name t =
      if str_eq bucket_name (codes "")
      then none
      else some (record {
        service = cleanup cursor now h (create_bucket bucket_name t);
        async = false;
        pending = [];
      })

  unfoldable pub new :
      {F : Type 0}
      → Opener F T
      → Cursor Bytes T
      → (GoString → T → T)
      → ℕ
      → Heap
      → GoString
      → ℕ
      → GoString
      → F
      → Creation (Backend T) × F
  unfolding new_from_db dir
  new lib cursor create_bucket now h path file_mode bucket_name f =
      let mode : ℕ = if file_mode == 0 then default_file_mode else file_mode in
      let made = lib.mkdir_all (dir path) mode f in
      let opened = lib.open_database path made.0 in
      if str_eq path (codes "") || str_eq bucket_name (codes "")
      then (options_missing, f)
      else if made.1
      then (no_directory, made.0)
      else (
        elim opened.0 [
          | none ↦ not_opened
          | some t ↦ elim (new_from_db cursor create_bucket now h bucket_name t) [
            | none ↦ options_missing
            | some db ↦ created db
          ]
        ],
        opened.1,
      )

  -- `Close`, over the library's.
  unfoldable pub close : (T → T × Bool) → Backend T → Backend T × Bool
  close close_service db =
      let answer = close_service db.service in (record db { service = answer.0 }, answer.1)

  abbrev pub database : Database (Backend T)
  database = record {
    load = λ now sid h db. let (r, h') = load sid h db.service in (r, db, h');
    sync = λ now h p db. dispatch sync h p db;
  }
