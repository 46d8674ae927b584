-- ===== src/Sessiondb/Badger.antt =====
-- sessiondb/badger/database.go. The library, a copy of another project, is a parameter: its
-- transactions are single calls that return an error or not. What the package logs is not modelled.
use go_sessions.Base.{
  ℕ, GoString, codes, ◌||◌, ◌==◌, ◌-◌, ◌++◌, length, get_elem?, Bool, true, false, Option, none,
  some, List, [], ◌∷◌, if◌then◌else◌,
}
use go_sessions.Value.{Heap}
use go_sessions.Lifetime.{has_expired}
use go_sessions.Database.{Database, RemoteStore, SyncPayload, zero_remote}
use go_sessions.Sessiondb.{
  Creation, options_missing, no_directory, not_opened, created, Opener, Decoding, Gob, serialize,
  decode_remote_store, KeyValue, value_at, is_destroy,
}

-- `unreadable` says that `item.Value()` returns an error for a pair.
abbrev pub default_file_mode : ℕ
default_file_mode = 0o755

module _ {Bytes T : Type 0} (gob : Gob Bytes) (kv : KeyValue Bytes T)
    (unreadable : T → GoString → Bool) where
  unfoldable pub load : GoString → Heap → T → RemoteStore × Heap
  load sid h t = elim (value_at (kv.pairs t) sid) [
    | none ↦ (zero_remote, h)
    | some v ↦
        let d : Decoding = decode_remote_store gob h v in
        if unreadable t sid then (zero_remote, h) else (d.store, d.heap)
  ]

  unfoldable pub destroy : GoString → T → T × Bool
  destroy sid t = kv.delete sid t

  -- An error of `Serialize` is logged, and what it wrote is put all the same.
  unfoldable pub sync : Heap → SyncPayload → T → T
  unfolding destroy is_destroy
  sync h p t =
      if is_destroy p.action
      then (destroy p.session_id t).0
      else (kv.put p.session_id (serialize gob h p.store).0 t).0

  -- The loop of `Cleanup`, over the pairs as they were; whether a message was added to `errMsg` is
  -- the Boolean.
  unfoldable pub clean : ℕ → Heap → List (GoString × Bytes) → T × Bool → T × Bool
  clean now h [] s = s
  clean now h ((k, v) ∷ m) (t, e) =
      let d : Decoding = decode_remote_store gob h v in
      let bad = clean now h m (t, true) in
      let rest = clean now h m (t, e) in
      let cut = clean now h m ((kv.delete k t).0, e || (kv.delete k t).1) in
      if unreadable t k || d.failed
      then bad
      else if has_expired now d.store.lifetime
      then cut
      else rest

  unfoldable pub cleanup : ℕ → Heap → T → T × Bool
  unfolding clean
  cleanup now h t = clean now h (kv.pairs t) (t, false)

  -- `NewFromDB`, with the error of `Cleanup`; `none` is the error for a nil connection.
  unfoldable pub new_from_db : ℕ → Heap → Option T → Option (T × Bool)
  unfolding cleanup
  new_from_db now h none = none
  new_from_db now h (some t) = some (cleanup now h t)

  -- `New`: the database, with whether `Cleanup` returned an error.
  unfoldable pub new : {F : Type 0} → Opener F T → ℕ → Heap → GoString → F → Creation (T × Bool) × F
  unfolding new_from_db
  new lib now h directory_path f = elim (get_elem? directory_path (length directory_path - 1)) [
    | none ↦ (options_missing, f)
    | some last ↦
        let path = if last == b'/' then directory_path else directory_path ++ codes "/" in
        let made = lib.mkdir_all path default_file_mode f in
        let opened = lib.open_database path made.0 in
        if made.1 then (no_directory, made.0) else (
          elim opened.0 [
            | none ↦ not_opened
            | some t ↦ elim (new_from_db now h (some t)) [
              | none ↦ not_opened
              | some db ↦ created db
            ]
          ],
          opened.1,
        )
  ]

  -- `Close`, over the library's.
  unfoldable pub close : (T → T × Bool) → T → T × Bool
  close close_service t = close_service t

  abbrev pub database : Database T
  database = record {
    load = λ now sid h t. let (r, h') = load sid h t in (r, t, h');
    sync = λ now h p t. sync h p t;
  }
