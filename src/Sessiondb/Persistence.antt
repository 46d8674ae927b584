-- ===== src/Sessiondb/Persistence.antt =====
-- What a database under sessiondb/ loads after it was told something: boltdb, leveldb and badger.
use go_sessions.Base.{
  GoString, codes, str_eq, str_eq_iff, ◌≡◌, refl, Bool, true, false, Option, none, some, List, [],
  ◌∷◌, arith, if◌then◌else◌, Bool-cases, Option-cases, inl, inr,
}
use go_sessions.Value.{Heap}
use go_sessions.Database.{RemoteStore, SyncPayload, zero_remote}
use go_sessions.Sessiondb.{
  Gob, KeyValue, value_at, IsLawful, sent, IsFaithful, KeepsBasic, AllBasic, is_destroy,
}
use go_sessions.Sessiondb.Bolt
use go_sessions.Sessiondb.Leveldb
use go_sessions.Sessiondb.Badger

bolt_scan :
    {Bytes : Type 0} (m : List (GoString × Bytes)) (sid : GoString)
    → str_eq sid (codes "") ≡ false
    → Bolt.scan m sid ≡ value_at m sid
unfolding Bolt.scan
bolt_scan [] sid h = refl
bolt_scan ((k, v) ∷ m) sid h = ground (arith, bolt_scan m sid h, str_eq_iff k sid)

leveldb_scan :
    {Bytes : Type 0} (m : List (GoString × Bytes)) (sid : GoString)
    → str_eq sid (codes "") ≡ false
    → Leveldb.scan m sid ≡ value_at m sid
unfolding Leveldb.scan
leveldb_scan [] sid h = refl
leveldb_scan ((k, v) ∷ m) sid h = ground (arith, leveldb_scan m sid h, str_eq_iff k sid)

-- What a session's load is to give after a payload: what was sent, nothing after a destroy, and for
-- another session what it gave before.
abbrev pub loaded_after : SyncPayload → GoString → Heap → RemoteStore × Heap → RemoteStore × Heap
loaded_after p sid h before =
    if str_eq p.session_id sid
    then (if is_destroy p.action then zero_remote else sent p.store, h)
    else before

module _ {Bytes T : Type 0} (gob : Gob Bytes) (kv : KeyValue Bytes T) (law : IsLawful kv) (h : Heap)
    (p : SyncPayload) (t : T) (codec : KeepsBasic gob)
    (plain_values : AllBasic p.store.values.entries)
    (works : (if is_destroy p.action
        then kv.delete p.session_id t
        else kv.put p.session_id (gob.encode h p.store).0 t).1
      ≡ false)
    (sid : GoString) (nonempty : str_eq sid (codes "") ≡ false) (h' : Heap) where
  faithful : IsFaithful gob h p.store
  faithful = codec h p.store plain_values

  -- The write of the action returns no error.
  works_as :
      (b : Bool)
      → is_destroy p.action ≡ b
      → (if b then kv.delete p.session_id t else kv.put p.session_id (gob.encode h p.store).0 t).1
        ≡ false
  works_as b e = rw⁻¹ e works

  value_after :
      value_at
        (kv.pairs (
          if is_destroy p.action
          then (kv.delete p.session_id t).0
          else (kv.put p.session_id (gob.encode h p.store).0 t).0))
        sid
      ≡ (if str_eq p.session_id sid
          then (if is_destroy p.action then none else some (gob.encode h p.store).0)
          else value_at (kv.pairs t) sid)
  value_after = elim (Bool-cases (is_destroy p.action)) [
    | inl e ↦ rw e (law.value-delete p.session_id t sid (works_as true e))
    | inr e ↦ rw e (law.value-put p.session_id (gob.encode h p.store).0 t sid (works_as false e))
  ]

  -- The same for a reader of bytes that finds what was sent in the bytes of the payload's store.
  read_after :
      (read : Option Bytes → RemoteStore × Heap)
      → read none ≡ (zero_remote, h')
      → read (some (gob.encode h p.store).0) ≡ (sent p.store, h')
      → (same gone : Bool) (before : Option Bytes)
      → read (if same then (if gone then none else some (gob.encode h p.store).0) else before)
        ≡ (if same then (if gone then zero_remote else sent p.store, h') else read before)
  read_after read nothing something true true before = nothing
  read_after read nothing something true false before = something
  read_after read nothing something false gone before = refl

  -- What bolt makes of the bytes that it found.
  abbrev plain : Option Bytes → RemoteStore × Heap
  plain none = (zero_remote, h')
  plain (some v) = ((gob.decode h' v).store, (gob.decode h' v).heap)

  bolt_load : (u : T) → Bolt.load gob kv sid h' u ≡ plain (value_at (kv.pairs u) sid)
  unfolding Bolt.load
  bolt_load u = rw (bolt_scan (kv.pairs u) sid nonempty, Bolt.load)

  -- `Sync` of bolt of a payload whose values are no references (nil, Booleans, numbers and strings,
  -- which gob writes and reads back), where the write or the removal returns no error, and then
  -- `Load` of any session whose id is not empty: the session of the payload gets what gob keeps of
  -- its values and its lifetime, or nothing after a destroy; any other session gets what it got
  -- before.
  pub bolt_persists :
      Bolt.load gob kv sid h' (Bolt.sync gob kv h p t)
      ≡ loaded_after p sid h' (Bolt.load gob kv sid h' t)
  unfolding Bolt.sync Bolt.destroy
  bolt_persists = rw (bolt_load (Bolt.sync gob kv h p t)) (
      rw (bolt_load t) (
        rw value_after (
          read_after plain refl (rw (faithful.1 h')) (str_eq p.session_id sid) (is_destroy p.action)
            (value_at (kv.pairs t) sid))))

  -- Leveldb looks at the error.
  abbrev checked : Option Bytes → RemoteStore × Heap
  checked none = (zero_remote, h')
  checked (some v) =
      if (gob.decode h' v).failed
      then (zero_remote, (gob.decode h' v).heap)
      else ((gob.decode h' v).store, (gob.decode h' v).heap)

  leveldb_load : (u : T) → Leveldb.load gob kv sid h' u ≡ checked (value_at (kv.pairs u) sid)
  unfolding Leveldb.load
  leveldb_load u = rw (leveldb_scan (kv.pairs u) sid nonempty, Leveldb.load)

  -- The same of leveldb.
  leveldb_persists :
      Leveldb.load gob kv sid h' (Leveldb.sync gob kv h p t)
      ≡ loaded_after p sid h' (Leveldb.load gob kv sid h' t)
  unfolding Leveldb.sync Leveldb.destroy
  leveldb_persists = rw (leveldb_load (Leveldb.sync gob kv h p t)) (
      rw (leveldb_load t) (
        rw value_after (
          read_after checked refl (rw (faithful.1 h')) (str_eq p.session_id sid)
            (is_destroy p.action) (value_at (kv.pairs t) sid))))

  badger_load :
      (unreadable : T → GoString → Bool) (u : T)
      → unreadable u sid ≡ false
      → Badger.load gob kv unreadable sid h' u ≡ plain (value_at (kv.pairs u) sid)
  unfolding Badger.load
  badger_load unreadable u readable = elim (Option-cases (value_at (kv.pairs u) sid)) [
    | inl e ↦ rw (e, Badger.load)
    | inr (v, e) ↦ rw (e, Badger.load) (rw readable)
  ]

  -- `Sync` of badger of a payload whose values are no references, where the write returns no error,
  -- and then `Load` of any session whose id is not empty and whose value can be read before and
  -- after: the session of the payload gets what gob keeps of its values and its lifetime, or nothing
  -- after a destroy; any other session gets what it got before.
  badger_persists :
      (unreadable : T → GoString → Bool)
      → unreadable t sid ≡ false
      → unreadable (Badger.sync gob kv unreadable h p t) sid ≡ false
      → Badger.load gob kv unreadable sid h' (Badger.sync gob kv unreadable h p t)
        ≡ loaded_after p sid h' (Badger.load gob kv unreadable sid h' t)
  unfolding Badger.sync Badger.destroy
  badger_persists unreadable before after =
      rw (badger_load unreadable (Badger.sync gob kv unreadable h p t) after) (
        rw (badger_load unreadable t before) (
          rw value_after (
            read_after plain refl (rw (faithful.1 h')) (str_eq p.session_id sid)
              (is_destroy p.action) (value_at (kv.pairs t) sid))))
