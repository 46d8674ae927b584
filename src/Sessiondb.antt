-- ===== src/Sessiondb.antt =====
-- What the databases under sessiondb/ share: the gob codec of database.go, the stores that they
-- write to, and the goroutines of their option `async`.
pub mod Bolt
pub mod Leveldb
pub mod Badger
pub mod Redis
pub mod File
pub mod Persistence
pub mod Server
pub mod Expiry
pub mod Cleanup
pub mod Restart
pub mod Goroutines
use go_sessions.Base.{
  ℕ, zero, suc, get_elem?, GoString, str_eq, ◌≡◌, Bool, true, false, Option, none, some, List, [],
  ◌∷◌, ◌++◌, if◌then◌else◌,
}
use go_sessions.Value.{
  Value, nil, bool, int, int64, float32, float64, string, slice, mapping, pointer, nil_slice,
  nil_mapping, nil_pointer, other, Heap,
}
use go_sessions.Memstore.{Entry, Store}
use go_sessions.Lifetime.{LifeTime}
use go_sessions.Database.{
  RemoteStore, SyncPayload, Action, action_destroy, action_create, action_insert, action_update,
  action_delete, action_clear,
}

-- What `DecodeRemoteStore` returns, beside the heap that holds what it decoded.
pub record Decoding : Type 0 where
  pub store : RemoteStore
  pub failed : Bool
  pub heap : Heap

-- `encoding/gob`, over the type of its bytes. `encode` and `encode_store` are `Encode` into a new
-- buffer, with the bytes that were written, also beside an error; the Boolean is the error.
pub record Gob (Bytes : Type 0) : Type 0 where
  pub encode : Heap → RemoteStore → Bytes × Bool
  pub encode_store : Heap → Store → Bytes × Bool
  pub decode : Heap → Bytes → Decoding

-- `RemoteStore.Serialize`
abbrev pub serialize : {Bytes : Type 0} → Gob Bytes → Heap → RemoteStore → Bytes × Bool
serialize gob h s = gob.encode h s

-- `DecodeRemoteStore`
abbrev pub decode_remote_store : {Bytes : Type 0} → Gob Bytes → Heap → Bytes → Decoding
decode_remote_store gob h b = gob.decode h b

-- `GobSerialize`, and `Store.Serialize`, which drops the error.
abbrev pub gob_serialize : {Bytes : Type 0} → Gob Bytes → Heap → Store → Bytes × Bool
gob_serialize gob h store = gob.encode_store h store

abbrev pub serialize_store : {Bytes : Type 0} → Gob Bytes → Heap → Store → Bytes
serialize_store gob h store = (gob_serialize gob h store).0

-- What gob keeps of a store: the exported fields.
abbrev pub exported : List Entry → List Entry
exported [] = []
exported (kv ∷ kvs) = record kv { immutable = false } ∷ exported kvs

abbrev pub sent : RemoteStore → RemoteStore
sent r = record {
  values = record { entries = exported r.values.entries; spare = [] };
  lifetime = record { time = r.lifetime.time; timer = none };
}

-- The bytes of a store decode, without an error and on any heap, to what gob keeps of it.
abbrev pub IsFaithful : {Bytes : Type 0} → Gob Bytes → Heap → RemoteStore → Type 0
IsFaithful gob h r =
    ((gob.encode h r).1 ≡ false)
    × ((h' : Heap)
        → gob.decode h' (gob.encode h r).0 ≡ record { store = sent r; failed = false; heap = h' })

-- A value that refers to nothing and whose type gob knows.
abbrev pub IsBasic : Value → Type 0
IsBasic (slice r) = ⊥
IsBasic (mapping r) = ⊥
IsBasic (pointer r) = ⊥
IsBasic nil_slice = ⊥
IsBasic nil_mapping = ⊥
IsBasic nil_pointer = ⊥
IsBasic (other n) = ⊥
IsBasic v = Unit {0}

abbrev pub AllBasic : List Entry → Type 0
AllBasic [] = Unit {0}
AllBasic (kv ∷ kvs) = IsBasic kv.value_raw × AllBasic kvs

-- What gob promises: it writes a store of such values without an error, and reads it back.
abbrev pub KeepsBasic : {Bytes : Type 0} → Gob Bytes → Type 0
KeepsBasic gob = (h : Heap) (r : RemoteStore) → AllBasic r.values.entries → IsFaithful gob h r

-- A store of pairs that a library of its own implements. The Boolean of a write is its error.
pub record KeyValue (Bytes T : Type 0) : Type 0 where
  pub pairs : T → List (GoString × Bytes)
  pub put : GoString → Bytes → T → T × Bool
  pub delete : GoString → T → T × Bool

abbrev pub value_at : {Bytes : Type 0} → List (GoString × Bytes) → GoString → Option Bytes
value_at [] key = none
value_at ((k, v) ∷ m) key = if str_eq k key then some v else value_at m key

-- What the documentation of such a store promises where a write returns no error.
pub record IsLawful {Bytes T : Type 0} (kv : KeyValue Bytes T) : Type 0 where
  pub value-put :
      (k : GoString) (v : Bytes) (t : T) (j : GoString)
      → (kv.put k v t).1 ≡ false
      → value_at (kv.pairs (kv.put k v t).0) j
        ≡ (if str_eq k j then some v else value_at (kv.pairs t) j)
  pub value-delete :
      (k : GoString) (t : T) (j : GoString)
      → (kv.delete k t).1 ≡ false
      → value_at (kv.pairs (kv.delete k t).0) j
        ≡ (if str_eq k j then none else value_at (kv.pairs t) j)

unfoldable pub is_destroy : Action → Bool
is_destroy action_destroy = true
is_destroy a = false

-- What a constructor gives: the error of missing arguments, an error of `os.MkdirAll`, an error of
-- the library, or the database.
pub data Creation (A : Type 0) : Type 0 where
  options_missing no_directory not_opened : Creation A
  created : A → Creation A

-- What a constructor calls, over a state `F` of the file system: `os.MkdirAll`, whose error is the
-- Boolean, and the library's function that opens a path.
pub record Opener (F T : Type 0) : Type 0 where
  pub mkdir_all : GoString → ℕ → F → F × Bool
  pub open_database : GoString → F → Option T × F

-- A database of the package: its connection, its option, and the payloads whose goroutines have
-- not run, in the order of the calls.
pub record Backend (T : Type 0) : Type 0 where
  pub service : T
  pub async : Bool
  pub pending : List SyncPayload

-- `Async(useGoRoutines)`
unfoldable pub set_async : {T : Type 0} → Bool → Backend T → Backend T
set_async use_go_routines db = record db { async = use_go_routines }

abbrev pub remove_nth {ℓ} : {A : Type ℓ} → List A → ℕ → List A
remove_nth [] n = []
remove_nth (x ∷ xs) zero = xs
remove_nth (x ∷ xs) (suc n) = x ∷ remove_nth xs n

-- The payload as a goroutine finds it, where the array of its values shows these entries.
abbrev pub seen_now : List Entry → SyncPayload → SyncPayload
seen_now kvs p = record p {
  store = record p.store { values = record p.store.values { entries = kvs } };
}

module _ {T : Type 0} (sync : Heap → SyncPayload → T → T) where
  -- `Sync`: at once, or in a goroutine.
  unfoldable pub dispatch : Heap → SyncPayload → Backend T → Backend T
  dispatch h p db =
      if db.async
      then record db { pending = db.pending ++ p ∷ [] }
      else record db { service = sync h p db.service }

  -- A goroutine runs, any of those that there are, on the heap of that time. Its payload's values
  -- are a slice of the array that the session had, which `Save` and `Remove` change in place:
  -- `shown` is what the array has there by now.
  unfoldable pub run_goroutine : (SyncPayload → List Entry) → Heap → ℕ → Backend T → Backend T
  run_goroutine shown h n db = elim (get_elem? db.pending n) [
    | none ↦ db
    | some p ↦ record db {
      service = sync h (seen_now (shown p) p) db.service;
      pending = remove_nth db.pending n;
    }
  ]
