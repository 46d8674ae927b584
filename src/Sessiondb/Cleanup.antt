-- ===== src/Sessiondb/Cleanup.antt =====
-- The loop of `Cleanup` in leveldb, whose iterator is over a snapshot.
use go_sessions.Base.{
  ℕ, GoString, codes, str_eq, str_eq_sound, ◌≡◌, refl, ◌∙◌, ◌||◌, ◌&&◌, Bool, false, Option, none,
  some, List, [], ◌∷◌, arith, if◌then◌else◌,
}
use go_sessions.Value.{Heap}
use go_sessions.Lifetime.{has_expired}
use go_sessions.Sessiondb.{Gob, KeyValue, value_at, IsLawful}
use go_sessions.Sessiondb.Leveldb

-- No key stands in two pairs.
abbrev pub HasKeysOnce : {Bytes : Type 0} → List (GoString × Bytes) → Type 0
HasKeysOnce [] = Unit {0}
HasKeysOnce ((k, v) ∷ m) = (value_at m k ≡ none) × HasKeysOnce m

module _ {Bytes T : Type 0} (gob : Gob Bytes) (kv : KeyValue Bytes T) (now : ℕ) (h : Heap) where
  -- The pair decodes to a session that is over.
  abbrev pub is_over : GoString → Bytes → Bool
  is_over k v =
      if str_eq k (codes "") || (gob.decode h v).failed
      then false
      else has_expired now (gob.decode h v).store.lifetime

  abbrev pub kept : GoString → Option Bytes → Option Bytes
  kept k none = none
  kept k (some v) = if is_over k v then none else some v

  -- The loop deletes the key.
  abbrev doomed : List (GoString × Bytes) → GoString → Bool
  doomed [] j = false
  doomed ((k, v) ∷ m) j = is_over k v && str_eq k j || doomed m j

  doomed_missing :
      (m : List (GoString × Bytes)) (j : GoString) → value_at m j ≡ none → doomed m j ≡ false
  doomed_missing [] j missing = refl
  doomed_missing ((k, v) ∷ m) j missing = ground (arith, doomed_missing m j)

  -- What the loop leaves of a key, in terms of what stands there.
  doomed_once :
      (m : List (GoString × Bytes)) (j : GoString)
      → HasKeysOnce m
      → (if doomed m j then none else value_at m j) ≡ kept j (value_at m j)
  doomed_once [] j once = refl
  doomed_once ((k, v) ∷ m) j once =
      ground (arith, doomed_once m j once.1, doomed_missing m j, once.0, str_eq_sound k j)

  module _ (law : IsLawful kv)
      (delete_works : (k : GoString) (t : T) → (kv.delete k t).1 ≡ false) where
    leveldb_clean :
        (m : List (GoString × Bytes)) (t : T) (j : GoString)
        → value_at (kv.pairs (Leveldb.clean gob kv now h m t)) j
          ≡ (if doomed m j then none else value_at (kv.pairs t) j)
    unfolding Leveldb.clean
    leveldb_clean [] t j = refl
    leveldb_clean ((k, v) ∷ m) t j = ground (
      arith,
      leveldb_clean m t j,
      leveldb_clean m (kv.delete k t).0 j,
      law.value-delete k t j (delete_works k t),
    )

    -- `Cleanup` of leveldb, where no key stands in two pairs and no deletion returns an error,
    -- deletes exactly the sessions under a key that is not empty that decode without an error and
    -- whose lifetime has expired; every other key keeps its bytes.
    pub cleanup_deletes :
        (t : T) (j : GoString)
        → HasKeysOnce (kv.pairs t)
        → value_at (kv.pairs (Leveldb.cleanup gob kv now h t)) j ≡ kept j (value_at (kv.pairs t) j)
    unfolding Leveldb.cleanup
    cleanup_deletes t j once = leveldb_clean (kv.pairs t) t j ∙ doomed_once (kv.pairs t) j once
