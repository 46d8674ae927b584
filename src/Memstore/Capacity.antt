-- ===== src/Memstore/Capacity.antt =====
-- memstore.go keeps the array of the entries when it removes and adds: nothing of a slot that was
-- given up comes back.
use go_sessions.Base.{
  GoString, ◌≡◌, refl, ap, ◌∙◌, ◌++◌, Bool, true, false, List, [], ◌∷◌, none, some,
}
use go_sessions.Value.{Value}
use go_sessions.Memstore.{Entry, Store, find, reset}
use go_sessions.Memstore.Lookup.{saved, updated, removed, save_lem, remove_lem}
use go_sessions.Memstore.Immutable.{Op, sets, sets_immutable, removes, resets, apply, run}

saves : List Entry → GoString → Value → Bool → List Entry
saves kvs k v i = elim (find kvs k) [
  | none ↦ kvs ++ saved none k v i ∷ []
  | some kv ↦ updated kvs k v i
]

-- The entries after a call, as a function of the entries before it alone.
unfoldable pub applied : List Entry → Op → List Entry
unfolding saves
applied kvs (sets k v) = saves kvs k v false
applied kvs (sets_immutable k v) = saves kvs k v true
applied kvs (removes k) = removed kvs k
applied kvs resets = []

unfoldable pub applied_all : List Entry → List Op → List Entry
applied_all kvs [] = kvs
applied_all kvs (op ∷ ops) = applied_all (applied kvs op) ops

apply-applied : (r : Store) (op : Op) → (apply r op).entries ≡ applied r.entries op
unfolding apply applied reset
apply-applied r (sets k v) = (save_lem r k v false).2
apply-applied r (sets_immutable k v) = (save_lem r k v true).2
apply-applied r (removes k) = (remove_lem r k).0
apply-applied r resets = refl

-- The entries after any history of calls are a function of the entries before it: neither the
-- capacity of the slice nor what its unused slots still hold makes a difference.
pub run-applied_all : (r : Store) (ops : List Op) → (run r ops).entries ≡ applied_all r.entries ops
unfolding run applied_all
run-applied_all r [] = refl
run-applied_all r (op ∷ ops) =
    run-applied_all (apply r op) ops ∙ ap (λ kvs. applied_all kvs ops) (apply-applied r op)
