-- ===== src/Provider/Everyone.antt =====
-- `DestroyAll` of provider.go.
use go_sessions.Base.{
  ℕ, GoString, str_eq, ◌≡◌, refl, ◌∙◌, true, false, Option, none, some, List, [], ◌∷◌, arith,
  get_elem?, if◌then◌else◌, Option-cases, inl, inr,
}
use go_sessions.Base.Outcome.{done}
use go_sessions.Database.{Database, action_destroy}
use go_sessions.World.{Session, World, StringMap, lookup, delete, unlock_provider}
use go_sessions.World.Laws.{lookup-delete, lock_provider_free}
use go_sessions.Session.Sync.{told}
use go_sessions.Provider.{delete_sessions, destroy_all}
use go_sessions.Provider.Table.{delete_session_lem}

-- Each pointer of a table stands for a session whose id is its key.
abbrev pub HasOwners : StringMap ℕ → List Session → Type 0
HasOwners [] sessions = Unit {0}
HasOwners ((k, p) ∷ m) sessions =
    ((s : Session) × (get_elem? sessions p ≡ some s) × (s.sid ≡ k)) × HasOwners m sessions

-- What a table has for an id once the ids of another are gone.
abbrev but_for : StringMap ℕ → GoString → Option ℕ → Option ℕ
but_for [] j o = o
but_for ((k, p) ∷ m) j o = but_for m j (if str_eq k j then none else o)

but_for-none : (m : StringMap ℕ) (j : GoString) → but_for m j none ≡ none
but_for-none [] j = refl
but_for-none ((k, p) ∷ m) j = ground (arith, but_for-none m j)

but_for_all :
    (m : StringMap ℕ) (j : GoString) (o : Option ℕ) (p : ℕ)
    → lookup m j ≡ some p
    → but_for m j o ≡ none
unfolding lookup
but_for_all [] j o p h = cc
but_for_all ((k, q) ∷ m) j o p h =
    ground (arith, but_for-none m j, but_for_all m j o p, but_for_all m j none p)

module _ {D : Type 0} (ops : Database D) where
  delete_sessions_lem :
      (m : StringMap ℕ) (w : World D)
      → HasOwners m w.sessions
      → (w' : World D) × (delete_sessions ops m w ≡ done tt w')
        × ((j : GoString) → lookup w'.table j ≡ but_for m j (lookup w.table j))
        × (w'.sessions ≡ w.sessions)
        × (w'.clock ≡ w.clock)
  unfolding delete_sessions told
  delete_sessions_lem [] w owners = (w, refl, (λ j. refl), refl, refl)
  delete_sessions_lem ((k, p) ∷ m) w owners =
      let s : Session = owners.0.0 in
      let w1 : World D =
        told ops (record w { table = delete w.table s.sid }) s action_destroy none in
      let rest = delete_sessions_lem m w1 owners.1 in
      (
        rest.0,
        rw (delete_session_lem ops w p s owners.0.1, delete_sessions) rest.1,
        (λ j. rest.2 j ∙ rw (lookup-delete w.table s.sid j) (rw owners.0.2)),
        rest.3,
        rest.4,
      )

  -- `DestroyAll`, with the provider's mutex free and each session in the table under its own id,
  -- returns: no id is found any more, and the mutex is free. The timers of the sessions stay as they
  -- were.
  pub destroy_all_empties :
      (w : World D)
      → w.locked ≡ false
      → HasOwners w.table w.sessions
      → (w' : World D) × (destroy_all ops w ≡ done tt w')
        × ((j : GoString) → lookup w'.table j ≡ none)
        × (w'.locked ≡ false)
        × (w'.clock ≡ w.clock)
  unfolding destroy_all unlock_provider
  destroy_all_empties w free owners =
      let all = delete_sessions_lem w.table (record w { locked = true }) owners in
      (
        record all.0 { locked = false },
        rw (lock_provider_free w free, destroy_all) (rw all.1),
        (λ j. all.2 j ∙ gone j),
        refl,
        all.4,
      )
    where
      gone : (j : GoString) → but_for w.table j (lookup w.table j) ≡ none
      gone j = elim (Option-cases (lookup w.table j)) [
        | inl e ↦ rw e (but_for-none w.table j)
        | inr (p, e) ↦ but_for_all w.table j (lookup w.table j) p e
      ]
