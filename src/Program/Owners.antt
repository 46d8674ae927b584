-- ===== src/Program/Owners.antt =====
-- Sessions that nobody holds, and tables that point to sessions with their ids.
use go_sessions.Base.{
  ℕ, suc, zero, GoString, str_eq, ◌≡◌, refl, ◌∙◌, false, some, List, [], ◌∷◌, ◌++◌, arith,
  get_elem?, set, get_elem?-append, get_elem?-lt, sym, str_eq_sound, Bool-cases, inl, inr,
}
use go_sessions.World.{Session, StringMap, lookup, delete, insert}
use go_sessions.Provider.Everyone.{HasOwners}

-- Nobody holds the session.
abbrev pub IsIdle : Session → Type 0
IsIdle s = (s.locked ≡ false) × (s.readers ≡ 0)

abbrev pub AllIdle : List Session → Type 0
AllIdle [] = Unit {0}
AllIdle (s ∷ ss) = IsIdle s × AllIdle ss

-- What points to a session with some id still does.
abbrev pub Grows : List Session → List Session → Type 0
Grows ss ss' = (m : StringMap ℕ) → HasOwners m ss → HasOwners m ss'

pub AllIdle-get :
    (ss : List Session) (p : ℕ) (s : Session) → AllIdle ss → get_elem? ss p ≡ some s → IsIdle s
AllIdle-get [] p s i h = cc
AllIdle-get (t ∷ ss) zero s i h = ground arith
AllIdle-get (t ∷ ss) (suc p) s i h = AllIdle-get ss p s i.1 h

pub AllIdle-set :
    (ss : List Session) (p : ℕ) (s : Session) → AllIdle ss → IsIdle s → AllIdle (set ss p s)
AllIdle-set [] p s i h = tt
AllIdle-set (t ∷ ss) zero s i h = (h, i.1)
AllIdle-set (t ∷ ss) (suc p) s i h = (i.0, AllIdle-set ss p s i.1 h)

pub AllIdle-append :
    (ss : List Session) (s : Session) → AllIdle ss → IsIdle s → AllIdle (ss ++ s ∷ [])
AllIdle-append [] s i h = (h, tt)
AllIdle-append (t ∷ ss) s i h = (i.0, AllIdle-append ss s i.1 h)

-- A session may change behind its pointer, but for its id.
HasOwner-set :
    (ss : List Session) (p q : ℕ) (s t : Session) (k : GoString)
    → get_elem? ss p ≡ some s
    → t.sid ≡ s.sid
    → (u : Session) × (get_elem? ss q ≡ some u) × (u.sid ≡ k)
    → (u : Session) × (get_elem? (set ss p t) q ≡ some u) × (u.sid ≡ k)
HasOwner-set [] p q s t k h same o = cc
HasOwner-set (x ∷ ss) zero zero s t k h same o = (t, refl, ground arith)
HasOwner-set (x ∷ ss) zero (suc q) s t k h same o = o
HasOwner-set (x ∷ ss) (suc p) zero s t k h same o = o
HasOwner-set (x ∷ ss) (suc p) (suc q) s t k h same o = HasOwner-set ss p q s t k h same o

pub HasOwners-set :
    (m : StringMap ℕ) (ss : List Session) (p : ℕ) (s t : Session)
    → get_elem? ss p ≡ some s
    → t.sid ≡ s.sid
    → HasOwners m ss
    → HasOwners m (set ss p t)
HasOwners-set [] ss p s t h same o = tt
HasOwners-set ((k, q) ∷ m) ss p s t h same o =
    (HasOwner-set ss p q s t k h same o.0, HasOwners-set m ss p s t h same o.1)

pub HasOwners-append :
    (m : StringMap ℕ) (ss : List Session) (s : Session)
    → HasOwners m ss
    → HasOwners m (ss ++ s ∷ [])
HasOwners-append [] ss s o = tt
HasOwners-append ((k, q) ∷ m) ss s o = (
  (o.0.0, get_elem?-append ss (s ∷ []) q (get_elem?-lt ss q o.0.0 o.0.1) ∙ o.0.1, o.0.2),
  HasOwners-append m ss s o.1,
)

pub HasOwners-delete :
    (m : StringMap ℕ) (ss : List Session) (k : GoString)
    → HasOwners m ss
    → HasOwners (delete m k) ss
unfolding delete
HasOwners-delete [] ss k o = tt
HasOwners-delete ((j, q) ∷ m) ss k o = elim (Bool-cases (str_eq j k)) [
  | inl e ↦ rw e (HasOwners-delete m ss k o.1)
  | inr e ↦ rw e (o.0, HasOwners-delete m ss k o.1)
]

pub HasOwners-insert :
    (m : StringMap ℕ) (ss : List Session) (k : GoString) (p : ℕ) (s : Session)
    → HasOwners m ss
    → get_elem? ss p ≡ some s
    → s.sid ≡ k
    → HasOwners (insert m k p) ss
unfolding insert
HasOwners-insert m ss k p s o h same = ((s, h, same), HasOwners-delete m ss k o)

-- The session that a table has for an id.
pub HasOwners-lookup :
    (m : StringMap ℕ) (ss : List Session) (k : GoString) (p : ℕ)
    → HasOwners m ss
    → lookup m k ≡ some p
    → (s : Session) × (get_elem? ss p ≡ some s) × (s.sid ≡ k)
unfolding lookup
HasOwners-lookup [] ss k p o h = cc
HasOwners-lookup ((j, q) ∷ m) ss k p o h = elim (Bool-cases (str_eq j k)) [
  | inl e ↦
      let same : q ≡ p = ground (arith, h, e) in
      (o.0.0, rw (sym same) o.0.1, o.0.2 ∙ str_eq_sound j k e)
  | inr e ↦ HasOwners-lookup m ss k p o.1 (ground (arith, h, e))
]
