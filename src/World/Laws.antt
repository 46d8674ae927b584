-- ===== src/World/Laws.antt =====
-- Maps from strings, and writes to the session behind a pointer.
use go_sessions.Base.{
  ℕ, GoString, str_eq, str_eq_iff, ◌≡◌, true, false, none, some, [], ◌∷◌, arith, get_elem?,
  get_elem?-set_self, set-set, get_elem?-lt, if◌then◌else◌,
}
use go_sessions.Base.Outcome.{done, blocks}
use go_sessions.World.{
  StringMap, lookup, delete, insert, World, Session, put, deref, lock, unlock, lock_provider,
}

module _ {V : Type 0} where
  pub lookup-delete :
      (m : StringMap V) (k j : GoString)
      → lookup (delete m k) j ≡ (if str_eq k j then none else lookup m j)
  unfolding lookup delete
  lookup-delete [] k j = ground arith
  lookup-delete ((i, v) ∷ m) k j =
      ground (arith, lookup-delete m k j, str_eq_iff i k, str_eq_iff i j, str_eq_iff k j)

  pub lookup-insert :
      (m : StringMap V) (k : GoString) (v : V) (j : GoString)
      → lookup (insert m k v) j ≡ (if str_eq k j then some v else lookup m j)
  unfolding lookup insert
  lookup-insert m k v j = ground (arith, lookup-delete m k j)

module _ {D : Type 0} where
  -- What stands behind a pointer after a write through one.
  pub get-put :
      (w : World D) (p : ℕ) (s t : Session)
      → get_elem? w.sessions p ≡ some s
      → get_elem? (put p t w).sessions p ≡ some t
  get-put w p s t h = get_elem?-set_self w.sessions p t (get_elem?-lt w.sessions p s h)

  pub put-put : (w : World D) (p : ℕ) (s t : Session) → put p t (put p s w) ≡ put p t w
  put-put w p s t = rw (set-set w.sessions p s t)

  pub lock_free :
      (w : World D) (p : ℕ) (s : Session)
      → get_elem? w.sessions p ≡ some s
      → s.locked ≡ false
      → s.readers ≡ 0
      → lock p w ≡ done (record s { locked = true }) (put p (record s { locked = true }) w)
  unfolding lock
  lock_free w p s h free none_reads = ground arith

  pub lock_held :
      (w : World D) (p : ℕ) (s : Session)
      → get_elem? w.sessions p ≡ some s
      → s.locked ≡ true
      → lock p w ≡ blocks (put p s w)
  unfolding lock
  lock_held w p s h held = ground arith

  pub deref_lem :
      (w : World D) (p : ℕ) (s : Session) → get_elem? w.sessions p ≡ some s → deref p w ≡ done s w
  unfolding deref
  deref_lem w p s h = ground arith

  pub unlock-put :
      (w : World D) (p : ℕ) (s t : Session)
      → unlock p t (put p s w) ≡ done tt (put p (record t { locked = false }) w)
  unfolding unlock
  unlock-put w p s t = rw (put-put w p s (record t { locked = false }))

  -- A session that nobody holds: a call can lock it.
  pub record IsFree (w : World D) (p : ℕ) (s : Session) : Type 0 where
    pub found : get_elem? w.sessions p ≡ some s
    pub unlocked : s.locked ≡ false
    pub unread : s.readers ≡ 0

  pub lock_provider_free :
      (w : World D) → w.locked ≡ false → lock_provider w ≡ done tt (record w { locked = true })
  unfolding lock_provider
  lock_provider_free w h = ground arith

  pub lock_provider_held : (w : World D) → w.locked ≡ true → lock_provider w ≡ blocks w
  unfolding lock_provider
  lock_provider_held w h = ground arith
