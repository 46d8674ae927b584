-- ===== src/Provider/Deadlock.antt =====
-- What the mutex that a flash message leaves held does to the provider.
use go_sessions.Base.{ℕ, GoString, ◌≡◌, refl, true, false, some, get_elem?}
use go_sessions.Base.Int.{ℤ}
use go_sessions.Base.Outcome.{done, blocks}
use go_sessions.Database.{Database}
use go_sessions.World.{FlashMessage, Session, World, lookup, put}
use go_sessions.World.Laws.{get-put, lock_held, lock_provider_free, lock_provider_held, IsFree}
use go_sessions.Session.{get_flash, run_flash_gc}
use go_sessions.Session.Deadlock.{held, marked, get_flash_found}
use go_sessions.Provider.{read, read_found}

module _ {D : Type 0} (ops : Database D) where
  -- A call that finds the provider locked waits for ever.
  pub read_locked :
      (w : World D) (sid : GoString) (expires : ℤ)
      → w.locked ≡ true
      → read ops sid expires w ≡ blocks w
  unfolding read
  read_locked w sid expires h = rw (lock_provider_held w h, read)

  -- The garbage collection of a held session blocks inside the provider's lock.
  pub read_held :
      (w : World D) (sid : GoString) (expires : ℤ) (p : ℕ) (s : Session)
      → w.locked ≡ false
      → lookup w.table sid ≡ some p
      → get_elem? w.sessions p ≡ some s
      → s.locked ≡ true
      → read ops sid expires w ≡ blocks (put p s (record w { locked = true }))
  unfolding read run_flash_gc
  read_held w sid expires p s free in_table found h =
      rw (lock_provider_free w free, read)
        (rw (in_table, read_found)
          (rw (lock_held (record w { locked = true }) p s found h, run_flash_gc)))

  -- A handler that takes a flash message which is there gets it, and with that stops the program:
  -- the next request of that client waits for ever while it holds the provider's mutex, and then so
  -- does every request for any session, known or not.
  pub get_flash_deadlock :
      (w : World D) (sid : GoString) (p : ℕ) (s : Session) (key : GoString) (fv : FlashMessage)
      → w.locked ≡ false
      → lookup w.table sid ≡ some p
      → IsFree w p s
      → lookup s.flashes key ≡ some fv
      → (w1 w2 : World D) × (get_flash p key w ≡ done fv.value w1)
        × ((expires : ℤ) → read ops sid expires w1 ≡ blocks w2)
        × ((other : GoString) (expires : ℤ) → read ops other expires w2 ≡ blocks w2)
  get_flash_deadlock w sid p s key fv free in_table f found =
      let left : Session = marked (held w p s key fv) key fv in
      let w1 : World D = put p left w in
      let w2 : World D = put p left (record w1 { locked = true }) in
      (
        w1,
        w2,
        get_flash_found w p s key fv f found,
        λ expires. read_held w1 sid expires p left free in_table (get-put w p s left f.found) refl,
        λ other expires. read_locked w2 other expires refl,
      )
