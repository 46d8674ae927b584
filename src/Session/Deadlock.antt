-- ===== src/Session/Deadlock.antt =====
-- The path of `peekFlashMessage` in session.go that returns without `Unlock`.
use go_sessions.Base.{ℕ, GoString, ◌≡◌, true, some, get_elem?}
use go_sessions.Base.Outcome.{done}
use go_sessions.World.{FlashMessage, Session, World, lookup, insert, put, store}
use go_sessions.World.Laws.{get-put, put-put, deref_lem, lock_free, IsFree}
use go_sessions.Session.{get_flash, peek_flash, peek_flash_message, mark_flash, taken, peeked}

-- `fv.shouldRemove = true` for the message under a key.
abbrev pub marked : Session → GoString → FlashMessage → Session
marked s key fv = record s { flashes = insert s.flashes key (record fv { should_remove = true }) }

module _ {D : Type 0} (w : World D) (p : ℕ) (s : Session) (key : GoString) (fv : FlashMessage) where
  abbrev pub held : Session
  held = record s { locked = true }

  peek_found :
      IsFree w p s
      → lookup s.flashes key ≡ some fv
      → peek_flash_message p key w ≡ done (some fv) (put p held w)
  unfolding peek_flash_message
  peek_found f found =
      rw (lock_free w p s f.found f.unlocked f.unread, peek_flash_message) (rw (found, peeked))

  mark_lem :
      (v : World D) (t : Session)
      → get_elem? v.sessions p ≡ some t
      → mark_flash p key fv v ≡ done tt (put p (marked t key fv) v)
  unfolding mark_flash store
  mark_lem v t h = rw (deref_lem v p t h, mark_flash)

  -- `GetFlash` returns the message, marks it, and leaves the mutex held.
  pub get_flash_found :
      IsFree w p s
      → lookup s.flashes key ≡ some fv
      → get_flash p key w ≡ done fv.value (put p (marked held key fv) w)
  unfolding get_flash
  get_flash_found f found =
      rw (peek_found f found, get_flash)
        (rw (mark_lem (put p held w) held (get-put w p s held f.found), taken)
          (rw (put-put w p held (marked held key fv))))

  -- So does `PeekFlash`, but for the mark.
  pub peek_flash_found :
      IsFree w p s
      → lookup s.flashes key ≡ some fv
      → peek_flash p key w ≡ done fv.value (put p held w)
  unfolding peek_flash
  peek_flash_found f found = rw (peek_found f found, peek_flash)
