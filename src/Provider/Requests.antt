-- ===== src/Provider/Requests.antt =====
-- Requests for sessions that the provider holds, and the life of flash messages between them.
use go_sessions.Base.{ℕ, GoString, str_eq_refl, ◌≡◌, refl, ◌∙◌, true, false, some, [], get_elem?}
use go_sessions.Base.Int.{ℤ}
use go_sessions.Base.Outcome.{done}
use go_sessions.Value.{Value}
use go_sessions.Database.{Database}
use go_sessions.World.{
  FlashMessage, StringMap, Session, World, lookup, insert, put, unlock_provider,
}
use go_sessions.World.Laws.{lookup-insert, get-put, lock_provider_free, IsFree}
use go_sessions.Session.{flash_values, mark_all, collect_garbage, get_flashes, set_flash}
use go_sessions.Session.Flash.{
  IsMap, unread, message_value, lookup-collect_garbage, collect_garbage-mark_all,
  lookup-flash_values, insert-IsMap, run_flash_gc_lem, get_flashes_lem, set_flash_lem,
}
use go_sessions.Provider.{read, read_found}

module _ {D : Type 0} (ops : Database D) where
  -- The state after a request for a session that is in memory.
  abbrev pub requested : ℕ → Session → World D → World D
  requested p s w =
      record (put p (record s { flashes = collect_garbage s.flashes; locked = false }) w) {
        locked = false;
      }

  pub read_existing :
      (w : World D) (sid : GoString) (expires : ℤ) (p : ℕ) (s : Session)
      → w.locked ≡ false
      → lookup w.table sid ≡ some p
      → IsFree w p s
      → read ops sid expires w ≡ done p (requested p s w)
  unfolding read unlock_provider
  read_existing w sid expires p s free in_table f =
      rw (lock_provider_free w free, read)
        (rw (in_table, read_found)
          (rw (
            run_flash_gc_lem (record w { locked = true }) p s
              (record { found = f.found; unlocked = f.unlocked; unread = f.unread }))))

  IsFree-put :
      (w : World D) (p : ℕ) (s t : Session)
      → IsFree w p s
      → t.locked ≡ false
      → t.readers ≡ s.readers
      → IsFree (put p t w) p t
  IsFree-put w p s t f unlocked same = record {
    found = get-put w p s t f.found;
    unlocked = unlocked;
    unread = same ∙ f.unread;
  }

  -- A request for a session in memory, with nobody inside it or the provider, returns that session
  -- with its id and values, removes exactly the flash messages that were marked, and leaves both
  -- mutexes free.
  pub read_keeps :
      (w : World D) (sid : GoString) (expires : ℤ) (p : ℕ) (s : Session)
      → w.locked ≡ false
      → lookup w.table sid ≡ some p
      → IsFree w p s
      → IsMap s.flashes
      → (w' : World D) × (s' : Session) × (read ops sid expires w ≡ done p w')
        × IsFree w' p s'
        × (w'.locked ≡ false)
        × (s'.sid ≡ s.sid)
        × (s'.values ≡ s.values)
        × ((k : GoString) → lookup s'.flashes k ≡ unread (lookup s.flashes k))
  read_keeps w sid expires p s free in_table f m =
      let s' : Session = record s { flashes = collect_garbage s.flashes; locked = false } in
      (
        requested p s w,
        s',
        read_existing w sid expires p s free in_table f,
        record { found = get-put w p s s' f.found; unlocked = refl; unread = f.unread },
        refl,
        refl,
        refl,
        λ k. lookup-collect_garbage s.flashes k m,
      )

  -- `GetFlashes`, with nobody inside the session or the provider, hands every message of a session
  -- in memory out, under its key, and the next request for that session returns it and finds none
  -- of them left.
  pub flashes_read_once :
      (w : World D) (sid : GoString) (p : ℕ) (s : Session)
      → w.locked ≡ false
      → lookup w.table sid ≡ some p
      → IsFree w p s
      → (m : StringMap Value) × (w1 w2 : World D) × (get_flashes p w ≡ done m w1)
        × ((k : GoString) → lookup m k ≡ message_value (lookup s.flashes k))
        × ((expires : ℤ) → read ops sid expires w1 ≡ done p w2)
        × (get_elem? w2.sessions p ≡ some (record s { flashes = []; locked = false }))
  flashes_read_once w sid p s free in_table f =
      let s1 : Session = record s { flashes = mark_all s.flashes; locked = false } in
      let w1 : World D = put p s1 w in
      (
        flash_values s.flashes,
        w1,
        requested p s1 w1,
        get_flashes_lem w p s f,
        lookup-flash_values s.flashes,
        λ expires.
            read_existing w1 sid expires p s1 free in_table (IsFree-put w p s s1 f refl refl),
        rw (collect_garbage-mark_all s.flashes) (
            get-put w1 p s1 (record s { flashes = []; locked = false }) (get-put w p s s1 f.found)),
      )

  -- A message that was set and not fetched is still there after the next request.
  flash_kept :
      (w : World D) (sid : GoString) (p : ℕ) (s : Session) (key : GoString) (v : Value)
      → w.locked ≡ false
      → lookup w.table sid ≡ some p
      → IsFree w p s
      → IsMap s.flashes
      → (w1 w2 : World D) × (s2 : Session) × (set_flash p key v w ≡ done tt w1)
        × ((expires : ℤ) → read ops sid expires w1 ≡ done p w2)
        × IsFree w2 p s2
        × (lookup s2.flashes key ≡ some (record { should_remove = false; value = v }))
  flash_kept w sid p s key v free in_table f m =
      let fv : FlashMessage = record { should_remove = false; value = v } in
      let s1 : Session = record s { flashes = insert s.flashes key fv; locked = false } in
      let w1 : World D = put p s1 w in
      let f1 = IsFree-put w p s s1 f refl refl in
      let s2 : Session = record s { flashes = collect_garbage s1.flashes; locked = false } in
      (
        w1,
        requested p s1 w1,
        s2,
        set_flash_lem w p s f key v,
        λ expires. read_existing w1 sid expires p s1 free in_table f1,
        record { found = get-put w1 p s1 s2 f1.found; unlocked = refl; unread = f.unread },
        rw (lookup-collect_garbage s1.flashes key (insert-IsMap s.flashes key fv m))
            (rw (lookup-insert s.flashes key fv key, str_eq_refl key)),
      )
