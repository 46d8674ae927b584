-- ===== src/Session/Flash.antt =====
-- The flash messages of session.go as a map.
use go_sessions.Base.{
  ℕ, GoString, str_eq_iff, ◌≡◌, refl, true, false, Option, none, some, [], ◌∷◌, arith,
  if◌then◌else◌,
}
use go_sessions.Base.Outcome.{done}
use go_sessions.Value.{Value}
use go_sessions.World.{FlashMessage, StringMap, Session, World, lookup, delete, insert, put}
use go_sessions.World.Laws.{lookup-delete, lock_free, unlock-put, IsFree}
use go_sessions.Session.{
  flash_values, mark_all, collect_garbage, run_flash_gc, get_flashes, set_flash,
}

-- No two pairs have one key.
abbrev pub IsMap : {V : Type 0} → StringMap V → Type 0
IsMap [] = Unit {0}
IsMap ((k, v) ∷ m) = (lookup m k ≡ none) × IsMap m

-- What is left of a message after a garbage collection.
abbrev pub unread : Option FlashMessage → Option FlashMessage
unread none = none
unread (some fv) = if fv.should_remove then none else some fv

lookup-collect_garbage-none :
    (m : StringMap FlashMessage) (k : GoString)
    → lookup m k ≡ none
    → lookup (collect_garbage m) k ≡ none
unfolding lookup collect_garbage
lookup-collect_garbage-none [] k h = refl
lookup-collect_garbage-none ((j, fv) ∷ m) k h = ground (arith, lookup-collect_garbage-none m k)

pub lookup-collect_garbage :
    (m : StringMap FlashMessage) (k : GoString)
    → IsMap m
    → lookup (collect_garbage m) k ≡ unread (lookup m k)
unfolding lookup collect_garbage
lookup-collect_garbage [] k u = refl
lookup-collect_garbage ((j, fv) ∷ m) k u =
    ground (arith, lookup-collect_garbage m k u.1, lookup-collect_garbage-none m k, str_eq_iff j k)

pub collect_garbage-mark_all : (m : StringMap FlashMessage) → collect_garbage (mark_all m) ≡ []
unfolding collect_garbage mark_all
collect_garbage-mark_all [] = refl
collect_garbage-mark_all ((k, fv) ∷ m) = collect_garbage-mark_all m

abbrev pub message_value : Option FlashMessage → Option Value
message_value none = none
message_value (some fv) = some fv.value

pub lookup-flash_values :
    (m : StringMap FlashMessage) (k : GoString)
    → lookup (flash_values m) k ≡ message_value (lookup m k)
unfolding lookup flash_values
lookup-flash_values [] k = refl
lookup-flash_values ((j, fv) ∷ m) k = ground (arith, lookup-flash_values m k)

delete-none :
    {V : Type 0} (m : StringMap V) (k j : GoString)
    → lookup m j ≡ none
    → lookup (delete m k) j ≡ none
delete-none m k j h = ground (arith, lookup-delete m k j)

pub delete-IsMap : {V : Type 0} (m : StringMap V) (k : GoString) → IsMap m → IsMap (delete m k)
unfolding delete
delete-IsMap [] k u = tt
delete-IsMap ((j, v) ∷ m) k u = ground (arith, delete-IsMap m k u.1, delete-none m k j)

pub insert-IsMap :
    {V : Type 0} (m : StringMap V) (k : GoString) (v : V) → IsMap m → IsMap (insert m k v)
unfolding insert
insert-IsMap m k v u = ground (arith, lookup-delete m k k, str_eq_iff k k, delete-IsMap m k u)

module _ {D : Type 0} (w : World D) (p : ℕ) (s : Session) (f : IsFree w p s) where
  abbrev locked_session : Session
  locked_session = record s { locked = true }

  pub run_flash_gc_lem :
      run_flash_gc p w
      ≡ done tt (put p (record s { flashes = collect_garbage s.flashes; locked = false }) w)
  unfolding run_flash_gc
  run_flash_gc_lem =
      rw (lock_free w p s f.found f.unlocked f.unread, run_flash_gc)
        (unlock-put w p locked_session
          (record locked_session { flashes = collect_garbage s.flashes }))

  pub get_flashes_lem :
      get_flashes p w
      ≡ done
          (flash_values s.flashes)
          (put p (record s { flashes = mark_all s.flashes; locked = false }) w)
  unfolding get_flashes
  get_flashes_lem =
      rw (lock_free w p s f.found f.unlocked f.unread, get_flashes)
        (rw
          (unlock-put w p locked_session (record locked_session { flashes = mark_all s.flashes })))

  pub set_flash_lem :
      (key : GoString) (v : Value)
      → set_flash p key v w
        ≡ done tt (
            put p
              (record s {
                flashes = insert s.flashes key (record { should_remove = false; value = v });
                locked = false;
              })
              w)
  unfolding set_flash
  set_flash_lem key v =
      rw (lock_free w p s f.found f.unlocked f.unread, set_flash)
        (unlock-put w p locked_session (record locked_session {
          flashes = insert s.flashes key (record { should_remove = false; value = v });
        }))
