-- ===== src/Program.antt =====
-- A program that uses the package: the calls of its handlers and of the timers, one after another,
-- in any order. Each ends before the next begins.
pub mod Owners
pub mod Steady
pub mod SessionCalls
pub mod ProviderCalls
pub mod Progress
use go_sessions.Base.{ℕ, ◌+◌, GoString, ◌≡◌, Bool, true, false, List, [], ◌∷◌}
use go_sessions.Base.Int.{ℤ}
use go_sessions.Base.Outcome.{Exec, ◌>>=◌, ◌>>◌, pure, modify}
use go_sessions.Value.{Value, Heap}
use go_sessions.Database.{Database}
use go_sessions.World.{World}
use go_sessions.Session
use go_sessions.Provider
use go_sessions.Cookie.{Request}
use go_sessions.Config.{Config, validate, Generator}
use go_sessions.Sessions

-- `starts` carries the number of its call of the id generator, and the calls on a session the
-- pointer to it. `fires` is the timer with that number, `waits` the time that passes, and
-- `writes` what a handler writes to the slices and maps that it shares with the sessions.
pub data Call (D : Type 0) : Type 0 where
  starts : ℕ → Request → Call D
  destroys : Request → Call D
  destroys_id : GoString → Call D
  destroys_all : Call D
  updates_expiration : Request → ℤ → Call D
  uses_database : D → Call D
  fires waits : ℕ → Call D
  writes : Heap → Call D
  sets : ℕ → GoString → Value → Bool → Call D
  deletes : ℕ → GoString → Call D
  clears : ℕ → Call D
  gets : ℕ → GoString → Call D
  gets_all visits : ℕ → Call D
  sets_flash : ℕ → GoString → Value → Call D
  deletes_flash : ℕ → GoString → Call D
  clears_flashes gets_flashes : ℕ → Call D
  gets_flash peeks_flash : ℕ → GoString → Call D

module _ {D : Type 0} (ops : Database D) (c : Config) (unlimited : ℕ) where
  unfoldable pub step : Call D → Exec (World D) (Unit {0})
  step (starts draw r) = do Sessions.start ops c unlimited draw r; pure tt
  step (destroys r) = do Sessions.destroy ops c r; pure tt
  step (destroys_id sid) = Sessions.destroy_by_id ops c sid
  step destroys_all = Sessions.destroy_all ops c
  step (updates_expiration r expires) = do Sessions.update_expiration c unlimited r expires; pure tt
  step (uses_database db) = Sessions.use_database db
  step (fires t) = Provider.fire ops t
  step (waits n) = modify (λ w. record w { clock = record w.clock { now = w.clock.now + n } })
  step (writes h) = modify (λ w. record w { heap = h })
  step (sets p key v immutable) = Session.set_with ops p key v immutable
  step (deletes p key) = do Session.delete_value ops p key; pure tt
  step (clears p) = Session.clear ops p
  step (gets p key) = do Session.get p key; pure tt
  step (gets_all p) = do Session.get_all p; pure tt
  step (visits p) = do Session.visit_all p (λ key v n. n + 1) 0; pure tt
  step (sets_flash p key v) = Session.set_flash p key v
  step (deletes_flash p key) = Session.delete_flash p key
  step (clears_flashes p) = Session.clear_flashes p
  step (gets_flashes p) = do Session.get_flashes p; pure tt
  step (gets_flash p key) = do Session.get_flash p key; pure tt
  step (peeks_flash p key) = do Session.peek_flash p key; pure tt

  unfoldable pub run : List (Call D) → Exec (World D) (Unit {0})
  unfolding step
  run [] = pure tt
  run (call ∷ calls) = do step call; run calls

-- The two calls that take a single message.
abbrev pub takes_flash : {D : Type 0} → Call D → Bool
takes_flash (gets_flash p key) = true
takes_flash (peeks_flash p key) = true
takes_flash call = false

abbrev pub AllSafe : {D : Type 0} → List (Call D) → Type 0
AllSafe [] = Unit {0}
AllSafe (call ∷ calls) = (takes_flash call ≡ false) × AllSafe calls
