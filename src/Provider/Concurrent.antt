-- ===== src/Provider/Concurrent.antt =====
-- `Read` of provider.go when several requests are inside it. A step goes up to where the goroutine
-- has just unlocked the provider's mutex, or is about to lock it: other goroutines can run there.
pub mod Race
pub mod Safety
use go_sessions.Base.{ℕ, GoString, Option, none, some, List, [], ◌∷◌, get_elem?, set}
use go_sessions.Base.Int.{ℤ}
use go_sessions.Base.Outcome.{Exec, ◌>>=◌, ◌>>◌, pure, gets, modify}
use go_sessions.Database.{Database}
use go_sessions.World.{World, lookup, insert, lock_provider, unlock_provider}
use go_sessions.Session.{run_flash_gc}
use go_sessions.Provider.{new_session}

-- Where a request is: before the table is read, after its id was not found there, before its new
-- session is put there, and at the end, with its session.
pub data Place : Type 0 where
  asking making : Place
  registering finished : ℕ → Place

pub record Reader : Type 0 where
  pub sid : GoString
  pub place : Place

abbrev pub reader : GoString → Place → Reader
reader sid place = record { sid = sid; place = place }

module _ {D : Type 0} where
  unfoldable pub look_found : Option ℕ → Exec (World D) Place
  look_found (some p) = do run_flash_gc p; unlock_provider; pure (finished p)
  look_found none = do unlock_provider; pure making

module _ {D : Type 0} (ops : Database D) (expires : ℤ) where
  unfoldable pub next_place : GoString → Place → Exec (World D) Place
  unfolding look_found
  next_place sid asking = do lock_provider; found ← gets (λ w. lookup w.table sid); look_found found
  next_place sid making = do p ← new_session ops sid expires; pure (registering p)
  next_place sid (registering p) = do
    lock_provider
    modify (λ w. record w { table = insert w.table sid p })
    unlock_provider
    pure (finished p)
  next_place sid (finished p) = pure (finished p)

  unfoldable pub advance : Reader → Exec (World D) Reader
  unfolding next_place
  advance r = do place ← next_place r.sid r.place; pure (record r { place = place })

  -- The requests, after steps of those with the given numbers, in that order.
  unfoldable pub interleave : List ℕ → List Reader → Exec (World D) (List Reader)
  unfolding advance
  interleave [] rs = pure rs
  interleave (n ∷ ns) rs = elim (get_elem? rs n) [
    | none ↦ interleave ns rs
    | some r ↦ do r' ← advance r; interleave ns (set rs n r')
  ]
