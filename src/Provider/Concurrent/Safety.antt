-- ===== src/Provider/Concurrent/Safety.antt =====
-- Requests inside `Read` of provider.go at once, in whatever order their steps come.
use go_sessions.Base.{
  ℕ, zero, suc, GoString, ◌≡◌, refl, subst, true, false, Option, none, some, List, [], ◌∷◌,
  get_elem?, set, Option-cases, inl, inr, ◌⊎◌,
}
use go_sessions.Base.Int.{ℤ}
use go_sessions.Base.Outcome.{Outcome, done, panics, blocks}
use go_sessions.Database.{Database}
use go_sessions.World.{Session, World, StringMap, lookup, unlock_provider, put}
use go_sessions.World.Laws.{lock_provider_free}
use go_sessions.Session.{run_flash_gc, collect_garbage}
use go_sessions.Session.Flash.{run_flash_gc_lem, insert-IsMap}
use go_sessions.Provider.{new_session}
use go_sessions.Provider.Everyone.{HasOwners}
use go_sessions.Provider.Concurrent.{
  Place, Reader, reader, asking, making, registering, finished, look_found, next_place, advance,
  interleave,
}
use go_sessions.Program.Owners.{
  Grows, AllIdle-get, HasOwners-set, HasOwners-insert, HasOwners-lookup,
}
use go_sessions.Program.Steady.{IsSteady, Ends, Ends-continue, Keeps}
use go_sessions.Program.SessionCalls.{run_flash_gc-Keeps}
use go_sessions.Program.ProviderCalls.{new_session-Ends}

-- The session that a request points to, under the request's id.
abbrev pub claim : GoString → Place → StringMap ℕ → StringMap ℕ
claim sid asking m = m
claim sid making m = m
claim sid (registering p) m = (sid, p) ∷ m
claim sid (finished p) m = (sid, p) ∷ m

abbrev pub claims : List Reader → StringMap ℕ
claims [] = []
claims (r ∷ rs) = claim r.sid r.place (claims rs)

HasOwners-claim :
    (sid : GoString) (place : Place) (m : StringMap ℕ) (ss : List Session)
    → HasOwners (claim sid place []) ss
    → HasOwners m ss
    → HasOwners (claim sid place m) ss
HasOwners-claim sid asking m ss o rest = rest
HasOwners-claim sid making m ss o rest = rest
HasOwners-claim sid (registering p) m ss o rest = (o.0, rest)
HasOwners-claim sid (finished p) m ss o rest = (o.0, rest)

claim-HasOwners :
    (sid : GoString) (place : Place) (m : StringMap ℕ) (ss : List Session)
    → HasOwners (claim sid place m) ss
    → HasOwners (claim sid place []) ss × HasOwners m ss
claim-HasOwners sid asking m ss o = (tt, o)
claim-HasOwners sid making m ss o = (tt, o)
claim-HasOwners sid (registering p) m ss o = ((o.0, tt), o.1)
claim-HasOwners sid (finished p) m ss o = ((o.0, tt), o.1)

claims-get :
    (rs : List Reader) (n : ℕ) (r : Reader) (ss : List Session)
    → HasOwners (claims rs) ss
    → get_elem? rs n ≡ some r
    → HasOwners (claim r.sid r.place []) ss
claims-get [] n r ss o h = cc
claims-get (x ∷ rs) zero r ss o h =
    let same : x ≡ r = cc in
    subst (λ (y : Reader). HasOwners (claim y.sid y.place []) ss) same
      (claim-HasOwners x.sid x.place (claims rs) ss o).0
claims-get (x ∷ rs) (suc n) r ss o h =
    claims-get rs n r ss (claim-HasOwners x.sid x.place (claims rs) ss o).1 h

claims-set :
    (rs : List Reader) (n : ℕ) (r : Reader) (ss : List Session)
    → HasOwners (claims rs) ss
    → HasOwners (claim r.sid r.place []) ss
    → HasOwners (claims (set rs n r)) ss
claims-set [] n r ss o h = tt
claims-set (x ∷ rs) zero r ss o h =
    HasOwners-claim r.sid r.place (claims rs) ss h
      (claim-HasOwners x.sid x.place (claims rs) ss o).1
claims-set (x ∷ rs) (suc n) r ss o h =
    let split = claim-HasOwners x.sid x.place (claims rs) ss o in
    HasOwners-claim x.sid x.place _ ss split.0 (claims-set rs n r ss split.1 h)

module _ {D : Type 0} where
  -- What a step of a request keeps, and what it leaves of the request.
  abbrev Steps : GoString → World D → Place → World D → Type 0
  Steps sid w place u =
      IsSteady false u × HasOwners (claim sid place []) u.sessions × Grows w.sessions u.sessions

  look_found-Ends :
      (sid : GoString) (found : Option ℕ) (w : World D)
      → IsSteady true w
      → lookup w.table sid ≡ found
      → Ends (Steps sid w) (look_found found w)
  unfolding look_found unlock_provider
  look_found-Ends sid none w v h = (
    record { mutex = refl; idle = v.idle; owners = v.owners; distinct = v.distinct },
    tt,
    (λ m o. o),
  )
  look_found-Ends sid (some p) w v h =
      let owner = HasOwners-lookup w.table w.sessions sid p v.owners h in
      let s : Session = owner.0 in
      let i = AllIdle-get w.sessions p s v.idle owner.1 in
      let t : Session = record s { flashes = collect_garbage s.flashes; locked = false } in
      let e : run_flash_gc p w ≡ done tt (put p t w) =
        run_flash_gc_lem w p s (record { found = owner.1; unlocked = i.0; unread = i.1 }) in
      let k : IsSteady true (put p t w) =
        subst (λ o. Keeps true o) e (run_flash_gc-Keeps true p w v) in
      let grows : Grows w.sessions (put p t w).sessions =
        λ m o. HasOwners-set m w.sessions p s t owner.1 refl o in
      rw e (
        record { mutex = refl; idle = k.idle; owners = k.owners; distinct = k.distinct },
        grows ((sid, p) ∷ []) ((s, owner.1, owner.2), tt),
        grows,
      )

  -- The state is steady, and each request with a session has one with its id.
  abbrev pub IsSound : List Reader → World D → Type 0
  IsSound rs w = IsSteady false w × HasOwners (claims rs) w.sessions

module _ {D : Type 0} (ops : Database D) (expires : ℤ) where
  next_place-Ends :
      (sid : GoString) (place : Place) (w : World D)
      → IsSteady false w
      → HasOwners (claim sid place []) w.sessions
      → Ends (Steps sid w) (next_place ops expires sid place w)
  unfolding next_place unlock_provider
  next_place-Ends sid asking w v o = rw (lock_provider_free w v.mutex) (
      look_found-Ends sid (lookup w.table sid) (record w { locked = true })
        (record { mutex = refl; idle = v.idle; owners = v.owners; distinct = v.distinct }) refl)
  next_place-Ends sid making w v o =
      Ends-continue _ (Steps sid w) (new_session ops sid expires w) _
        (new_session-Ends ops sid expires w v) (λ p u x. (x.0, (x.1, tt), x.2))
  next_place-Ends sid (registering p) w v o = rw (lock_provider_free w v.mutex) (
    record {
      mutex = refl;
      idle = v.idle;
      owners = HasOwners-insert w.table w.sessions sid p o.0.0 v.owners o.0.1 o.0.2;
      distinct = insert-IsMap w.table sid p v.distinct;
    },
    o,
    (λ m q. q),
  )
  next_place-Ends sid (finished p) w v o = (v, o, (λ m q. q))

  interleave-Ends :
      (ns : List ℕ) (rs : List Reader) (w : World D)
      → IsSound rs w
      → Ends IsSound (interleave ops expires ns rs w)
  unfolding interleave advance
  interleave-Ends [] rs w v = v
  interleave-Ends (n ∷ ns) rs w v = elim (Option-cases (get_elem? rs n)) [
    | inl e ↦ rw (e, interleave) (interleave-Ends ns rs w v)
    | inr (r, e) ↦
        rw (e, interleave)
          (Ends-continue _ IsSound (advance ops expires r w) _
            (Ends-continue _ (λ r' u. IsSound (set rs n r') u)
              (next_place ops expires r.sid r.place w) _
              (next_place-Ends r.sid r.place w v.0 (claims-get rs n r w.sessions v.1 e))
              (λ place u x.
                (x.0, claims-set rs n (reader r.sid place) u.sessions (x.2 (claims rs) v.1) x.1)))
            (λ r' u x. interleave-Ends ns (set rs n r') u x))
  ]

  ending :
      (o : Outcome (World D) (List Reader))
      → Ends IsSound o
      → ((rs : List Reader) × (w : World D) × (o ≡ done rs w) × IsSound rs w)
        ⊎ ((w : World D) × (o ≡ panics w))
  ending (done rs w) e = inl (rs, w, refl, e)
  ending (panics w) e = inr (w, refl)
  ending (blocks w) e = absurd e

  -- Whatever the order of the steps of any number of requests, from a steady state where each request
  -- that has a session has one with its own id: no request waits for ever for another. All steps
  -- return, or one panics. If they return, the state is steady, the provider's mutex free, and again
  -- each request that has a session has one with its own id.
  pub interleave_returns :
      (ns : List ℕ) (rs : List Reader) (w : World D)
      → IsSound rs w
      → ((rs' : List Reader) × (w' : World D) × (interleave ops expires ns rs w ≡ done rs' w')
          × IsSound rs' w')
        ⊎ ((w' : World D) × (interleave ops expires ns rs w ≡ panics w'))
  interleave_returns ns rs w v = ending (interleave ops expires ns rs w) (interleave-Ends ns rs w v)
