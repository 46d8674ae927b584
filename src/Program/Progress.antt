-- ===== src/Program/Progress.antt =====
-- Which programs come to an end, and what holds then.
use go_sessions.Base.{
  ℕ, GoString, codes, str_eq, ◌≡◌, ◌⊎◌, refl, Bool, true, false, Option, none, some, List, [], ◌∷◌,
  if◌then◌else◌, subst, sym, ◌==◌, Option-cases, inl, inr,
}
use go_sessions.Base.Int.{ℤ}
use go_sessions.Base.Outcome.{Outcome, done, panics, blocks, Exec, continue, pure}
use go_sessions.Value.{Value, Heap}
use go_sessions.Database.{Database}
use go_sessions.World.{World, lookup, deref, store}
use go_sessions.Memstore.{visit, len}
use go_sessions.Cookie.{Request, get_cookie}
use go_sessions.Config.{Config, Generator}
use go_sessions.Session.{visit_all}
use go_sessions.Provider
use go_sessions.Provider.{new_provider}
use go_sessions.Provider.Everyone.{destroy_all_empties}
use go_sessions.Lifetime.{Clock}
use go_sessions.Sessions
use go_sessions.Program.{
  Call, starts, destroys, destroys_id, destroys_all, updates_expiration, uses_database, fires,
  waits, writes, sets, deletes, clears, gets, gets_all, visits, sets_flash, deletes_flash,
  clears_flashes, gets_flashes, gets_flash, peeks_flash, step, run, takes_flash, AllSafe,
}
use go_sessions.Program.Steady.{
  IsSteady, Ends-continue, Keeps, Ends-deref, store-Keeps, reading-Keeps,
}
use go_sessions.Program.SessionCalls.{
  set_with-Keeps, delete_value-Keeps, clear-Keeps, get-Keeps, get_all-Keeps, get_flashes-Keeps,
  set_flash-Keeps, delete_flash-Keeps, clear_flashes-Keeps,
}
use go_sessions.Program.ProviderCalls.{
  Keeps-continue, read-Keeps, init-Keeps, destroy-Keeps, destroy_all-Keeps, fire-Keeps,
  register_database-Keeps, update_expiration-Keeps,
}

module _ {D : Type 0} where
  request_sid-Keeps :
      (c : Config) (v : GoString) (w : World D)
      → IsSteady false w
      → Keeps false (Sessions.request_sid c v w)
  unfolding Sessions.request_sid
  request_sid-Keeps c v w steady = of (Sessions.decode_cookie_value c v)
    where
      of :
          (o : Option GoString)
          → Keeps false {A = GoString} (elim o [ none ↦ panics w | some sid ↦ done sid w ])
      of none = tt
      of (some sid) = steady

  -- A test between two calls that keep the state steady.
  if-Keeps :
      {A : Type 0} (b : Bool) (x y : Exec (World D) A) (w : World D)
      → Keeps false (x w)
      → Keeps false (y w)
      → Keeps false ((if b then x else y) w)
  if-Keeps true x y w in_then in_else = in_then
  if-Keeps false x y w in_then in_else = in_else

  visit_all-Keeps :
      {A : Type 0} (p : ℕ) (f : GoString → Value → A → A) (a : A) (w : World D)
      → IsSteady false w
      → Keeps false (visit_all p f a w)
  unfolding visit_all
  visit_all-Keeps p f a w v =
      Ends-continue _ (λ b u. IsSteady false u) (deref p w) _ (Ends-deref false p w)
        (λ s u x.
          reading-Keeps false (λ h. visit f h s.values.entries a) u
            (subst (λ t. IsSteady false t) (sym x.0) v))

module _ {D : Type 0} (ops : Database D) (c : Config) (unlimited : ℕ) where
  start_new-Keeps :
      (draw : ℕ) (w : World D) → IsSteady false w → Keeps false (Sessions.start_new ops c draw w)
  unfolding Sessions.start_new store
  start_new-Keeps draw w v = elim (Option-cases c.session_id_generator) [
    | inl e ↦ rw (e, Sessions.start_new) tt
    | inr (g, e) ↦
        rw (e, Sessions.start_new)
          (Keeps-continue false false (Provider.init ops (g draw) c.expires w) _
            (init-Keeps ops (g draw) c.expires w v)
            (λ p u x.
              Ends-continue _ (λ b t. IsSteady false t) (deref p u) _ (Ends-deref false p u)
                (λ s t y. rw y.0 (
                  store-Keeps false p u s (record s { is_new = len s.values == 0 }) x y.1 refl refl
                    refl))))
  ]

  start-Keeps :
      (draw : ℕ) (r : Request) (w : World D)
      → IsSteady false w
      → Keeps false (Sessions.start ops c unlimited draw r w)
  unfolding Sessions.start
  start-Keeps draw r w v =
      Keeps-continue false false (Sessions.request_sid c (get_cookie r c.cookie) w) _
        (request_sid-Keeps c _ w v)
        (λ sid u x.
          if-Keeps (str_eq sid (codes "")) _ _ u
            (Keeps-continue false false (Sessions.start_new ops c draw u) _
              (start_new-Keeps draw u x) (λ a t y. y))
            (Keeps-continue false false (Provider.read ops sid c.expires u) _
              (read-Keeps ops sid c.expires u x) (λ a t y. y)))

  destroy_request-Keeps :
      (r : Request) (w : World D) → IsSteady false w → Keeps false (Sessions.destroy ops c r w)
  unfolding Sessions.destroy Sessions.destroy_cookie
  destroy_request-Keeps r w v =
      Keeps-continue false false (Sessions.destroy_cookie ops c (get_cookie r c.cookie) w) _
        (Keeps-continue false false (Sessions.request_sid c (get_cookie r c.cookie) w) _
          (request_sid-Keeps c _ w v)
          (λ sid u x. if-Keeps (str_eq sid (codes "")) _ _ u x (destroy-Keeps ops sid u x)))
        (λ a u x. x)

  update_request-Keeps :
      (r : Request) (expires : ℤ) (w : World D)
      → IsSteady false w
      → Keeps false (Sessions.update_expiration c unlimited r expires w)
  unfolding Sessions.update_expiration
  update_request-Keeps r expires w v =
      Keeps-continue false false (Sessions.request_sid c (get_cookie r c.cookie) w) _
        (request_sid-Keeps c _ w v)
        (λ sid u x. if-Keeps (str_eq sid (codes "")) _ _ u x (
          Keeps-continue false false (Provider.update_expiration sid expires u) _
            (update_expiration-Keeps sid expires u x) (λ a t y. y)))

  ending-Keeps :
      {A : Type 0} (o : Outcome (World D) A)
      → Keeps false o
      → Keeps false (continue o (λ a. pure tt))
  ending-Keeps o e = Keeps-continue false false o _ e (λ a w v. v)

  step-Keeps :
      (call : Call D) (w : World D)
      → takes_flash call ≡ false
      → IsSteady false w
      → Keeps false (step ops c unlimited call w)
  unfolding step Sessions.destroy_by_id Sessions.destroy_all Sessions.use_database
  step-Keeps (starts draw r) w h v = ending-Keeps _ (start-Keeps draw r w v)
  step-Keeps (destroys r) w h v = ending-Keeps _ (destroy_request-Keeps r w v)
  step-Keeps (destroys_id sid) w h v = destroy-Keeps ops sid w v
  step-Keeps destroys_all w h v = destroy_all-Keeps ops w v
  step-Keeps (updates_expiration r expires) w h v =
      ending-Keeps _ (update_request-Keeps r expires w v)
  step-Keeps (uses_database db) w h v = register_database-Keeps db w v
  step-Keeps (fires t) w h v = fire-Keeps ops t w v
  step-Keeps (waits n) w h v = record {
    mutex = v.mutex;
    idle = v.idle;
    owners = v.owners;
    distinct = v.distinct;
  }
  step-Keeps (writes heap) w h v = record {
    mutex = v.mutex;
    idle = v.idle;
    owners = v.owners;
    distinct = v.distinct;
  }
  step-Keeps (sets p key val i) w h v = set_with-Keeps ops false p key val i w v
  step-Keeps (deletes p key) w h v = ending-Keeps _ (delete_value-Keeps ops false p key w v)
  step-Keeps (clears p) w h v = clear-Keeps ops false p w v
  step-Keeps (gets p key) w h v = ending-Keeps _ (get-Keeps false p w v key)
  step-Keeps (gets_all p) w h v = ending-Keeps _ (get_all-Keeps false p w v)
  step-Keeps (visits p) w h v = ending-Keeps _ (visit_all-Keeps p _ 0 w v)
  step-Keeps (sets_flash p key val) w h v = set_flash-Keeps false p w v key val
  step-Keeps (deletes_flash p key) w h v = delete_flash-Keeps false p w v key
  step-Keeps (clears_flashes p) w h v = clear_flashes-Keeps false p w v
  step-Keeps (gets_flashes p) w h v = ending-Keeps _ (get_flashes-Keeps false p w v)
  step-Keeps (gets_flash p key) w h v = cc
  step-Keeps (peeks_flash p key) w h v = cc

  run-Keeps :
      (calls : List (Call D)) (w : World D)
      → AllSafe calls
      → IsSteady false w
      → Keeps false (run ops c unlimited calls w)
  unfolding run
  run-Keeps [] w h v = v
  run-Keeps (call ∷ calls) w h v =
      Keeps-continue false false (step ops c unlimited call w) _ (step-Keeps call w h.0 v)
        (λ a u x. run-Keeps calls u h.1 x)

  outcome :
      (o : Outcome (World D) (Unit {0}))
      → Keeps false o
      → ((w' : World D) × (o ≡ done tt w') × IsSteady false w') ⊎ ((w' : World D) × (o ≡ panics w'))
  outcome (done u w') e = inl (w', refl, e)
  outcome (panics w') e = inr (w', refl)
  outcome (blocks w') e = absurd e

  -- A program that does not take single flash messages never waits for ever: from a steady state,
  -- any calls in any order all return and leave the state steady, or one of them panics.
  pub run_returns :
      (calls : List (Call D)) (w : World D)
      → AllSafe calls
      → IsSteady false w
      → ((w' : World D) × (run ops c unlimited calls w ≡ done tt w') × IsSteady false w')
        ⊎ ((w' : World D) × (run ops c unlimited calls w ≡ panics w'))
  run_returns calls w safe v = outcome (run ops c unlimited calls w) (run-Keeps calls w safe v)

module _ {D : Type 0} (ops : Database D) (uuid_v4 : Generator) (config : Config) (unlimited : ℕ)
    (clock : Clock GoString) (heap : Heap) where
  -- What `New` returns.
  abbrev pub manager : Config × World D
  manager = Sessions.new uuid_v4 config clock heap

  new-IsSteady : IsSteady false manager.1
  unfolding Sessions.new new_provider
  new-IsSteady = record { mutex = refl; idle = tt; owners = tt; distinct = tt }

  -- After any calls on a manager that `New` made, none of which takes a single flash message, if
  -- they all returned, `DestroyAll` returns and no id is found any more.
  pub destroy_all_reachable :
      (calls : List (Call D)) (w : World D)
      → AllSafe calls
      → run ops manager.0 unlimited calls manager.1 ≡ done tt w
      → (w' : World D) × (Provider.destroy_all ops w ≡ done tt w')
        × ((j : GoString) → lookup w'.table j ≡ none)
        × (w'.locked ≡ false)
  destroy_all_reachable calls w safe e =
      let v : IsSteady false w =
        subst (λ o. Keeps false o) e
          (run-Keeps ops manager.0 unlimited calls manager.1 safe new-IsSteady) in
      let gone = destroy_all_empties ops w v.mutex v.owners in (gone.0, gone.1, gone.2, gone.3)
