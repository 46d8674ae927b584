-- ===== src/Sessions/Fasthttp/Agreement.antt =====
-- The two halves of sessions.go do the same to the sessions.
use go_sessions.Base.{ℕ, codes, str_eq, ◌≡◌, refl, Bool, true, false, if◌then◌else◌}
use go_sessions.Base.Int.{ℤ}
use go_sessions.Base.Outcome.{Outcome, done, panics, blocks, Exec, continue}
use go_sessions.Database.{Database}
use go_sessions.World.{World}
use go_sessions.Provider
use go_sessions.Cookie.{Cookie, Request}
use go_sessions.Cookie
use go_sessions.Config.{Config}
use go_sessions.Sessions
use go_sessions.Sessions.Fasthttp.{Server, get_cookie, start, destroy, update_expiration}

-- The ending of a call without what it does to the response.
abbrev pub ending : {S B C : Type 0} → (B → C) → Outcome S B → Outcome S C
ending f (done b s) = done (f b) s
ending f (panics s) = panics s
ending f (blocks s) = blocks s

-- Two calls that begin alike and go on to the same ending.
ending-continue :
    {S A B B' C : Type 0} (o : Outcome S A) (k : A → Exec S B) (k' : A → Exec S B') (f : B → C)
    (f' : B' → C)
    → ((a : A) (s : S) → ending f (k a s) ≡ ending f' (k' a s))
    → ending f (continue o k) ≡ ending f' (continue o k')
ending-continue (done a s) k k' f f' same = same a s
ending-continue (panics s) k k' f f' same = refl
ending-continue (blocks s) k k' f f' same = refl

ending-if :
    {S B B' C : Type 0} (b : Bool) (x y : Exec S B) (x' y' : Exec S B') (f : B → C) (f' : B' → C)
    (s : S)
    → ending f (x s) ≡ ending f' (x' s)
    → ending f (y s) ≡ ending f' (y' s)
    → ending f ((if b then x else y) s) ≡ ending f' ((if b then x' else y') s)
ending-if true x y x' y' f f' s in_then in_else = in_then
ending-if false x y x' y' f f' s in_then in_else = in_else

module _ {D Ctx : Type 0} (server : Server Ctx) (ops : Database D) (c : Config) where
  start_agrees :
      (w : World D) (unlimited draw : ℕ) (r : Request) (ctx : Ctx)
      → Cookie.get_cookie r c.cookie ≡ get_cookie server ctx c.cookie
      → ending (λ x. x.0) (start server ops c unlimited draw ctx w)
        ≡ ending (λ x. x.0) (Sessions.start ops c unlimited draw r w)
  unfolding start Sessions.start
  start_agrees w unlimited draw r ctx same = rw same (
      ending-continue (Sessions.request_sid c (get_cookie server ctx c.cookie) w) _ _ _ _ (λ sid s.
        ending-if (str_eq sid (codes "")) _ _ _ _ _ _ s
          (ending-continue (Sessions.start_new ops c draw s) _ _ _ _ (λ a t. refl))
          (ending-continue (Provider.read ops sid c.expires s) _ _ _ _ (λ a t. refl))))

  destroy_agrees :
      (w : World D) (r : Request) (ctx : Ctx)
      → Cookie.get_cookie r c.cookie ≡ get_cookie server ctx c.cookie
      → ending (λ x. tt) (destroy server ops c ctx w)
        ≡ ending (λ x. tt) (Sessions.destroy ops c r w)
  unfolding destroy Sessions.destroy
  destroy_agrees w r ctx same = rw same (
      ending-continue (Sessions.destroy_cookie ops c (get_cookie server ctx c.cookie) w) _ _ _ _
        (λ a s. refl))

  update_expiration_agrees :
      (w : World D) (unlimited : ℕ) (expires : ℤ) (r : Request) (ctx : Ctx)
      → Cookie.get_cookie r c.cookie ≡ get_cookie server ctx c.cookie
      → ending (λ x. tt) (update_expiration server c unlimited expires ctx w)
        ≡ ending (λ x. tt) (Sessions.update_expiration c unlimited r expires w)
  unfolding update_expiration Sessions.update_expiration
  update_expiration_agrees w unlimited expires r ctx same = rw same (
      ending-continue (Sessions.request_sid c (get_cookie server ctx c.cookie) w) _ _ _ _ (λ sid s.
        ending-if (str_eq sid (codes "")) _ _ _ _ _ _ s refl
          (ending-continue (Provider.update_expiration sid expires s) _ _ _ _ (λ a t. refl))))

  -- For two requests with the same session cookie, one of net/http and one of fasthttp, each of
  -- `StartFasthttp`, `DestroyFasthttp` and `UpdateExpirationFasthttp` ends the same way as `Start`,
  -- `Destroy` and `UpdateExpiration`, in the same state, and `StartFasthttp` with the same session
  -- as `Start`.
  pub handlers_agree :
      (w : World D) (unlimited draw : ℕ) (expires : ℤ) (r : Request) (ctx : Ctx)
      → Cookie.get_cookie r c.cookie ≡ get_cookie server ctx c.cookie
      → (ending (λ x. x.0) (start server ops c unlimited draw ctx w)
          ≡ ending (λ x. x.0) (Sessions.start ops c unlimited draw r w))
        × (ending (λ x. tt) (destroy server ops c ctx w)
            ≡ ending (λ x. tt) (Sessions.destroy ops c r w))
        × (ending (λ x. tt) (update_expiration server c unlimited expires ctx w)
            ≡ ending (λ x. tt) (Sessions.update_expiration c unlimited r expires w))
  handlers_agree w unlimited draw expires r ctx same = (
    start_agrees w unlimited draw r ctx same,
    destroy_agrees w r ctx same,
    update_expiration_agrees w unlimited expires r ctx same,
  )
