-- ===== src/Sessions/Fasthttp.antt =====
-- The half of sessions.go and cookie.go that serves fasthttp. That library is a parameter: a request
-- context is a value of type `Ctx`. A call gives its result with the context that it leaves.
pub mod Agreement
use go_sessions.Base.{
  ℕ, ◌+◌, ◌-◌, ◌*◌, GoString, codes, str_eq, Bool, true, ◌&&◌, Option, none, some, [],
  if◌then◌else◌,
}
use go_sessions.Base.Int.{ℤ}
use go_sessions.Base.Outcome.{Exec, ◌>>=◌, ◌>>◌, pure, gets}
use go_sessions.Database.{Database}
use go_sessions.World.{World}
use go_sessions.Provider
use go_sessions.Cookie.{Cookie, sent_cookie, cookie_domain}
use go_sessions.Config.{Config}
use go_sessions.Sessions.{
  encode_cookie_value, cookie_expires, request_sid, start_new, destroy_cookie,
}

-- The calls of fasthttp. `request_cookie` is `none` where it returns nil; a `fasthttp.Cookie` is
-- given the same fields as one of net/http, less its `MaxAge`.
pub record Server (Ctx : Type 0) : Type 0 where
  pub host : Ctx → GoString
  pub is_tls : Ctx → Bool
  pub request_cookie : GoString → Ctx → Option GoString
  pub set_cookie : Cookie → Ctx → Ctx
  pub delete_response_cookie : GoString → Ctx → Ctx
  pub delete_request_cookie : GoString → Ctx → Ctx

module _ {Ctx : Type 0} (server : Server Ctx) where
  unfoldable pub get_cookie : Ctx → GoString → GoString
  get_cookie ctx name = elim (server.request_cookie name ctx) [ none ↦ [] | some v ↦ v ]

  -- It expires a minute ago.
  unfoldable pub remove_cookie : ℕ → GoString → Ctx → Ctx
  remove_cookie now name ctx = server.delete_request_cookie name (
      server.set_cookie
        (record (sent_cookie name []) {
          path = codes "/";
          http_only = true;
          expires = now - 60 * 1000000000;
        })
        (server.delete_response_cookie name ctx))

  unfoldable pub update_cookie : Config → ℕ → ℕ → ℕ → GoString → ℤ → Ctx → Ctx
  unfolding encode_cookie_value cookie_expires cookie_domain
  update_cookie c now tick unlimited sid expires ctx =
      server.set_cookie
        (record (sent_cookie c.cookie (encode_cookie_value c sid)) {
          path = codes "/";
          domain = cookie_domain c.disable_subdomain_persistence (server.host ctx);
          expires = cookie_expires (now + tick) unlimited expires;
          secure = server.is_tls ctx && c.cookie_secure_tls;
          http_only = true;
        })
        ctx

  module _ {D : Type 0} (ops : Database D) (c : Config) where
    unfoldable pub start : ℕ → ℕ → Ctx → Exec (World D) (ℕ × Ctx)
    unfolding start_new request_sid get_cookie
    start unlimited draw ctx = do
      sid ← request_sid c (get_cookie ctx c.cookie)
      if str_eq sid (codes "")
          then (do
            started ← start_new ops c draw
            clock ← gets (λ w. w.clock)
            pure
                (started.1, update_cookie c clock.now clock.tick unlimited started.0 c.expires ctx))
          else (do p ← Provider.read ops sid c.expires; pure (p, ctx))

    unfoldable pub destroy : Ctx → Exec (World D) Ctx
    unfolding destroy_cookie get_cookie
    destroy ctx = do
      destroy_cookie ops c (get_cookie ctx c.cookie)
      now ← gets (λ w. w.clock.now)
      pure (remove_cookie now c.cookie ctx)

  module _ {D : Type 0} (c : Config) where
    unfoldable pub update_expiration : ℕ → ℤ → Ctx → Exec (World D) Ctx
    unfolding request_sid get_cookie
    update_expiration unlimited expires ctx = do
      sid ← request_sid c (get_cookie ctx c.cookie)
      if str_eq sid (codes "") then pure ctx else do
        updated ← Provider.update_expiration sid expires
        clock ← gets (λ w. w.clock)
        pure (
            if updated then update_cookie c clock.now clock.tick unlimited sid expires ctx else ctx)

    unfoldable pub shift_expiration : ℕ → Ctx → Exec (World D) Ctx
    unfolding update_expiration
    shift_expiration unlimited ctx = update_expiration unlimited c.expires ctx
