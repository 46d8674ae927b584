-- ===== src/Sessions.antt =====
-- sessions.go: the manager, a configuration over the provider. A call gives its result with the
-- cookies that it adds to the response. `unlimited` is `CookieExpireUnlimited`, which cookie.go sets
-- once, when the program starts, and `draw` numbers the calls of the id generator.
pub mod Fasthttp
pub mod Roundtrip
pub mod Default
use go_sessions.Base.{
  ℕ, ◌+◌, GoString, codes, str_eq, ◌==◌, Bool, true, false, ◌&&◌, not, Option, none, some, List, [],
  ◌∷◌, if◌then◌else◌,
}
use go_sessions.Base.Int.{ℤ, pos, pos_part, leb_ℤ, eqb_ℤ}
use go_sessions.Base.Outcome.{
  Outcome, done, panics, blocks, Exec, continue, ◌>>=◌, ◌>>◌, pure, gets,
}
use go_sessions.Memstore.{len}
use go_sessions.Database.{Database}
use go_sessions.World.{Session, World, deref, store}
use go_sessions.Provider
use go_sessions.Provider.{new_provider}
use go_sessions.Value.{Heap}
use go_sessions.Lifetime.{Clock}
use go_sessions.Cookie.{
  Cookie, sent_cookie, Request, get_cookie, remove_cookie, cookie_domain, seconds_until,
}
use go_sessions.Config.{Config, Generator, validate, Decoded, failed, left_nil, decoded}

-- `New`: the configuration of the manager, and its provider.
unfoldable pub new : {D : Type 0} → Generator → Config → Clock GoString → Heap → Config × World D
unfolding validate new_provider
new uuid_v4 c clock heap = (validate uuid_v4 c, new_provider clock heap)

-- `none` is the panic at a nil pointer.
unfoldable pub decode_cookie_value : Config → GoString → Option GoString
decode_cookie_value c v = if str_eq v (codes "") then some (codes "") else elim c.decode [
  | none ↦ some v
  | some decode ↦ elim (decode c.cookie v) [
    | failed ↦ some (codes "")
    | left_nil ↦ none
    | decoded sid ↦ some sid
  ]
]

unfoldable pub encode_cookie_value : Config → GoString → GoString
encode_cookie_value c v = elim c.encode [
  | none ↦ v
  | some encode ↦ elim (encode c.cookie v) [ none ↦ codes "" | some v' ↦ v' ]
]

-- `cookie.Expires`; the zero time for a negative duration.
unfoldable pub cookie_expires : ℕ → ℕ → ℤ → ℕ
cookie_expires now unlimited expires =
    if leb_ℤ (pos 0) expires
    then (if eqb_ℤ expires (pos 0) then unlimited else now + pos_part expires)
    else 0

-- `Expires` and `MaxAge` are from two readings of the clock, both after the one at `now`.
unfoldable pub update_cookie : Config → ℕ → ℕ → ℕ → Request → GoString → ℤ → Cookie
unfolding cookie_expires seconds_until
update_cookie c now tick unlimited r sid expires = record {
  name = c.cookie;
  value = encode_cookie_value c sid;
  path = codes "/";
  domain = cookie_domain c.disable_subdomain_persistence r.host;
  expires = cookie_expires (now + tick) unlimited expires;
  max_age =
      if leb_ℤ (pos 0) expires
      then seconds_until (now + tick + tick) (cookie_expires (now + tick) unlimited expires)
      else pos 0;
  secure = r.tls && c.cookie_secure_tls;
  http_only = true;
}

-- The id in a request's cookie; empty if there is none.
unfoldable pub request_sid : {D : Type 0} → Config → GoString → Exec (World D) GoString
unfolding decode_cookie_value
request_sid c v w = elim (decode_cookie_value c v) [ none ↦ panics w | some sid ↦ done sid w ]

module _ {D : Type 0} (ops : Database D) (c : Config) where
  -- A new session under a new id: the branch of `Start` for a request with no session cookie.
  unfoldable pub start_new : ℕ → Exec (World D) (GoString × ℕ)
  start_new draw w = elim c.session_id_generator [
    | none ↦ panics w
    | some generate ↦ continue (Provider.init ops (generate draw) c.expires w) (λ p. do
      sess ← deref p
      store p (record sess { is_new = len sess.values == 0 })
      pure (generate draw, p))
  ]

  unfoldable pub start : ℕ → ℕ → Request → Exec (World D) (ℕ × List Cookie)
  unfolding start_new
  start unlimited draw r = do
    sid ← request_sid c (get_cookie r c.cookie)
    if str_eq sid (codes "")
        then (do
          started ← start_new draw
          clock ← gets (λ w. w.clock)
          pure (
            started.1,
            update_cookie c clock.now clock.tick unlimited r started.0 c.expires ∷ [],
          ))
        else (do p ← Provider.read ops sid c.expires; pure (p, []))

  unfoldable pub destroy_cookie : GoString → Exec (World D) (Unit {0})
  destroy_cookie v = do
    sid ← request_sid c v
    if str_eq sid (codes "") then pure tt else Provider.destroy ops sid

  unfoldable pub destroy : Request → Exec (World D) (List Cookie)
  unfolding destroy_cookie
  destroy r = do destroy_cookie (get_cookie r c.cookie); pure (remove_cookie r c.cookie)

  unfoldable pub destroy_by_id : GoString → Exec (World D) (Unit {0})
  destroy_by_id sid = Provider.destroy ops sid

  unfoldable pub destroy_all : Exec (World D) (Unit {0})
  destroy_all = Provider.destroy_all ops

module _ {D : Type 0} (c : Config) where
  unfoldable pub update_expiration : ℕ → Request → ℤ → Exec (World D) (List Cookie)
  update_expiration unlimited r expires = do
    sid ← request_sid c (get_cookie r c.cookie)
    if str_eq sid (codes "") then pure [] else do
      updated ← Provider.update_expiration sid expires
      clock ← gets (λ w. w.clock)
      pure (
          if updated then update_cookie c clock.now clock.tick unlimited r sid expires ∷ [] else [])

  unfoldable pub shift_expiration : ℕ → Request → Exec (World D) (List Cookie)
  unfolding update_expiration
  shift_expiration unlimited r = update_expiration unlimited r c.expires

unfoldable pub use_database : {D : Type 0} → D → Exec (World D) (Unit {0})
use_database db = Provider.register_database db
