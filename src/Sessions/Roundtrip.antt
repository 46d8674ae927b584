-- ===== src/Sessions/Roundtrip.antt =====
-- A client that comes back with the cookie that `Start` gave it: sessions.go over provider.go.
use go_sessions.Base.{
  ◌≤◌, ◌-◌, ℕ, suc, ◌+◌, ◌/◌, GoString, str_eq, str_eq_ne, str_eq_refl, ◌≡◌, ◌≢◌, refl, true, false,
  Option, none, some, [], ◌∷◌, length, get_elem?, get_elem?-append_last, arith,
}
use go_sessions.Base.Int.{pos, leb_ℤ}
use go_sessions.Base.Outcome.{done}
use go_sessions.Database.{Database}
use go_sessions.Session.{collect_garbage}
use go_sessions.World.{Session, World, lookup, put, store}
use go_sessions.Memstore.{len, nil_store}
use go_sessions.World.Laws.{lookup-insert, deref_lem, get-put, IsFree}
use go_sessions.Provider.Table.{fresh_session, initialised, init_lem}
use go_sessions.Provider.Requests.{requested, read_existing}
use go_sessions.Cookie.{seconds_until, Cookie, Request, get_cookie}
use go_sessions.Config.{Config, Generator, Decoded, decoded}
use go_sessions.Sessions.{
  decode_cookie_value, encode_cookie_value, request_sid, cookie_expires, update_cookie, start_new,
  start,
}

-- What `Encode` and `Decode` are meant to be, at one id: both nil, or a pair that gives the id
-- back.
pub data IsCodec (c : Config) (sid : GoString) : Type 0 where
  plain : c.encode ≡ none → c.decode ≡ none → IsCodec c sid
  secure :
      (encode : GoString → GoString → Option GoString)
      → (decode : GoString → GoString → Decoded) → (v : GoString) → c.encode ≡ some encode
      → c.decode ≡ some decode
      → encode c.cookie sid ≡ some v
      → v ≢ []
      → decode c.cookie v ≡ decoded sid
      → IsCodec c sid

encode_nil : (c : Config) (sid : GoString) → c.encode ≡ none → encode_cookie_value c sid ≡ sid
unfolding encode_cookie_value
encode_nil c sid h = rw (h, encode_cookie_value)

decode_text :
    (c : Config) (v sid : GoString)
    → v ≢ []
    → (decode : GoString → GoString → Decoded) → c.decode ≡ some decode
    → decode c.cookie v ≡ decoded sid
    → decode_cookie_value c v ≡ some sid
unfolding decode_cookie_value
decode_text c v sid h decode decodes back =
    rw (str_eq_ne v [] h, decode_cookie_value) (rw decodes (rw back))

pub decode_nil :
    (c : Config) (v : GoString) → v ≢ [] → c.decode ≡ none → decode_cookie_value c v ≡ some v
unfolding decode_cookie_value
decode_nil c v h no_decode = rw (str_eq_ne v [] h, decode_cookie_value) (rw no_decode)

encode_some :
    (c : Config) (sid v : GoString) (encode : GoString → GoString → Option GoString)
    → c.encode ≡ some encode
    → encode c.cookie sid ≡ some v
    → encode_cookie_value c sid ≡ v
unfolding encode_cookie_value
encode_some c sid v encode encodes there = rw (encodes, encode_cookie_value) (rw there)

decode-encode :
    (c : Config) (sid : GoString)
    → IsCodec c sid
    → sid ≢ []
    → decode_cookie_value c (encode_cookie_value c sid) ≡ some sid
decode-encode c sid (plain no_encode no_decode) h =
    rw (encode_nil c sid no_encode) (decode_nil c sid h no_decode)
decode-encode c sid (secure encode decode v encodes decodes there nonempty back) h =
    rw (encode_some c sid v encode encodes there) (decode_text c v sid nonempty decode decodes back)

module _ {D : Type 0} where
  pub request_sid_lem :
      (c : Config) (v sid : GoString) (w : World D)
      → decode_cookie_value c v ≡ some sid
      → request_sid c v w ≡ done sid w
  unfolding request_sid
  request_sid_lem c v sid w h = ground arith

  pub no_cookie : (c : Config) (w : World D) → request_sid c [] w ≡ done [] w
  unfolding request_sid decode_cookie_value str_eq
  no_cookie c w = refl

module _ {D : Type 0} (ops : Database D) (c : Config) where
  -- The session that `Start` hands out, and the state then.
  abbrev handed : World D → GoString → ℕ → Session
  handed w sid n = record (fresh_session ops w sid n) { is_new = true }

  abbrev started : World D → GoString → ℕ → World D
  started w sid n = put (length w.sessions) (handed w sid n) (initialised ops w sid n)

  start_new_lem :
      (w : World D) (g : Generator) (draw n : ℕ)
      → w.locked ≡ false
      → w.databases ≡ []
      → c.session_id_generator ≡ some g
      → c.expires ≡ pos (suc n)
      → start_new ops c draw w ≡ done (g draw, length w.sessions) (started w (g draw) n)
  unfolding start_new store len
  start_new_lem w g draw n free no_databases generator expires =
      rw (generator, start_new)
        (rw (expires, start_new)
          (rw (init_lem ops w (g draw) n free no_databases) (
            rw (
              deref_lem (initialised ops w (g draw) n) (length w.sessions)
                  (fresh_session ops w (g draw) n) (get_elem?-append_last w.sessions _),
              start_new,
            ))))

  start_lem :
      (w : World D) (g : Generator) (unlimited draw n : ℕ) (r : Request)
      → w.locked ≡ false
      → w.databases ≡ []
      → c.session_id_generator ≡ some g
      → c.expires ≡ pos (suc n)
      → get_cookie r c.cookie ≡ []
      → start ops c unlimited draw r w
        ≡ done
            (
              length w.sessions,
              update_cookie c w.clock.now w.clock.tick unlimited r (g draw) c.expires ∷ [],
            )
            (started w (g draw) n)
  unfolding start str_eq
  start_lem w g unlimited draw n r free no_databases generator expires fresh =
      rw (fresh, start)
        (rw (no_cookie c w) (rw (start_new_lem w g draw n free no_databases generator expires)))

  returned_lem :
      (w : World D) (unlimited draw : ℕ) (r : Request) (sid : GoString) (p : ℕ) (s : Session)
      → get_cookie r c.cookie ≡ encode_cookie_value c sid
      → IsCodec c sid
      → sid ≢ []
      → w.locked ≡ false
      → lookup w.table sid ≡ some p
      → IsFree w p s
      → start ops c unlimited draw r w ≡ done (p, []) (requested ops p s w)
  unfolding start
  returned_lem w unlimited draw r sid p s sent codec nonempty free in_table f =
      rw (sent, start)
        (rw
          (request_sid_lem c (encode_cookie_value c sid) sid w (decode-encode c sid codec nonempty))
          (rw (str_eq_ne sid [] nonempty)
            (rw (read_existing ops w sid c.expires p s free in_table f))))

  -- `Start` for a request that has no session cookie, with a positive lifetime, no database and the
  -- provider's mutex free, hands out a new and empty session under the generated id, with one
  -- cookie of the configured name. A later request that sends that cookie's value back, under a
  -- codec that gives the id back, which is not empty, gets the same session and no cookie.
  pub start_returns :
      (w : World D) (g : Generator) (unlimited draw n : ℕ) (r : Request) (later : ℕ) (r' : Request)
      → w.locked ≡ false
      → w.databases ≡ []
      → c.session_id_generator ≡ some g
      → c.expires ≡ pos (suc n)
      → IsCodec c (g draw)
      → g draw ≢ []
      → get_cookie r c.cookie ≡ []
      → get_cookie r' c.cookie
        ≡ (update_cookie c w.clock.now w.clock.tick unlimited r (g draw) c.expires).value
      → (w1 w2 : World D) × (p : ℕ) × (cookie : Cookie) × (s1 s2 : Session) × (start ops c unlimited
            draw r w
          ≡ done (p, cookie ∷ []) w1)
        × (cookie.name ≡ c.cookie)
        × (get_elem? w1.sessions p ≡ some s1)
        × (s1.sid ≡ g draw)
        × (s1.is_new ≡ true)
        × (s1.values ≡ nil_store)
        × (start ops c unlimited later r' w1 ≡ done (p, []) w2)
        × (get_elem? w2.sessions p ≡ some s2)
        × (s2.sid ≡ g draw)
  unfolding update_cookie collect_garbage
  start_returns w g unlimited draw n r later r' free no_databases generator expires codec nonempty
        fresh sent =
      let p = length w.sessions in
      let s : Session = handed w (g draw) n in
      let w1 : World D = started w (g draw) n in
      let there =
        get-put (initialised ops w (g draw) n) p (fresh_session ops w (g draw) n) s
          (get_elem?-append_last w.sessions _) in
      let in_table : lookup w1.table (g draw) ≡ some p =
        rw (lookup-insert w.table (g draw) p (g draw), str_eq_refl (g draw)) in
      (
        w1,
        requested ops p s w1,
        p,
        update_cookie c w.clock.now w.clock.tick unlimited r (g draw) c.expires,
        s,
        s,
        start_lem w g unlimited draw n r free no_databases generator expires fresh,
        refl,
        there,
        refl,
        refl,
        refl,
        returned_lem w1 unlimited later r' (g draw) p s sent codec nonempty refl in_table
            (record { found = there; unlocked = refl; unread = refl }),
        get-put w1 p s s there,
        refl,
      )

  expires_lem : (now unlimited n : ℕ) → cookie_expires now unlimited (pos (suc n)) ≡ now + suc n
  unfolding cookie_expires
  expires_lem now unlimited n = ground arith

  max_age_lem :
      (now tick n : ℕ)
      → tick ≤ suc n
      → seconds_until (now + tick + tick) (now + tick + suc n) ≡ pos ((suc n - tick) / 1000000000)
  unfolding seconds_until
  max_age_lem now tick n h = ground arith

  is_positive : (n : ℕ) → leb_ℤ (pos 0) (pos (suc n)) ≡ true
  is_positive n = ground arith

  pub cookie_ends :
      (w : World D) (g : Generator) (unlimited draw n : ℕ) (r : Request)
      → w.locked ≡ false
      → w.databases ≡ []
      → c.session_id_generator ≡ some g
      → c.expires ≡ pos (suc n)
      → w.clock.tick ≤ suc n
      → get_cookie r c.cookie ≡ []
      → (w1 : World D) × (p : ℕ) × (cookie : Cookie) × (s : Session) × (start ops c unlimited draw r
            w
          ≡ done (p, cookie ∷ []) w1)
        × (get_elem? w1.sessions p ≡ some s)
        × (cookie.expires ≡ s.lifetime.time + w.clock.tick)
        × (cookie.max_age ≡ pos ((suc n - w.clock.tick) / 1000000000))
  unfolding update_cookie
  cookie_ends w g unlimited draw n r free no_databases generator expires short fresh = (
    started w (g draw) n,
    length w.sessions,
    update_cookie c w.clock.now w.clock.tick unlimited r (g draw) c.expires,
    handed w (g draw) n,
    start_lem w g unlimited draw n r free no_databases generator expires fresh,
    get-put (initialised ops w (g draw) n) (length w.sessions) (fresh_session ops w (g draw) n)
        (handed w (g draw) n) (get_elem?-append_last w.sessions _),
    rw expires (rw (expires_lem (w.clock.now + w.clock.tick) unlimited n) (omega arith)),
    rw expires (
        rw (expires_lem (w.clock.now + w.clock.tick) unlimited n)
          (rw (is_positive n) (max_age_lem w.clock.now w.clock.tick n short))),
  )
