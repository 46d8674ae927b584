-- ===== src/Applications/Overview/Access.antt =====
-- The server of _examples/overview/main.go answers what its account says.
use go_sessions.Base.{
  ℕ, suc, GoString, str_eq, str_eq_refl, str_eq_sound, ◌≡◌, refl, ◌∙◌, ap, Bool, true, false, ◌&&◌,
  not, Option, none, some, List, [], ◌∷◌, map, if◌then◌else◌, Bool-cases, inl, inr,
}
use go_sessions.Base.Outcome.{done, ◌>>=◌, ◌>>◌, pure}
use go_sessions.Value.{Value, nil, bool, Heap}
use go_sessions.Memstore.{Entry, value, overwrite}
use go_sessions.Lifetime.{Clock}
use go_sessions.Database.{Database}
use go_sessions.World.{World, lookup}
use go_sessions.Provider.{new_provider}
use go_sessions.Cookie.{Request, get_cookie, Cookie}
use go_sessions.Config.{Config, Generator, validate}
use go_sessions.Memstore.Lookup.{saved}
use go_sessions.Session.{set, set_with, get}
use go_sessions.Session.Values.{get_boolean, boolean_of}
use go_sessions.Sessions
use go_sessions.Sessions.{start}
use go_sessions.Clients.{
  Returns, Returns-continue, Returns-weaken, Returns-returned, stored, IsServing, new-IsServing,
}
use go_sessions.Clients.Values.{set-Returns, get-Returns, fetched}
use go_sessions.Clients.Start.{Identifies, bare-Identifies, IsStarted, client, start-Returns}
use go_sessions.Applications.{Response, visible, written}
use go_sessions.Applications.Overview.{
  overview_config, cookie_name_for_session_id, forbidden, authenticated, cake, Page, secret_page,
  login_page, logout_page, secret, login, logout, serve, serve_all,
}
use go_sessions.Applications.Overview.Grants.{Grants, opened, marked, reply, after, replies}

abbrev flag : Option Bool → Option Entry
flag none = none
flag (some b) = some (record { key = authenticated; value_raw = bool b; immutable = false })

abbrev seen : Option Bool → Value
seen none = nil
seen (some b) = bool b

fetched-flag : (h : Heap) (o : Option Bool) → fetched h (flag o) ≡ some (seen o, h)
unfolding value
fetched-flag h none = refl
fetched-flag h (some b) = refl

module _ {D : Type 0} where
  -- The sessions hold what the account says.
  pub record Accounts (w : World D) (a : Grants) : Type 0 where
    pub serving : IsServing w
    pub flags : (j : GoString) → stored w j authenticated ≡ flag (a j)

  started-Accounts :
      (w : World D) (sid : GoString) (fresh : Bool) (p : ℕ) (w' : World D) (a : Grants)
      → Accounts w a
      → IsStarted w sid fresh p w'
      → Accounts w' (opened fresh sid a)
  started-Accounts w sid fresh p w' a k x = record {
    serving = x.serving;
    flags = λ j.
        x.contents j authenticated
        ∙ elim (Bool-cases (fresh && str_eq sid j)) [ inl e ↦ rw e | inr e ↦ rw e (k.flags j) ];
  }

saved-flag :
    (o : Option Bool) (b : Bool)
    → some (saved (flag o) authenticated (bool b) false) ≡ flag (some b)
unfolding overwrite
saved-flag none b = refl
saved-flag (some x) b = refl

secret_answer :
    (cookies : List Cookie) (o : Option Bool)
    → visible (
        if not (boolean_of authenticated (seen o)).0
        then forbidden cookies
        else written cake cookies)
      ≡ reply secret_page o
unfolding boolean_of
secret_answer cookies none = refl
secret_answer cookies (some true) = refl
secret_answer cookies (some false) = refl

module _ {D : Type 0} (ops : Database D) where
  set-Accounts :
      (w : World D) (sid : GoString) (p : ℕ) (a : Grants) (b : Bool)
      → Accounts w a
      → lookup w.table sid ≡ some p
      → Returns (λ u w'. Accounts w' (marked sid b a)) (set ops p authenticated (bool b) w)
  unfolding set
  set-Accounts w sid p a b k here =
      Returns-weaken _ _ (set_with ops p authenticated (bool b) false w)
        (set-Returns ops w sid p k.serving here authenticated (bool b) false)
        (λ u w' x. record {
          serving = x.serving;
          flags = λ j. x.contents j authenticated ∙ elim (Bool-cases (str_eq sid j)) [
            | inl e ↦
                rw e (rw (str_eq_refl authenticated) (rw (k.flags sid) (saved-flag (a sid) b)))
            | inr e ↦ rw e (k.flags j)
          ];
        })

  get-Accounts :
      (w : World D) (sid : GoString) (p : ℕ) (a : Grants)
      → Accounts w a
      → lookup w.table sid ≡ some p
      → Returns (λ x w'. (x ≡ seen (a sid)) × Accounts w' a) (get p authenticated w)
  get-Accounts w sid p a k here =
      Returns-weaken _ _ (get p authenticated w)
        (get-Returns w sid p authenticated (seen (a sid)) w.heap k.serving here
          (ap (fetched w.heap) (k.flags sid) ∙ fetched-flag w.heap (a sid)))
        (λ x w' y. (
          y.0,
          record {
            serving = y.1.serving;
            flags = λ j. y.1.contents j authenticated ∙ elim (Bool-cases (str_eq sid j)) [
              | inl e ↦ rw e (k.flags sid ∙ ap (λ i. flag (a i)) (str_eq_sound sid j e))
              | inr e ↦ rw e (k.flags j)
            ];
          },
        ))

module _ {D : Type 0} (ops : Database D) where
  get_boolean-Accounts :
      (w : World D) (sid : GoString) (p : ℕ) (a : Grants)
      → Accounts w a
      → lookup w.table sid ≡ some p
      → Returns
          (λ auth w'. (auth ≡ boolean_of authenticated (seen (a sid))) × Accounts w' a)
          (get_boolean p authenticated w)
  unfolding get_boolean
  get_boolean-Accounts w sid p a k here =
      Returns-continue _ _ (get p authenticated w) _ (get-Accounts ops w sid p a k here)
        (λ x u y. (ap (boolean_of authenticated) y.0, y.1))

module _ {D : Type 0} (ops : Database D) (c : Config) (g : Generator) (i : Identifies c g (λ v. v))
    (unlimited : ℕ) where
  -- `login` and `logout`
  mark-Returns :
      (b : Bool) (draw : ℕ) (r : Request) (w : World D) (a : Grants)
      → Accounts w a
      → let v = get_cookie r c.cookie in
        let sid = client g draw v in
        Returns
          (λ answer w'.
            (visible answer ≡ (200, [])) × Accounts w' (marked sid b (opened (str_eq v []) sid a)))
          ((start ops c unlimited draw r >>= λ session.
              set ops session.0 authenticated (bool b) >> pure (written [] session.1))
            w)
  mark-Returns b draw r w a k =
      let v = get_cookie r c.cookie in
      let sid = client g draw v in
      Returns-continue _ _ (start ops c unlimited draw r w) _
        (start-Returns ops c g (λ v. v) i w unlimited draw r k.serving)
        (λ x u y.
          Returns-continue _ _ (set ops x.0 authenticated (bool b) u) _
            (set-Accounts ops u sid x.0 _ b (started-Accounts w sid (str_eq v []) x.0 u a k y)
              y.in_table)
            (λ z t q. (refl, q)))

  serve-Returns :
      (page : Page) (draw : ℕ) (r : Request) (w : World D) (a : Grants)
      → Accounts w a
      → let v = get_cookie r c.cookie in
        let sid = client g draw v in
        let b = opened (str_eq v []) sid a in
        Returns
          (λ answer w'. (visible answer ≡ reply page (b sid)) × Accounts w' (after page sid b))
          (serve ops c unlimited page draw r w)
  unfolding serve secret login logout
  serve-Returns secret_page draw r w a k =
      let v = get_cookie r c.cookie in
      let sid = client g draw v in
      let b = opened (str_eq v []) sid a in
      Returns-continue _ _ (start ops c unlimited draw r w) _
        (start-Returns ops c g (λ v. v) i w unlimited draw r k.serving)
        (λ x u y.
          Returns-continue _ _ (get_boolean x.0 authenticated u) _
            (get_boolean-Accounts ops u sid x.0 b (started-Accounts w sid (str_eq v []) x.0 u a k y)
              y.in_table)
            (λ auth t q. (rw (q.0) (secret_answer x.1 (b sid)), q.1)))
  serve-Returns login_page draw r w a k = mark-Returns true draw r w a k
  serve-Returns logout_page draw r w a k = mark-Returns false draw r w a k

  serve_all-Returns :
      (requests : List (Page × Request)) (draw : ℕ) (w : World D) (a : Grants)
      → Accounts w a
      → Returns
          (λ answers w'. map visible answers ≡ replies g c.cookie draw a requests)
          (serve_all ops c unlimited draw requests w)
  unfolding serve_all
  serve_all-Returns [] draw w a k = refl
  serve_all-Returns ((page, r) ∷ requests) draw w a k =
      let v = get_cookie r c.cookie in
      let sid = client g draw v in
      let b = opened (str_eq v []) sid a in
      Returns-continue _ _ (serve ops c unlimited page draw r w) _ (serve-Returns page draw r w a k)
        (λ answer u x.
          Returns-continue _ _ (serve_all ops c unlimited (suc draw) requests u) _
            (serve_all-Returns requests (suc draw) u (after page sid b) x.1)
            (λ answers t y. rw (x.0) (rw y)))

module _ {D : Type 0} (ops : Database D) (uuid_v4 : Generator) (unlimited : ℕ)
    (clock : Clock GoString) (heap : Heap) where
  -- The manager of `main`.
  abbrev pub sess : Config × World D
  sess = Sessions.new uuid_v4 overview_config clock heap

  -- The server, just started, answers every request of any requests, one after another, and as the
  -- account says: with the page that is for authenticated clients exactly where the last request of
  -- the client's id to `login` or `logout` was one to `login`, and with 403 otherwise. A client
  -- without a cookie gets an id, under which nothing counts that was before.
  pub secret_guarded :
      (requests : List (Page × Request))
      → (answers : List Response) × (w : World D) × (serve_all ops sess.0 unlimited 0 requests
            sess.1
          ≡ done answers w)
        × (map visible answers ≡ replies uuid_v4 cookie_name_for_session_id 0 (λ j. none) requests)
  unfolding Sessions.new validate new_provider lookup str_eq
  secret_guarded requests = Returns-returned _ (serve_all ops sess.0 unlimited 0 requests sess.1) (
      serve_all-Returns ops sess.0 uuid_v4 (bare-Identifies sess.0 uuid_v4 refl refl) unlimited
        requests 0 sess.1 (λ j. none)
        (record { serving = new-IsServing uuid_v4 overview_config clock heap; flags = λ j. refl }))
