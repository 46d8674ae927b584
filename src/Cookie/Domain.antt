-- ===== src/Cookie/Domain.antt =====
-- The domain of the session cookie, in sessions.go and cookie.go.
use go_sessions.Base.{
  ℕ, suc, ◌+◌, ◌≤◌, GoString, ltb, leb, ◌≡◌, ◌≢◌, refl, true, false, none, [], ◌∷◌, ◌++◌, length,
  arith, length-append,
}
use go_sessions.Strings.{count_byte}
use go_sessions.Strings.Laws.{
  Lacks, index_byte-append, last_index_byte-append, count_byte-append, take-append, drop_past,
  replace_once-append,
}
use go_sessions.Strconv.{atoi}
use go_sessions.Cookie.{
  last_label, level_domain, strip_port, is_valid_cookie_domain, ends_in_number, cookie_domain,
}

positive : (n : ℕ) → ltb 0 (suc n) ≡ true
positive n = ground arith

-- A text that lacks dots, behind a dot.
last_label_lem : (p m : GoString) → p ≢ [] → Lacks b'.' m → last_label (p ++ b'.' ∷ m) ≡ m
unfolding last_label
last_label_lem [] m h lacks = absurd (h refl)
last_label_lem (b ∷ p) m h lacks =
    let e : length (b ∷ p) + 1 ≡ suc (length (b ∷ p)) = omega arith in
    rw (last_index_byte-append (b ∷ p) m b'.' lacks, last_label)
      (rw e (rw (positive (length p)) (drop_past (b ∷ p) m b'.')))

-- The lengths that the code compares.
shorter : (p m : GoString) → p ≢ [] → ltb (length m) (length (p ++ b'.' ∷ m)) ≡ true
shorter p m h = rw (length-append p (b'.' ∷ m)) (ground arith)

longer : (p m : GoString) → ltb 0 (length (p ++ b'.' ∷ m)) ≡ true
longer p m = rw (length-append p (b'.' ∷ m)) (ground arith)

-- The level of the cookie: two labels.
pub level_domain_lem :
    (p m suffix : GoString)
    → p ≢ []
    → Lacks b'.' m
    → Lacks b'.' suffix
    → level_domain ((p ++ b'.' ∷ m) ++ b'.' ∷ suffix) ≡ m ++ b'.' ∷ suffix
unfolding level_domain
level_domain_lem p m suffix h in_m in_suffix =
    rw (last_index_byte-append (p ++ b'.' ∷ m) suffix b'.' in_suffix, level_domain)
      (rw (longer p m) (
        rw (take-append (p ++ b'.' ∷ m) (b'.' ∷ suffix)) (
          rw (last_label_lem p m h in_m)
            (rw (shorter p m h) (replace_once-append (p ++ b'.' ∷ m) m (b'.' ∷ suffix))))))

strip_port_lem : (d port : GoString) → Lacks b':' d → d ≢ [] → strip_port (d ++ b':' ∷ port) ≡ d
unfolding strip_port
strip_port_lem [] port lacks h = absurd (h refl)
strip_port_lem (b ∷ d) port lacks h =
    rw (index_byte-append (b ∷ d) port b':' lacks, strip_port)
      (rw (positive (length d)) (take-append (b ∷ d) (b':' ∷ port)))

behind_is_some : (s : GoString) (b : ℕ) (t : GoString) → s ++ b ∷ t ≢ []
behind_is_some [] b t = λ e. cc
behind_is_some (a ∷ s) b t = λ e. cc

-- Of a host name with a port whose name passes `IsValidCookieDomain`, the cookie's domain is a dot
-- and the last two labels, the one before the last dot and the one behind it, where there are more;
-- none if the subdomain persistence is disabled.
pub cookie_domain_lem :
    (p m suffix port : GoString)
    → p ≢ []
    → Lacks b'.' m
    → Lacks b'.' suffix
    → Lacks b':' ((p ++ b'.' ∷ m) ++ b'.' ∷ suffix)
    → is_valid_cookie_domain ((p ++ b'.' ∷ m) ++ b'.' ∷ suffix) ≡ true
    → (cookie_domain false (((p ++ b'.' ∷ m) ++ b'.' ∷ suffix) ++ b':' ∷ port)
        ≡ b'.' ∷ (m ++ b'.' ∷ suffix))
      × (cookie_domain true (((p ++ b'.' ∷ m) ++ b'.' ∷ suffix) ++ b':' ∷ port) ≡ [])
unfolding cookie_domain
cookie_domain_lem p m suffix port h in_m in_suffix lacks valid = (
  rw
      (
        strip_port_lem ((p ++ b'.' ∷ m) ++ b'.' ∷ suffix) port lacks
            (behind_is_some (p ++ b'.' ∷ m) b'.' suffix),
        cookie_domain,
      )
      (rw valid (rw (level_domain_lem p m suffix h in_m in_suffix))),
  refl,
)

ends_in_number_lem :
    (s t : GoString)
    → Lacks b'.' t
    → t ≢ []
    → (atoi t).1 ≡ none
    → ends_in_number (s ++ b'.' ∷ t) ≡ true
unfolding ends_in_number
ends_in_number_lem s [] in_t nonempty number = absurd (nonempty refl)
ends_in_number_lem s (d ∷ t) in_t nonempty number =
    let e : length s + 1 ≡ suc (length s) = omega arith in
    let inside : ltb (suc (length s)) (length (s ++ b'.' ∷ (d ∷ t))) ≡ true =
      rw (length-append s (b'.' ∷ (d ∷ t))) (ground arith) in
    rw (last_index_byte-append s (d ∷ t) b'.' in_t, ends_in_number)
      (rw e (rw inside (rw (drop_past s (d ∷ t) b'.') (rw number))))

invalid_lem :
    (s t : GoString)
    → 2 ≤ count_byte s b'.'
    → ends_in_number (s ++ b'.' ∷ t) ≡ true
    → is_valid_cookie_domain (s ++ b'.' ∷ t) ≡ false
unfolding is_valid_cookie_domain
invalid_lem s t dots number =
    let enough : leb 3 (count_byte (s ++ b'.' ∷ t) b'.') ≡ true =
      rw (count_byte-append s (b'.' ∷ t) b'.') (ground arith) in
    ground (arith, enough, number)

-- A host with three dots or more whose last label is a number gets no domain: an IPv4 address with
-- its port.
address_has_no_domain :
    (s t port : GoString)
    → 2 ≤ count_byte s b'.'
    → Lacks b'.' t
    → t ≢ []
    → (atoi t).1 ≡ none
    → Lacks b':' (s ++ b'.' ∷ t)
    → cookie_domain false ((s ++ b'.' ∷ t) ++ b':' ∷ port) ≡ []
unfolding cookie_domain
address_has_no_domain s t port dots in_t nonempty number lacks =
    rw (strip_port_lem (s ++ b'.' ∷ t) port lacks (behind_is_some s b'.' t), cookie_domain)
      (rw (invalid_lem s t dots (ends_in_number_lem s t in_t nonempty number)))
