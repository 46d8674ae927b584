-- ===== src/Examples/Visits.antt =====
-- A client that visits twice, and hosts that cookies are set for.
use go_sessions.Base.{
  arith, GoString, codes, str_eq, ◌≡◌, ◌≢◌, refl, true, false, none, some, List, [], ◌∷◌,
}
use go_sessions.Base.Int.{pos}
use go_sessions.Database.{SyncPayload}
use go_sessions.World.{World, Session}
use go_sessions.Strings.{count_byte}
use go_sessions.Cookie.{
  Cookie, Request, find_cookie, get_cookie, is_valid_cookie_domain, cookie_domain,
}
use go_sessions.Cookie.Domain.{cookie_domain_lem}
use go_sessions.Config.{Config, Generator}
use go_sessions.Sessions.{encode_cookie_value, update_cookie}
use go_sessions.Sessions.Roundtrip.{plain, start_returns, cookie_ends}
use go_sessions.Sessions
use go_sessions.Sessions.Fasthttp
use go_sessions.Sessions.Fasthttp.{Server}
use go_sessions.Sessions.Fasthttp.Agreement.{ending, handlers_agree}
use go_sessions.Examples.Requests.{journal, running}

nonempty : codes "s1" ≢ []
nonempty = λ e. cc

abbrev pub only : Generator
only draw = codes "s1"

abbrev pub config : Config
config = record {
  cookie = codes "sid";
  cookie_secure_tls = true;
  encode = none;
  decode = none;
  expires = pos 60;
  session_id_generator = some only;
  disable_subdomain_persistence = true;
}

abbrev empty : World (List SyncPayload)
empty = record {
  clock = record { now = 100; tick = 3; timers = [] };
  heap = [];
  sessions = [];
  table = [];
  databases = [];
  pool = [];
  locked = false;
}

abbrev pub first : Request
first = record { cookies = []; host = codes "example.com"; tls = false }

abbrev pub second : Request
second = record {
  cookies = (codes "sid", codes "s1") ∷ [];
  host = codes "example.com";
  tls = false;
}

sends_back : get_cookie second (codes "sid") ≡ codes "s1"
unfolding get_cookie find_cookie str_eq
sends_back = refl

no_cookie_yet : get_cookie first (codes "sid") ≡ []
unfolding get_cookie find_cookie
no_cookie_yet = refl

came_back : Session
unfolding encode_cookie_value update_cookie
came_back =
    (start_returns journal config empty only 7 0 59 first 1 second refl refl refl refl
      (plain refl refl) nonempty no_cookie_yet sends_back).5

start_returns_example : came_back.sid ≡ codes "s1"
unfolding came_back encode_cookie_value update_cookie
start_returns_example =
    (start_returns journal config empty only 7 0 59 first 1 second refl refl refl refl
      (plain refl refl) nonempty no_cookie_yet sends_back).14

cookie_domain_lem_example : cookie_domain false (codes "w.ab.io:80") ≡ codes ".ab.io"
unfolding is_valid_cookie_domain str_eq count_byte
cookie_domain_lem_example =
    (cookie_domain_lem (codes "w") (codes "ab") (codes "io") (codes "80") (λ e. cc)
      (refl, (refl, tt)) (refl, (refl, tt))
      (refl, (refl, (refl, (refl, (refl, (refl, (refl, tt))))))) refl).0

-- A context that holds the cookies of the request and of the response.
abbrev fast : Server (List (GoString × GoString) × List Cookie)
fast = record {
  host = λ ctx. codes "example.com";
  is_tls = λ ctx. false;
  request_cookie = λ name ctx. find_cookie ctx.0 name;
  set_cookie = λ cookie ctx. (ctx.0, cookie ∷ ctx.1);
  delete_response_cookie = λ name ctx. ctx;
  delete_request_cookie = λ name ctx. ctx;
}

same_cookie :
    get_cookie second (codes "sid") ≡ Fasthttp.get_cookie fast (second.cookies, []) (codes "sid")
unfolding get_cookie Fasthttp.get_cookie find_cookie str_eq
same_cookie = refl

handlers_agree_example :
    ending (λ x. x.0) (Fasthttp.start fast journal config 7 1 (second.cookies, []) running)
    ≡ ending (λ x. x.0) (Sessions.start journal config 7 1 second running)
handlers_agree_example =
    (handlers_agree fast journal config running 7 1 (pos 60) second (second.cookies, [])
      same_cookie).0

issued : Cookie
issued =
    (cookie_ends journal (record config { expires = pos 2000000000 }) empty only 7 0 1999999999
      first refl refl refl refl (omega arith) no_cookie_yet).2
