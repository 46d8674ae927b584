-- ===== src/Applications.antt =====
-- The programs under _examples: servers that use the package. What a handler answers is its status,
-- the body that it writes and the cookies that the package adds.
pub mod Overview
pub mod Standalone
pub mod Securecookie
pub mod FlashMessages
use go_sessions.Base.{ℕ, GoString, codes, Bool, false, none, List, []}
use go_sessions.Base.Int.{pos}
use go_sessions.Cookie.{Cookie}
use go_sessions.Config.{Config}

pub record Response : Type 0 where
  pub status : ℕ
  pub body : GoString
  pub cookies : List Cookie

-- What `w.Write` of a body answers.
abbrev pub written : GoString → List Cookie → Response
written body cookies = record { status = 200; body = body; cookies = cookies }

-- The status and the body of an answer.
abbrev pub visible : Response → ℕ × GoString
visible answer = (answer.status, answer.body)
