-- ===== src/Sessiondb/Expiry.antt =====
-- The expiry that sessiondb/redis/database.go stores sessions with.
use go_sessions.Base.{ℕ}

abbrev second : ℕ
second = 1000000000
