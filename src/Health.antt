-- ===== src/Health.antt =====
-- internal/handler/health.go. Ping is a round trip that reads nothing.
use meetgo_dating_server.Prelude.{ℕ, String}
use meetgo_dating_server.Http.{Result, ok, err}
use meetgo_dating_server.Schema.{Db}
use meetgo_dating_server.Exec.{Exec, Faults, query}

pub record PlainText : Type 0 where
  pub status : ℕ
  pub msg : String

abbrev pub healthz : PlainText
healthz = record { status = 200; msg = "ok" }

unfoldable pub ping : Exec (Unit {0})
ping = query (λ d. tt)

abbrev pub readiness : Result (Unit {0}) → PlainText
readiness (ok u) = record { status = 200; msg = "ready" }
readiness (err e) = record { status = 503; msg = "database unavailable" }

unfoldable pub readyz : Faults → Db → PlainText
unfolding ping
readyz fs d = readiness (ping fs d).0
