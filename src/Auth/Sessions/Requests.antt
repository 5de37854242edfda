-- ===== src/Auth/Sessions/Requests.antt =====
-- internal/auth/service.go: the requests, and what they do to the sessions of a user.
use meetgo_dating_server.Prelude.{
  Text, Bool, Bool-cases, true, false, List, Option, none, some, exists, first, inl, inr,
  Option-cases,
}
use meetgo_dating_server.Schema.{Uuid, Time, User, Db}
use meetgo_dating_server.Exec.{Faults}
use meetgo_dating_server.Exec.Keeps.{
  Keeps, Keeps-execute, Keeps-statement, Keeps-raise, Keeps-pure, keeps_rules,
}
use meetgo_dating_server.Exec.Runs.{run_all, run_all-Keeps}
use meetgo_dating_server.Auth.External.{External}
use meetgo_dating_server.Auth.Repository.{
  create_user, conflicts_with, new_user, upsert_otp, increment_otp_attempts, bump_attempts,
  delete_otp, insert_send_event, otp_by_email, user_by_canonical_email, last_send_at, otp_of,
  count_sends_by_email_since, count_sends_by_ip_since,
}
use meetgo_dating_server.Auth.Service.{
  Service, Env, send_code, send_mail, check_code, wrong_code, log_in, ensure_user, issue_pair,
  refresh_tokens, logout,
}
use meetgo_dating_server.Auth.Sessions.{
  IsSingle, refresh_tokens-IsSingle, reset_session-IsSingle, revoke_user_sessions-IsSingle,
}

delete_otp-IsSingle : (email : Text) → Keeps IsSingle (delete_otp email)
unfolding delete_otp
delete_otp-IsSingle email = Keeps-execute _ (λ d h. h)

upsert_otp-IsSingle : (email hash : Text) (t : Time) → Keeps IsSingle (upsert_otp email hash t)
unfolding upsert_otp
upsert_otp-IsSingle email hash t = Keeps-execute _ (λ d h. h)

insert_send_event-IsSingle :
    (t : Time) (email ip : Text) → Keeps IsSingle (insert_send_event t email ip)
unfolding insert_send_event
insert_send_event-IsSingle t email ip = Keeps-execute _ (λ d h. h)

increment_otp_attempts-IsSingle : (email : Text) → Keeps IsSingle (increment_otp_attempts email)
unfolding increment_otp_attempts
increment_otp_attempts-IsSingle email = Keeps-statement _ λ d h.
    elim (Option-cases (first (otp_of email) d.otp_codes)) [
      | inl e ↦ rw (e, bump_attempts) h
      | inr (o, e) ↦ rw (e, bump_attempts) h
    ]

create_user-IsSingle :
    (id : Uuid) (email canonical : Text) → Keeps IsSingle (create_user id email canonical)
unfolding create_user
create_user-IsSingle id email canonical = Keeps-statement _ λ d h.
    elim (Bool-cases (exists (conflicts_with (new_user id email canonical)) d.users)) [
      | inl e ↦ rw e h
      | inr e ↦ rw e h
    ]

send_mail-IsSingle : (fails : Bool) → Keeps IsSingle (send_mail fails)
unfolding send_mail
send_mail-IsSingle true = Keeps-raise _
send_mail-IsSingle false = Keeps-pure _

ruleset single_rules = (
  keeps_rules, delete_otp-IsSingle, upsert_otp-IsSingle, insert_send_event-IsSingle,
  increment_otp_attempts-IsSingle, create_user-IsSingle, send_mail-IsSingle, reset_session-IsSingle,
)

module _ (x : External) (c : Service) (e : Env) where
  pub send_code-IsSingle :
      (email ip country : Text) → Keeps IsSingle (send_code x c e email ip country)
  unfolding send_code last_send_at count_sends_by_email_since count_sends_by_ip_since
  send_code-IsSingle email ip country = search single_rules depth 20

  ensure_user-IsSingle :
      (email : Text) (found : Option User) → Keeps IsSingle (ensure_user x c e email found)
  unfolding ensure_user
  ensure_user-IsSingle email none = search single_rules
  ensure_user-IsSingle email (some u) = search single_rules

  issue_pair-IsSingle : (u : Uuid) → Keeps IsSingle (issue_pair x c e u)
  unfolding issue_pair
  issue_pair-IsSingle u = search single_rules

  log_in-IsSingle : (email : Text) → Keeps IsSingle (log_in x c e email)
  unfolding log_in user_by_canonical_email
  log_in-IsSingle email = search (single_rules, ensure_user-IsSingle, issue_pair-IsSingle) depth 12

  wrong_code-IsSingle : (email : Text) → Keeps IsSingle (wrong_code x c e email)
  unfolding wrong_code
  wrong_code-IsSingle email = search single_rules depth 8

  pub check_code-IsSingle : (email code : Text) → Keeps IsSingle (check_code x c e email code)
  unfolding check_code otp_by_email
  check_code-IsSingle email code =
      search (single_rules, log_in-IsSingle, wrong_code-IsSingle) depth 12

-- The requests of internal/auth, each with its environment.
pub data AuthCall : Type 0 where
  send_call : Env → Text → Text → Text → AuthCall
  check_call : Env → Text → Text → AuthCall
  refresh_call : Env → Text → AuthCall
  logout_call : Env → Uuid → AuthCall

module _ (x : External) (c : Service) where
  unfoldable pub authorize : AuthCall → Faults → Db → Db
  authorize (send_call e email ip country) fs d = (send_code x c e email ip country fs d).1
  authorize (check_call e email code) fs d = (check_code x c e email code fs d).1
  authorize (refresh_call e token) fs d = (refresh_tokens x c e token fs d).1
  authorize (logout_call e user_id) fs d = (logout e user_id fs d).1

  authorize-IsSingle :
      (a : AuthCall) (fs : Faults) (d : Db) → IsSingle d → IsSingle (authorize a fs d)
  unfolding authorize logout
  authorize-IsSingle (send_call e email ip country) fs d h =
      (send_code-IsSingle x c e email ip country).at fs d h
  authorize-IsSingle (check_call e email code) fs d h =
      (check_code-IsSingle x c e email code).at fs d h
  authorize-IsSingle (refresh_call e token) fs d h = (refresh_tokens-IsSingle x c e token).at fs d h
  authorize-IsSingle (logout_call e user_id) fs d h =
      (revoke_user_sessions-IsSingle e.clock.db user_id).at fs d h

  -- Whatever requests of internal/auth come, one after the other and with any faults: if before them
  -- every user has at most one session that is not revoked, then so it is after them.
  pub requests-IsSingle :
      (calls : List (AuthCall × Faults)) (d : Db)
      → IsSingle d
      → IsSingle (run_all authorize calls d)
  requests-IsSingle = run_all-Keeps authorize IsSingle authorize-IsSingle
