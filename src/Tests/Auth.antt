-- ===== src/Tests/Auth.antt =====
-- internal/auth at concrete requests.
use meetgo_dating_server.Prelude.{
  before_rune, has_suffix, split_last, update_rows, ℕ, Text, codes, first, count, text_eq, true,
  false, some, List, [], ◌∷◌, ◌≡◌, ◌≢◌, refl, arith,
}
use meetgo_dating_server.Http.{ok, err, api}
use meetgo_dating_server.Schema.{Session, Otp, Db, done, empty_db}
use meetgo_dating_server.Exec.{Faults, ◌>>=◌, ◌>>◌}
use meetgo_dating_server.Exec.Runs.{run_all}
use meetgo_dating_server.Auth.Errors.{session_revoked, otp_invalid}
use meetgo_dating_server.Auth.Email.{is_russian_email, canonical_email, validate_code}
use meetgo_dating_server.Auth.Email.Canonical.{canonical_email_idem}
use meetgo_dating_server.Auth.Token.{hash_token, hash_otp}
use meetgo_dating_server.Auth.Repository.{
  reset_session, has_canonical, user_by_canonical_email, delete_otp, otp_by_email,
  insert_send_event, upsert_otp, count_sends_by_ip_since, count_sends_by_email_since, last_send_at,
  rotate_session, user_by_id, session_by_hash, active_of, new_session, otp_of, fresh_otp, has_hash,
  has_user_id,
}
use meetgo_dating_server.Auth.Service.{
  Env, TokenResponse, SendCodeResponse, generate_code, send_code, check_code, log_in,
  refresh_tokens, usable_session, replace_session,
}
use meetgo_dating_server.Auth.Sessions.{IsSingle}
use meetgo_dating_server.Auth.Sessions.Requests.{
  AuthCall, send_call, check_call, refresh_call, logout_call, authorize, requests-IsSingle,
}
use meetgo_dating_server.Auth.Rotation.{reuse_refused}
use meetgo_dating_server.Auth.Login.{HadCode, LoggedIn, check_code-LoggedIn}
use meetgo_dating_server.Auth.Race.{double_refresh}
use meetgo_dating_server.Auth.Otp.{generate_code-IsValid, guesses_lock, guess_all}
use meetgo_dating_server.Auth.Sending.{Sent, send_code-Limited, send-check}
use meetgo_dating_server.Tests.Fixtures.{libs, service, env, mail, user_at}

-- One user, with one session of the token [7].
abbrev one_session : Session
one_session = new_session 50 1 (7 ∷ []) 5000

abbrev start : Db
start = record empty_db { users = user_at done true ∷ []; refresh_sessions = one_session ∷ [] }

start-IsSingle : IsSingle start
unfolding count active_of
start-IsSingle u = ground arith

abbrev calls : List (AuthCall × Faults)
calls =
    (send_call (env 100 60 8) mail (codes "ip") (codes "RU"), [])
    ∷ (check_call (env 110 61 9) mail (codes "123456"), false ∷ true ∷ [])
    ∷ (check_call (env 120 62 10) mail (codes "123456"), [])
    ∷ (refresh_call (env 130 63 11) (10 ∷ []), [])
    ∷ (logout_call (env 140 64 12) 1, [])
    ∷ []

requests-IsSingle_example : IsSingle (run_all (authorize libs service) calls start)
requests-IsSingle_example = requests-IsSingle libs service calls start start-IsSingle

abbrev tokens_of : ℕ → TokenResponse
tokens_of byte = record {
  access_token = 1 ∷ [];
  refresh_token = byte ∷ [];
  is_created_profile = true;
  onboarding_step = done;
}

refreshed : (refresh_tokens libs service (env 100 60 8) (7 ∷ []) [] start).0 ≡ ok (tokens_of 8)
unfolding refresh_tokens ◌>>=◌ ◌>>◌ session_by_hash first has_hash text_eq user_by_id has_user_id
    rotate_session count update_rows
refreshed = refl

reuse_refused_example :
    (refresh_tokens libs service
      (env 200 70 9)
      (7 ∷ [])
      []
      (refresh_tokens libs service (env 100 60 8) (7 ∷ []) [] start).1).0
    ≡ err (api session_revoked)
reuse_refused_example =
    reuse_refused libs service (env 100 60 8) (env 200 70 9) (7 ∷ []) [] start (tokens_of 8)
      refreshed

abbrev first_replaced : Db
first_replaced = (replace_session libs service (env 100 60 8) one_session [] start).1

read_one : (usable_session libs service (env 100 60 8) (7 ∷ []) [] start).0 ≡ ok one_session
unfolding usable_session ◌>>=◌ ◌>>◌ session_by_hash first has_hash text_eq hash_token
read_one = refl

replaced_first :
    (replace_session libs service (env 100 60 8) one_session [] start).0 ≡ ok (tokens_of 8)
unfolding replace_session ◌>>=◌ ◌>>◌ user_by_id first has_user_id rotate_session count update_rows
    text_eq
replaced_first = refl

replaced_second :
    (replace_session libs service (env 101 61 9) one_session [] first_replaced).0 ≡ ok (tokens_of 9)
unfolding replace_session ◌>>=◌ ◌>>◌ user_by_id first has_user_id rotate_session count update_rows
    text_eq
replaced_second = refl

new_id : (env 100 60 8).session_id ≢ one_session.id
new_id p = absurd (omega (arith, p))

double_refresh_example :
    count
      (active_of 1)
      (replace_session libs service (env 101 61 9) one_session [] first_replaced).1.refresh_sessions
    ≡ 2
double_refresh_example =
    double_refresh libs service (env 100 60 8) (env 100 60 8) (env 101 61 9) (7 ∷ []) [] [] [] start
      one_session (tokens_of 8) (tokens_of 9) start-IsSingle read_one new_id replaced_first
      replaced_second

-- Five wrong codes, and then the right one.
abbrev stored_otp : Otp
stored_otp = fresh_otp mail (hash_otp libs mail (codes "123456")) 400

abbrev waiting : Db
waiting = record empty_db { otp_codes = stored_otp ∷ [] }

abbrev guesses : List (Env × Text)
guesses =
    (env 100 60 8, codes "000000")
    ∷ (env 101 60 8, codes "000001")
    ∷ (env 102 60 8, codes "000002")
    ∷ (env 103 60 8, codes "000003")
    ∷ (env 104 60 8, codes "000004")
    ∷ []

found_stored : first (otp_of mail) waiting.otp_codes ≡ some stored_otp
unfolding first otp_of text_eq
found_stored = refl

guesses_lock_example :
    (check_code libs service
      (env 105 60 8)
      mail
      (codes "123456")
      []
      (guess_all libs service mail guesses waiting)).0
    ≡ err (api otp_invalid)
unfolding text_eq hash_otp
guesses_lock_example =
    guesses_lock libs service mail guesses waiting stored_otp (env 105 60 8) (codes "123456")
      found_stored
      ((refl, refl), ((refl, refl), ((refl, refl), ((refl, refl), ((refl, refl), tt)))))
      (omega arith) (omega arith)

abbrev answer_sent : SendCodeResponse
answer_sent = record { expires_in = 0; resend_after = 0 }

was_sent :
    (send_code libs service (env 100 60 8) mail (codes "ip") (codes "RU") [] start).0
    ≡ ok answer_sent
unfolding send_code ◌>>=◌ ◌>>◌ text_eq is_russian_email split_last has_suffix last_send_at
    count_sends_by_email_since count count_sends_by_ip_since upsert_otp insert_send_event
was_sent = refl

send_code-Limited_example :
    Sent libs service
      (env 100 60 8)
      mail
      (codes "ip")
      (codes "RU")
      []
      answer_sent
      (send_code libs service (env 100 60 8) mail (codes "ip") (codes "RU") [] start).1
send_code-Limited_example =
    send_code-Limited libs service (env 100 60 8) mail (codes "ip") (codes "RU") [] start
      answer_sent was_sent

send-check_example :
    check_code libs service
      (env 300 61 9)
      mail
      (generate_code false (some 123456))
      []
      (send_code libs service (env 100 60 8) mail (codes "ip") (codes "RU") [] start).1
    ≡ log_in libs service
        (env 300 61 9)
        mail
        []
        (send_code libs service (env 100 60 8) mail (codes "ip") (codes "RU") [] start).1
send-check_example =
    send-check libs service (env 100 60 8) (env 300 61 9) mail (codes "ip") (codes "RU") [] start
      answer_sent was_sent (omega arith)

canonical_email_idem_example :
    canonical_email (canonical_email (codes "a.b+c@googlemail.com"))
    ≡ canonical_email (codes "a.b+c@googlemail.com")
canonical_email_idem_example = canonical_email_idem (codes "a.b+c@googlemail.com")

generate_code-IsValid_example : validate_code (generate_code false (some 7123456)) ≡ ok tt
generate_code-IsValid_example = generate_code-IsValid false (some 7123456)

abbrev waiting_user : Db
waiting_user = record start { otp_codes = stored_otp ∷ [] }

logged_in :
    (check_code libs service (env 100 60 8) mail (codes "123456") [] waiting_user).0
    ≡ ok (tokens_of 8)
unfolding check_code ◌>>=◌ ◌>>◌ first otp_of text_eq hash_otp otp_by_email delete_otp
    user_by_canonical_email has_canonical canonical_email split_last before_rune reset_session count
    update_rows
logged_in = refl

check_code-LoggedIn_example :
    HadCode libs (env 100 60 8) mail (codes "123456") waiting_user
    × ((m : LoggedIn libs service
          (env 100 60 8)
          mail
          waiting_user.users
          (one_session ∷ [])
          (tokens_of 8)
          (check_code libs service (env 100 60 8) mail (codes "123456") [] waiting_user).1)
        × (count
              (active_of m.user.id)
              (check_code libs service
                (env 100 60 8)
                mail
                (codes "123456")
                []
                waiting_user).1.refresh_sessions
            ≡ 1))
check_code-LoggedIn_example =
    check_code-LoggedIn libs service (env 100 60 8) mail (codes "123456") [] waiting_user
      (tokens_of 8) logged_in
