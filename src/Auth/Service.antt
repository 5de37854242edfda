-- ===== src/Auth/Service.antt =====
-- internal/auth/service.go. What a call reads from outside is in `Env`: the clocks, the bytes of
-- crypto/rand, the uuids that the database generates, and whether the mailer fails.
use meetgo_dating_server.Prelude.{
  ℕ, zero, suc, ◌+◌, ◌*◌, ◌/◌, ◌%◌, ◌==◌, Text, codes, text_eq, ltb, leb, if◌then◌else◌, Bool, true,
  false, ◌&&◌, not, Option, none, some, List, [], ◌∷◌,
}
use meetgo_dating_server.Http.{internal}
use meetgo_dating_server.Schema.{Uuid, Time, Clock, User, Session, Step}
use meetgo_dating_server.Exec.{
  Exec, pure, raise, throw, lift, or_throw, throw_if, ignore_then, ◌>>=◌, ◌>>◌,
}
use meetgo_dating_server.Auth.Errors.{
  rate_limited, otp_invalid, otp_expired, session_revoked, invalid_refresh, unauthorized,
  russian_email_required,
}
use meetgo_dating_server.Auth.External.{External}
use meetgo_dating_server.Auth.Email.{canonical_email, is_russian_email}
use meetgo_dating_server.Auth.Token.{
  TokenService, issue_access, hash_token, hash_otp, new_refresh_token,
}
use meetgo_dating_server.Auth.Repository.{
  user_by_canonical_email, user_by_id, create_user, upsert_otp, otp_by_email,
  increment_otp_attempts, delete_otp, insert_send_event, last_send_at, count_sends_by_email_since,
  count_sends_by_ip_since, reset_session, rotate_session, session_by_hash, revoke_user_sessions,
}

abbrev pub second : ℕ
second = 1000000000

abbrev pub otp_max_attempts : ℕ
otp_max_attempts = 5

abbrev pub send_max_per_email_per_hour : ℕ
send_max_per_email_per_hour = 5

abbrev pub send_max_per_ip_per_10_min : ℕ
send_max_per_ip_per_10_min = 10

abbrev pub email_rate_window : ℕ
email_rate_window = 3600 * second

abbrev pub ip_rate_window : ℕ
ip_rate_window = 600 * second

pub record Service : Type 0 where
  pub tokens : TokenService
  pub otp_ttl : ℕ
  pub otp_resend_after : ℕ
  pub refresh_ttl : ℕ
  pub dev_mode : Bool

pub record Env : Type 0 where
  pub clock : Clock
  pub random_word : Option ℕ
  pub random_bytes : Option (List ℕ)
  pub user_id : Uuid
  pub session_id : Uuid
  pub mail_fails : Bool

pub record SendCodeResponse : Type 0 where
  pub expires_in : ℕ
  pub resend_after : ℕ

pub record TokenResponse : Type 0 where
  pub access_token : Text
  pub refresh_token : Text
  pub is_created_profile : Bool
  pub onboarding_step : Step

pub record MeResponse : Type 0 where
  pub id : Uuid
  pub email : Text
  pub is_created_profile : Bool
  pub onboarding_step : Step

abbrev digit : ℕ → ℕ
digit n = b'0' + n % 10

-- The decimal digits of n without leading zeros, before `rest`: at most `fuel` of them.
unfoldable pub high_digits : ℕ → ℕ → Text → Text
high_digits zero n rest = rest
high_digits (suc fuel) n rest = elim (n == 0) [
  | true ↦ rest
  | false ↦ high_digits fuel (n / 10) (digit n ∷ rest)
]

-- fmt.Sprintf("%06d", n): six digits, and more before them from 1000000 on, where a uint32 has
-- at most four more.
unfoldable pub six_digits : ℕ → Text
unfolding high_digits
six_digits n = high_digits 4 (n / 1000000) (
    digit (n / 100000)
    ∷ digit (n / 10000)
    ∷ digit (n / 1000)
    ∷ digit (n / 100)
    ∷ digit (n / 10)
    ∷ digit n
    ∷ [])

unfoldable pub generate_code : Bool → Option ℕ → Text
unfolding six_digits
generate_code true word = codes "000000"
generate_code false none = codes "000001"
generate_code false (some n) = six_digits (n % 1000000)

-- `ok && now.Sub(last) < resendAfter`
unfoldable pub too_soon : Option Time → Time → ℕ → Bool
too_soon none now cooldown = false
too_soon (some last) now cooldown = ltb now (last + cooldown)

-- the error of mailer.SendOTP, wrapped
unfoldable pub send_mail : Bool → Exec (Unit {0})
send_mail true = raise internal
send_mail false = pure tt

module _ (x : External) (s : Service) (e : Env) where
  unfoldable pub send_code : Text → Text → Text → Exec SendCodeResponse
  unfolding too_soon send_mail
  send_code email ip country = do
    throw_if (text_eq country (codes "RU") && not (is_russian_email email)) russian_email_required
    let now = e.clock.app
    last ← last_send_at email
    throw_if (too_soon last now s.otp_resend_after) rate_limited
    by_email ← count_sends_by_email_since email now email_rate_window
    throw_if (leb send_max_per_email_per_hour by_email) rate_limited
    by_ip ← count_sends_by_ip_since ip now ip_rate_window
    throw_if (leb send_max_per_ip_per_10_min by_ip) rate_limited
    let code = generate_code s.dev_mode e.random_word
    upsert_otp email (hash_otp x email code) (now + s.otp_ttl)
    send_mail e.mail_fails
    insert_send_event e.clock.db email ip
    pure (record { expires_in = s.otp_ttl / second; resend_after = s.otp_resend_after / second })

  -- the access token, the refresh token and its hash
  unfoldable pub issue_pair : Uuid → Exec (Text × Text × Text)
  unfolding issue_access new_refresh_token
  issue_pair user_id = do
    access ← lift (issue_access x s.tokens user_id e.clock.app)
    (refresh, hash) ← lift (new_refresh_token x e.random_bytes)
    pure (access, refresh, hash)

  -- a wrong code: count it, and drop the code at the last attempt
  unfoldable pub wrong_code : Text → Exec TokenResponse
  wrong_code email = do
    attempts ← increment_otp_attempts email
    if leb otp_max_attempts attempts
        then ignore_then (delete_otp email) (throw otp_invalid)
        else throw otp_invalid

  -- the user of the canonical email, created on the first login
  unfoldable pub ensure_user : Text → Option User → Exec User
  ensure_user email (some user) = pure user
  ensure_user email none = create_user e.user_id email (canonical_email email)

  unfoldable pub log_in : Text → Exec TokenResponse
  unfolding ensure_user issue_pair
  log_in email = do
    delete_otp email
    found ← user_by_canonical_email (canonical_email email)
    user ← ensure_user email found
    (access, refresh, hash) ← issue_pair user.id
    reset_session e.clock.db e.session_id user.id hash (e.clock.app + s.refresh_ttl)
    pure (record {
      access_token = access;
      refresh_token = refresh;
      is_created_profile = user.is_created_profile;
      onboarding_step = user.onboarding_step;
    })

  unfoldable pub check_code : Text → Text → Exec TokenResponse
  unfolding wrong_code log_in
  check_code email code = do
    found ← otp_by_email email
    otp ← or_throw found otp_invalid
    if ltb otp.expires_at e.clock.app
        then ignore_then (delete_otp email) (throw otp_expired)
        else if text_eq otp.code_hash (hash_otp x email code)
        then log_in email
        else wrong_code email

  -- the session of a refresh token, if it may be used
  unfoldable pub usable_session : Text → Exec Session
  usable_session refresh_token = do
    found ← session_by_hash (hash_token x refresh_token)
    session ← or_throw found invalid_refresh
    throw_if (elim session.revoked_at [ none ↦ false | some _ ↦ true ]) session_revoked
    throw_if (ltb session.expires_at e.clock.app) invalid_refresh
    pure session

  -- the rest of Refresh, for the session that was read
  unfoldable pub replace_session : Session → Exec TokenResponse
  unfolding issue_pair
  replace_session session = do
    found ← user_by_id session.user_id
    user ← or_throw found invalid_refresh
    (access, refresh, hash) ← issue_pair user.id
    rotate_session e.clock.db e.session_id session.id user.id hash (e.clock.app + s.refresh_ttl)
    pure (record {
      access_token = access;
      refresh_token = refresh;
      is_created_profile = user.is_created_profile;
      onboarding_step = user.onboarding_step;
    })

  unfoldable pub refresh_tokens : Text → Exec TokenResponse
  unfolding usable_session replace_session
  refresh_tokens refresh_token = do session ← usable_session refresh_token; replace_session session

unfoldable pub logout : Env → Uuid → Exec (Unit {0})
logout e user_id = revoke_user_sessions e.clock.db user_id

unfoldable pub me : Uuid → Exec MeResponse
me user_id = do
  found ← user_by_id user_id
  user ← or_throw found unauthorized
  pure (record {
    id = user.id;
    email = user.email;
    is_created_profile = user.is_created_profile;
    onboarding_step = user.onboarding_step;
  })
