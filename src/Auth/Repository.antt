-- ===== src/Auth/Repository.antt =====
-- internal/auth/repository.go: each method is the SQL statements that it runs.
use meetgo_dating_server.Prelude.{
  ℕ, ◌+◌, Text, text_eq, first, count, exists, update_rows, delete_rows, ltb, ◌==◌, if◌then◌else◌,
  Bool, true, false, ◌&&◌, ◌||◌, Option, none, some, List, [], ◌∷◌, ◌++◌,
}
use meetgo_dating_server.Http.{internal, Result, ok, err}
use meetgo_dating_server.Schema.{Uuid, Time, User, Otp, SendEvent, Session, Db, basics}
use meetgo_dating_server.Exec.{Exec, statement, query, execute, in_tx, ◌>>◌}

-- users

unfoldable pub has_canonical : Text → User → Bool
has_canonical canonical u = text_eq u.canonical_email canonical

unfoldable pub has_user_id : Uuid → User → Bool
has_user_id id u = u.id == id

unfoldable pub user_by_canonical_email : Text → Exec (Option User)
user_by_canonical_email canonical = query (λ d. first (has_canonical canonical) d.users)

unfoldable pub user_by_id : Uuid → Exec (Option User)
user_by_id id = query (λ d. first (has_user_id id) d.users)

-- the primary key and the two unique indexes of users
unfoldable pub conflicts_with : User → User → Bool
conflicts_with v u =
    u.id == v.id || text_eq u.email v.email || text_eq u.canonical_email v.canonical_email

-- the defaults of the table: onboarding has not begun
abbrev pub new_user : Uuid → Text → Text → User
new_user id email canonical = record {
  id = id;
  email = email;
  canonical_email = canonical;
  is_created_profile = false;
  onboarding_step = basics;
}

unfoldable pub insert_user : User → Db → Result User × Db
unfolding conflicts_with
insert_user u d =
    if exists (conflicts_with u) d.users
    then (err internal, d)
    else (ok u, record d { users = d.users ++ u ∷ [] })

-- `id` is gen_random_uuid()'s
unfoldable pub create_user : Uuid → Text → Text → Exec User
unfolding insert_user
create_user id email canonical = statement (insert_user (new_user id email canonical))

-- otp_codes

unfoldable pub otp_of : Text → Otp → Bool
otp_of email o = text_eq o.email email

abbrev pub fresh_otp : Text → Text → Time → Otp
fresh_otp email code_hash expires_at = record {
  email = email;
  code_hash = code_hash;
  expires_at = expires_at;
  attempts = 0;
}

-- INSERT … ON CONFLICT (email) DO UPDATE
unfoldable pub put_otp : Otp → List Otp → List Otp
unfolding otp_of
put_otp o otps =
    if exists (otp_of o.email) otps
    then update_rows (otp_of o.email) (λ _. o) otps
    else otps ++ o ∷ []

unfoldable pub upsert_otp : Text → Text → Time → Exec (Unit {0})
unfolding put_otp
upsert_otp email code_hash expires_at =
    execute
      (λ d. record d { otp_codes = put_otp (fresh_otp email code_hash expires_at) d.otp_codes })

unfoldable pub otp_by_email : Text → Exec (Option Otp)
otp_by_email email = query (λ d. first (otp_of email) d.otp_codes)

abbrev pub add_attempt : Otp → Otp
add_attempt o = record o { attempts = o.attempts + 1 }

-- UPDATE … RETURNING attempts: no row is an error of Scan
unfoldable pub bump_attempts : Text → Db → Result ℕ × Db
bump_attempts email d = elim (first (otp_of email) d.otp_codes) [
  | none ↦ (err internal, d)
  | some o ↦ (
    ok (o.attempts + 1),
    record d { otp_codes = update_rows (otp_of email) add_attempt d.otp_codes },
  )
]

unfoldable pub increment_otp_attempts : Text → Exec ℕ
unfolding bump_attempts
increment_otp_attempts email = statement (bump_attempts email)

unfoldable pub delete_otp : Text → Exec (Unit {0})
delete_otp email = execute (λ d. record d { otp_codes = delete_rows (otp_of email) d.otp_codes })

-- otp_send_events

unfoldable pub sent_to : Text → SendEvent → Bool
sent_to email e = text_eq e.email email

unfoldable pub sent_from : Text → SendEvent → Bool
sent_from ip e = text_eq e.ip ip

unfoldable pub insert_send_event : Time → Text → Text → Exec (Unit {0})
insert_send_event db_now email ip = execute (λ d. record d {
  otp_send_events =
      d.otp_send_events ++ record { email = email; ip = ip; created_at = db_now } ∷ [];
})

-- ORDER BY created_at DESC LIMIT 1
unfoldable pub latest : (SendEvent → Bool) → List SendEvent → Option Time
latest p [] = none
latest p (e ∷ es) =
    let rest = latest p es in
    if p e
    then elim rest [
      | none ↦ some e.created_at
      | some t ↦ some (if ltb e.created_at t then t else e.created_at)
    ]
    else rest

unfoldable pub last_send_at : Text → Exec (Option Time)
unfolding latest
last_send_at email = query (λ d. latest (sent_to email) d.otp_send_events)

-- `created_at > now - window`, where the source subtracts below zero
unfoldable pub in_window : (SendEvent → Bool) → Time → ℕ → SendEvent → Bool
in_window p now window e = p e && ltb now (e.created_at + window)

unfoldable pub count_sends_by_email_since : Text → Time → ℕ → Exec ℕ
count_sends_by_email_since email now window =
    query (λ d. count (in_window (sent_to email) now window) d.otp_send_events)

unfoldable pub count_sends_by_ip_since : Text → Time → ℕ → Exec ℕ
count_sends_by_ip_since ip now window =
    query (λ d. count (in_window (sent_from ip) now window) d.otp_send_events)

-- refresh_sessions

unfoldable pub is_active : Session → Bool
is_active s = elim s.revoked_at [ none ↦ true | some _ ↦ false ]

-- user_id = u AND revoked_at IS NULL
unfoldable pub active_of : Uuid → Session → Bool
unfolding is_active
active_of user_id s = s.user_id == user_id && is_active s

unfoldable pub has_session_id : Uuid → Session → Bool
has_session_id id s = s.id == id

unfoldable pub has_hash : Text → Session → Bool
has_hash hash s = text_eq s.token_hash hash

abbrev pub revoke : Time → Session → Session
revoke db_now s = record s { revoked_at = some db_now }

unfoldable pub revoke_user_sessions : Time → Uuid → Exec (Unit {0})
unfolding active_of
revoke_user_sessions db_now user_id = execute (λ d. record d {
  refresh_sessions = update_rows (active_of user_id) (revoke db_now) d.refresh_sessions;
})

unfoldable pub revoke_session : Time → Uuid → Exec (Unit {0})
unfolding has_session_id
revoke_session db_now id = execute (λ d. record d {
  refresh_sessions = update_rows (has_session_id id) (revoke db_now) d.refresh_sessions;
})

abbrev pub new_session : Uuid → Uuid → Text → Time → Session
new_session id user_id token_hash expires_at = record {
  id = id;
  user_id = user_id;
  token_hash = token_hash;
  expires_at = expires_at;
  revoked_at = none;
}

-- the primary key and the unique index on token_hash
unfoldable pub session_conflict : Session → Session → Bool
session_conflict t s = s.id == t.id || text_eq s.token_hash t.token_hash

unfoldable pub insert_session_row : Session → Db → Result (Unit {0}) × Db
unfolding session_conflict
insert_session_row t d =
    if exists (session_conflict t) d.refresh_sessions
    then (err internal, d)
    else (ok tt, record d { refresh_sessions = d.refresh_sessions ++ t ∷ [] })

unfoldable pub insert_session : Uuid → Uuid → Text → Time → Exec (Unit {0})
unfolding insert_session_row
insert_session id user_id token_hash expires_at =
    statement (insert_session_row (new_session id user_id token_hash expires_at))

-- `id` is gen_random_uuid()'s
unfoldable pub reset_session : Time → Uuid → Uuid → Text → Time → Exec (Unit {0})
unfolding revoke_user_sessions insert_session
reset_session db_now id user_id token_hash expires_at =
    in_tx (do revoke_user_sessions db_now user_id; insert_session id user_id token_hash expires_at)

unfoldable pub rotate_session : Time → Uuid → Uuid → Uuid → Text → Time → Exec (Unit {0})
unfolding revoke_session insert_session
rotate_session db_now id old_id user_id token_hash expires_at =
    in_tx (do revoke_session db_now old_id; insert_session id user_id token_hash expires_at)

unfoldable pub session_by_hash : Text → Exec (Option Session)
session_by_hash hash = query (λ d. first (has_hash hash) d.refresh_sessions)
