-- ===== src/Auth/Errors.antt =====
-- internal/auth/errors.go
use meetgo_dating_server.Prelude.{[], ◌∷◌}
use meetgo_dating_server.Http.{ApiError, new_error}

abbrev pub rate_limited : ApiError
rate_limited = new_error 429 "RATE_LIMITED" "too many requests"

abbrev pub otp_invalid : ApiError
otp_invalid = new_error 401 "OTP_INVALID" "invalid code"

abbrev pub otp_expired : ApiError
otp_expired = new_error 401 "OTP_EXPIRED" "code expired"

abbrev pub session_revoked : ApiError
session_revoked = new_error 401 "SESSION_REVOKED" "session revoked"

abbrev pub invalid_refresh : ApiError
invalid_refresh = new_error 401 "INVALID_REFRESH" "invalid refresh token"

abbrev pub unauthorized : ApiError
unauthorized = new_error 401 "UNAUTHORIZED" "missing or invalid access token"

abbrev pub russian_email_required : ApiError
russian_email_required = record {
  status = 422;
  code = "RU_EMAIL_REQUIRED";
  message = "russian email is required in this region";
  details = ("email", "use a .ru/.su/.рф email") ∷ [];
}
