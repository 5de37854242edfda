-- ===== src/Meeting/Errors.antt =====
-- internal/meeting/errors.go
use meetgo_dating_server.Prelude.{[], ◌∷◌}
use meetgo_dating_server.Http.{ApiError, new_error, validation_error}

abbrev pub profile_required : ApiError
profile_required = new_error 403 "PROFILE_REQUIRED" "complete your profile first"

abbrev pub active_ad_exists : ApiError
active_ad_exists = new_error 409 "ACTIVE_AD_EXISTS" "you already have an active ad"

abbrev pub no_active_ad : ApiError
no_active_ad = new_error 404 "NO_ACTIVE_AD" "no active ad"

abbrev pub ad_not_found : ApiError
ad_not_found = new_error 404 "AD_NOT_FOUND" "ad not found"

abbrev pub ad_not_active : ApiError
ad_not_active = new_error 409 "AD_NOT_ACTIVE" "ad is not active"

abbrev pub cannot_like_own : ApiError
cannot_like_own = new_error 422 "CANNOT_LIKE_OWN_AD" "cannot like your own ad"

abbrev pub already_responded : ApiError
already_responded = new_error 409 "ALREADY_RESPONDED" "already responded to this ad"

abbrev pub like_not_found : ApiError
like_not_found = new_error 404 "LIKE_NOT_FOUND" "like not found"

abbrev pub like_not_pending : ApiError
like_not_pending = new_error 409 "LIKE_NOT_PENDING" "like already handled"

abbrev pub unknown_tag : ApiError
unknown_tag = validation_error (("tagIds", "unknown tag id") ∷ [])
