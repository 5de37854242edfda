-- ===== src/Profile/Errors.antt =====
-- internal/profile/errors.go
use meetgo_dating_server.Prelude.{String, List, [], ◌∷◌}
use meetgo_dating_server.Http.{ApiError, new_error, validation_error}

abbrev pub profile_not_found : ApiError
profile_not_found = new_error 404 "PROFILE_NOT_FOUND" "profile not found"

abbrev pub step_order : ApiError
step_order = new_error 409 "STEP_ORDER" "previous onboarding step not completed"

abbrev pub photo_not_found : ApiError
photo_not_found = new_error 404 "PHOTO_NOT_FOUND" "photo not found"

abbrev pub incomplete_error : List (String × String) → ApiError
incomplete_error details = record {
  status = 422;
  code = "PROFILE_INCOMPLETE";
  message = "profile is not complete";
  details = details;
}

abbrev pub too_many_photos : ApiError
too_many_photos = validation_error (("photo", "max 5 photos") ∷ [])

abbrev pub field_error : String → String → ApiError
field_error field message = validation_error ((field, message) ∷ [])
