-- ===== src/Profile/Handler.antt =====
-- internal/profile/handler.go and photo_handler.go. `caller` is the user id that the middleware left in
-- the context, `body` what encoding/json makes of the body, `param` the id in the URL.
use meetgo_dating_server.Prelude.{
  ℕ, Text, ltb, if◌then◌else◌, Bool, true, false, Option, none, some, List,
}
use meetgo_dating_server.Http.{api, internal, Result, ok, err, json, no_content, decode_json}
use meetgo_dating_server.Schema.{Uuid, Crop}
use meetgo_dating_server.Schema.Dates.{Date}
use meetgo_dating_server.Exec.{Handler, answer, lift, or_throw, ◌>>=◌}
use meetgo_dating_server.Auth.Errors.{unauthorized}
use meetgo_dating_server.Profile.Errors.{profile_not_found, photo_not_found, field_error}
use meetgo_dating_server.Profile.Ids.{Ids, ids_ok, ids_bad, validate_reorder}
use meetgo_dating_server.Profile.Validate.{BasicsRequest, AboutRequest}
use meetgo_dating_server.Profile.Photos.{PhotoResponse, image_extension}
use meetgo_dating_server.Profile.Service.{
  ProfileResponse, ProfileEnvelope, get_profile, public_by_id, save_basics_step, save_about_step,
}
use meetgo_dating_server.Profile.PhotoService.{
  CompleteResponse, upload_photo, set_crop, reorder, delete_photo, complete,
}

-- maxPhotoBytes: 10 MiB
abbrev pub max_photo_bytes : ℕ
max_photo_bytes = 10485760

-- A multipart upload: what http.DetectContentType makes of the first 512 bytes, the declared type, and
-- the size; `rewinds` is whether Seek succeeds.
pub record Upload : Type 0 where
  pub sniffed : Text
  pub declared : Text
  pub size : ℕ
  pub rewinds : Bool

abbrev is_allowed : Text → Bool
is_allowed t = elim (image_extension t) [ none ↦ false | some _ ↦ true ]

-- detectContentType
unfoldable pub detect_content_type : Upload → Text
detect_content_type u =
    if is_allowed u.sniffed
    then u.sniffed
    else if is_allowed u.declared
    then u.declared
    else u.sniffed

-- ParseMultipartForm refuses the form, FormFile finds no file, or there is one
pub data Form : Type 0 where
  bad_form no_file : Form
  file : Upload → Form

unfoldable pub accept_upload : Form → Result Text
unfolding detect_content_type
accept_upload bad_form = err (api (field_error "photo" "invalid upload or too large"))
accept_upload no_file = err (api (field_error "photo" "file is required"))
accept_upload (file u) =
    if ltb max_photo_bytes u.size
    then err (api (field_error "photo" "max 10MB"))
    else if u.rewinds
    then ok (detect_content_type u)
    else err internal

abbrev ids_result : Ids → Result (List Uuid)
ids_result (ids_ok ids) = ok ids
ids_result (ids_bad message) = err (api (field_error "order" message))

module _ (caller : Option Uuid) where
  unfoldable pub handle_get : Handler ProfileResponse
  handle_get = answer (json 200) (do user_id ← or_throw caller unauthorized; get_profile user_id)

  unfoldable pub handle_basics :
      (Text → Option Date) → Date → Uuid → Option BasicsRequest → Handler ProfileEnvelope
  handle_basics parse_date today new_id body = answer (json 200) (do
    user_id ← or_throw caller unauthorized
    req ← lift (decode_json body)
    save_basics_step parse_date today new_id user_id req)

  unfoldable pub handle_about : (Text → Option Uuid) → Option AboutRequest → Handler ProfileEnvelope
  handle_about parse_uuid body = answer (json 200) (do
    user_id ← or_throw caller unauthorized
    req ← lift (decode_json body)
    save_about_step parse_uuid user_id req)

  unfoldable pub handle_public : (Text → Option Uuid) → Text → Handler ProfileResponse
  handle_public parse_uuid param = answer (json 200) (do
    or_throw caller unauthorized >>= λ _. do
      id ← or_throw (parse_uuid param) profile_not_found
      public_by_id id)

  unfoldable pub handle_upload_photo :
      (Uuid → Text) → (Text → Option Text) → Uuid → Uuid → Form → Handler PhotoResponse
  unfolding accept_upload
  handle_upload_photo uuid_string put object_id new_id form = answer (json 201) (do
    user_id ← or_throw caller unauthorized
    content_type ← lift (accept_upload form)
    upload_photo uuid_string put object_id new_id user_id content_type)

  unfoldable pub handle_set_crop : (Text → Option Uuid) → Text → Option Crop → Handler PhotoResponse
  handle_set_crop parse_uuid param body = answer (json 200) (do
    user_id ← or_throw caller unauthorized
    photo_id ← or_throw (parse_uuid param) photo_not_found
    c ← lift (decode_json body)
    set_crop user_id photo_id c)

  unfoldable pub handle_reorder_photos :
      (Text → Option Uuid) → Option (List Text) → Handler (List PhotoResponse)
  handle_reorder_photos parse_uuid body = answer (json 200) (do
    user_id ← or_throw caller unauthorized
    order ← lift (decode_json body)
    ids ← lift (ids_result (validate_reorder parse_uuid order))
    reorder user_id ids)

  unfoldable pub handle_delete_photo : (Text → Option Uuid) → Text → Handler (Unit {0})
  handle_delete_photo parse_uuid param =
      answer (λ _. no_content)
        (do
          user_id ← or_throw caller unauthorized
          photo_id ← or_throw (parse_uuid param) photo_not_found
          delete_photo user_id photo_id)

  unfoldable pub handle_complete : Handler CompleteResponse
  handle_complete = answer (json 200) (do user_id ← or_throw caller unauthorized; complete user_id)
