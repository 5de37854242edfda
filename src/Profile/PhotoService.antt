-- ===== src/Profile/PhotoService.antt =====
-- internal/profile/photo_service.go. The object store is behind the interface Storage: what its Put
-- returns is an argument, and its Delete, whose error the source drops, has no effect here.
use meetgo_dating_server.Prelude.{
  Text, codes, ltb, leb, ◌==◌, not, Bool, true, ◌&&◌, Option, none, some, List, [], ◌∷◌, ◌++◌, map,
  length,
}
use meetgo_dating_server.Http.{internal, Result, ok, err}
use meetgo_dating_server.Schema.{Uuid, Step, done, photos_step, Photo, Crop, Profile}
use meetgo_dating_server.Exec.{Exec, pure, lift, or_throw, throw_if, ◌>>=◌, ◌>>◌}
use meetgo_dating_server.Profile.Errors.{
  profile_not_found, step_order, photo_not_found, incomplete_error, too_many_photos, field_error,
}
use meetgo_dating_server.Profile.Ids.{member}
use meetgo_dating_server.Profile.Repository.{
  rank, profile_by_user_id, onboarding_step, mark_complete,
}
use meetgo_dating_server.Profile.Photos.{
  max_photos, min_photos_to_complete, image_extension, crop_valid, PhotoResponse, to_photo_response,
  photos_by_profile_id, count_photos, insert_photo, update_photo_crop, delete_photo_row,
  reorder_photos,
}

unfoldable pub require_profile : Uuid → Exec Profile
require_profile user_id = do found ← profile_by_user_id user_id; or_throw found profile_not_found

unfoldable pub profile_for_photos : Uuid → Exec Profile
profile_for_photos user_id = do
  found ← profile_by_user_id user_id
  prof ← or_throw found step_order
  step ← onboarding_step user_id
  throw_if (ltb (rank step) (rank photos_step)) step_order
  pure prof

-- the key of a new object
unfoldable pub photo_key : (Uuid → Text) → Uuid → Uuid → Text → Text
photo_key uuid_string profile_id object_id ext =
    codes "profiles/" ++ (uuid_string profile_id ++ (codes "/" ++ (uuid_string object_id ++ ext)))

-- the URL that Storage.Put returns, or its error
unfoldable pub stored : Option Text → Result Text
stored none = err internal
stored (some url) = ok url

-- `put` is Storage.Put, `object_id` is uuid.NewString()'s and `new_id` is gen_random_uuid()'s
unfoldable pub upload_photo :
    (Uuid → Text) → (Text → Option Text) → Uuid → Uuid → Uuid → Text → Exec PhotoResponse
unfolding profile_for_photos stored
upload_photo uuid_string put object_id new_id user_id content_type = do
  ext ← or_throw (image_extension content_type) (field_error "photo" "must be jpeg, png or webp")
  prof ← profile_for_photos user_id
  n ← count_photos prof.id
  throw_if (leb max_photos n) too_many_photos
  let key = photo_key uuid_string prof.id object_id ext
  url ← lift (stored (put key))
  row ← insert_photo new_id prof.id key url
  pure (to_photo_response row)

unfoldable pub set_crop : Uuid → Uuid → Crop → Exec PhotoResponse
unfolding require_profile
set_crop user_id photo_id c = do
  throw_if (not (crop_valid c)) (field_error "crop" "x,y,size must be within [0,1]")
  prof ← require_profile user_id
  updated ← update_photo_crop prof.id photo_id (some c)
  photo ← or_throw updated photo_not_found
  pure (to_photo_response photo)

abbrev pub photo_ids : List Photo → List Uuid
photo_ids [] = []
photo_ids (p ∷ ps) = p.id ∷ photo_ids ps

unfoldable pub all_members : List Uuid → List Uuid → Bool
all_members set [] = true
all_members set (id ∷ ids) = member id set && all_members set ids

unfoldable pub same_id_set : List Photo → List Uuid → Bool
unfolding all_members
same_id_set rows ids = length rows == length ids && all_members (photo_ids rows) ids

unfoldable pub reorder : Uuid → List Uuid → Exec (List PhotoResponse)
unfolding require_profile
reorder user_id ids = do
  prof ← require_profile user_id
  existing ← photos_by_profile_id prof.id
  throw_if (not (same_id_set existing ids))
      (field_error "order" "must list all photos exactly once")
  reorder_photos prof.id ids
  rows ← photos_by_profile_id prof.id
  pure (map to_photo_response rows)

unfoldable pub delete_photo : Uuid → Uuid → Exec (Unit {0})
unfolding require_profile
delete_photo user_id photo_id = do
  prof ← require_profile user_id
  found ← delete_photo_row prof.id photo_id
  key ← or_throw found photo_not_found
  pure tt

pub record CompleteResponse : Type 0 where
  pub is_created_profile : Bool
  pub onboarding_step : Step

unfoldable pub complete : Uuid → Exec CompleteResponse
complete user_id = do
  step ← onboarding_step user_id
  found ← profile_by_user_id user_id
  prof ← or_throw found (incomplete_error (("step", "complete previous steps first") ∷ []))
  throw_if (ltb (rank step) (rank photos_step))
      (incomplete_error (("step", "complete previous steps first") ∷ []))
  n ← count_photos prof.id
  throw_if (ltb n min_photos_to_complete) (incomplete_error (("photos", "min 2") ∷ []))
  mark_complete user_id
  pure (record { is_created_profile = true; onboarding_step = done })
