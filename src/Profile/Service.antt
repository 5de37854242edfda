-- ===== src/Profile/Service.antt =====
-- internal/profile/service.go
use meetgo_dating_server.Prelude.{
  Text, trim_space, ltb, ◌==◌, not, Bool, Option, none, some, List, map, length,
}
use meetgo_dating_server.Schema.{Uuid, Step, about, Profile, RefItem}
use meetgo_dating_server.Schema.Dates.{Date}
use meetgo_dating_server.Schema.Decimals.{Decimal}
use meetgo_dating_server.Exec.{Exec, pure, lift, or_throw, throw_if, ◌>>=◌, ◌>>◌}
use meetgo_dating_server.Profile.Errors.{profile_not_found, step_order, field_error}
use meetgo_dating_server.Profile.Validate.{
  BasicsRequest, AboutRequest, validate_basics, validate_about,
}
use meetgo_dating_server.Profile.Repository.{
  CityRef, rank, effective_city, profile_by_user_id, profile_by_id, interests_by_profile_id,
  onboarding_step, count_interests, save_basics, save_about,
}
use meetgo_dating_server.Profile.Photos.{PhotoResponse, to_photo_response, photos_by_profile_id}

pub record ProfileResponse : Type 0 where
  pub id : Uuid
  pub user_id : Uuid
  pub name : Text
  pub gender : Text
  pub birth_date : Date
  pub city : Option CityRef
  pub interests : List RefItem
  pub description : Text
  pub dating_goal : Option Text
  pub height : Option Decimal
  pub weight : Option Decimal
  pub show_zodiac : Bool
  pub photos : List PhotoResponse

pub record ProfileEnvelope : Type 0 where
  pub profile : ProfileResponse
  pub onboarding_step : Step

unfoldable pub to_profile_response :
    Profile → List RefItem → List PhotoResponse → Option CityRef → ProfileResponse
to_profile_response p interests photos city = record {
  id = p.id;
  user_id = p.user_id;
  name = p.name;
  gender = p.gender;
  birth_date = p.birth_date;
  city = city;
  interests = interests;
  description = p.description;
  dating_goal = p.dating_goal;
  height = p.height_cm;
  weight = p.weight_kg;
  show_zodiac = p.show_zodiac;
  photos = photos;
}

unfoldable pub build_from_row : Profile → Exec ProfileResponse
unfolding to_profile_response
build_from_row row = do
  interests ← interests_by_profile_id row.id
  photo_rows ← photos_by_profile_id row.id
  let photos = map to_photo_response photo_rows
  city ← effective_city row.user_id
  pure (to_profile_response row interests photos city)

unfoldable pub build_from : Option Profile → Exec (Option ProfileResponse)
unfolding build_from_row
build_from none = pure none
build_from (some row) = do resp ← build_from_row row; pure (some resp)

unfoldable pub build_profile : Uuid → Exec (Option ProfileResponse)
unfolding build_from
build_profile user_id = do row ← profile_by_user_id user_id; build_from row

unfoldable pub build_envelope : Uuid → Exec ProfileEnvelope
unfolding build_profile
build_envelope user_id = do
  found ← build_profile user_id
  p ← or_throw found profile_not_found
  step ← onboarding_step user_id
  pure (record { profile = p; onboarding_step = step })

-- Service.Get
unfoldable pub get_profile : Uuid → Exec ProfileResponse
unfolding build_profile
get_profile user_id = do found ← build_profile user_id; or_throw found profile_not_found

-- Service.PublicByID
unfoldable pub public_by_id : Uuid → Exec ProfileResponse
unfolding build_from_row
public_by_id profile_id = do
  found ← profile_by_id profile_id
  row ← or_throw found profile_not_found
  build_from_row row

-- `parse_date` is time.Parse at the layout of dates, `today` is time.Now(), and `new_id` is
-- gen_random_uuid()'s.
unfoldable pub save_basics_step :
    (Text → Option Date) → Date → Uuid → Uuid → BasicsRequest → Exec ProfileEnvelope
save_basics_step parse_date today new_id user_id req = do
  birth ← lift (validate_basics parse_date today req)
  save_basics new_id user_id (trim_space req.name) req.gender birth
  build_envelope user_id

unfoldable pub save_about_step : (Text → Option Uuid) → Uuid → AboutRequest → Exec ProfileEnvelope
save_about_step parse_uuid user_id req = do
  ids ← lift (validate_about parse_uuid req)
  step ← onboarding_step user_id
  throw_if (ltb (rank step) (rank about)) step_order
  found ← profile_by_user_id user_id
  prof ← or_throw found step_order
  n ← count_interests ids
  throw_if (not (n == length ids)) (field_error "interestIds" "unknown interest id")
  save_about user_id prof.id req ids
  build_envelope user_id
