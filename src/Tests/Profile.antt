-- ===== src/Tests/Profile.antt =====
-- internal/profile at concrete requests.
use meetgo_dating_server.Prelude.{
  ◌+◌, ◌≤◌, ◌<◌, Text, codes, All, first, count, true, false, Option, some, List, [], ◌∷◌, ◌≡◌, ◌↔◌,
  ◌⊎◌, refl, arith,
}
use meetgo_dating_server.Http.{ok}
use meetgo_dating_server.Schema.{basics, photos_step, done, Db, empty_db}
use meetgo_dating_server.Schema.Dates.{Date, younger_than}
use meetgo_dating_server.Exec.{◌>>◌, ◌>>=◌, Faults}
use meetgo_dating_server.Exec.Runs.{run_all}
use meetgo_dating_server.Auth.Repository.{has_user_id}
use meetgo_dating_server.Profile.Ids.{ids_ok, parse_interest_ids}
use meetgo_dating_server.Profile.Repository.{
  mark_complete, profile_by_user_id, onboarding_step, of_user,
}
use meetgo_dating_server.Profile.Photos.{count_photos, photo_of}
use meetgo_dating_server.Profile.PhotoService.{CompleteResponse, complete}
use meetgo_dating_server.Profile.Validate.{BasicsRequest}
use meetgo_dating_server.Profile.Onboarding.{
  IsMarked, Reached, OnboardingCall, basics_call, complete_call, onboard_all, onboard_all-IsMarked,
  onboard_all-Reached,
}
use meetgo_dating_server.Profile.PhotoLimit.{
  AtMostFive, PhotoCall, upload_call, delete_call, photo_request, photo_requests-AtMostFive,
}
use meetgo_dating_server.Profile.Completion.{MayComplete, completed, complete-MayComplete}
use meetgo_dating_server.Profile.Rules.{AreIds, parse_interest_ids-AreIds, younger_than_iff}
use meetgo_dating_server.Tests.Fixtures.{libs, user_at, profile_of, photo_of_profile}

abbrev birth : Date
birth = record { year = 2000; month = 2; day = 29 }

abbrev today : Date
today = record { year = 2018; month = 3; day = 1 }

-- time.Parse of one date
abbrev read_date : Text → Option Date
read_date t = some birth

abbrev ann : BasicsRequest
ann = record { name = codes "Ann"; gender = codes "FEMALE"; birth_date = codes "2000-02-29" }

abbrev newcomer : Db
newcomer = record empty_db { users = user_at basics false ∷ [] }

abbrev calls : List (OnboardingCall × Faults)
calls =
    (complete_call 1, [])
    ∷ (basics_call today 5 1 ann, false ∷ true ∷ [])
    ∷ (basics_call today 5 1 ann, [])
    ∷ []

onboard_all-IsMarked_example :
    All IsMarked (onboard_all read_date libs.parse_uuid calls newcomer).users
onboard_all-IsMarked_example =
    onboard_all-IsMarked read_date libs.parse_uuid calls newcomer (refl, tt)

onboard_all-Reached_example :
    All (Reached 1 0) (onboard_all read_date libs.parse_uuid calls newcomer).users
onboard_all-Reached_example =
    onboard_all-Reached read_date libs.parse_uuid 1 0 calls newcomer (omega arith)
      (λ _. omega arith, tt)

-- A user at the last step, with a profile of two photos.
abbrev ready : Db
ready = record empty_db {
  users = user_at photos_step false ∷ [];
  profiles = profile_of 5 1 ∷ [];
  photos = photo_of_profile 80 5 0 ∷ photo_of_profile 81 5 1 ∷ [];
}

ready-MayComplete : MayComplete 1 ready
unfolding first count has_user_id of_user photo_of
ready-MayComplete = record {
  user = user_at photos_step false;
  prof = profile_of 5 1;
  has_user = refl;
  has_profile = refl;
  passed = omega arith;
  photos = omega arith;
}

abbrev is_complete : CompleteResponse
is_complete = record { is_created_profile = true; onboarding_step = done }

ready_completes : (complete 1 [] ready).0 ≡ ok is_complete
unfolding complete ◌>>=◌ onboarding_step first has_user_id profile_by_user_id of_user ◌>>◌
    count_photos count photo_of mark_complete
ready_completes = refl

complete-MayComplete_example : MayComplete 1 ready × ((complete 1 [] ready).1 ≡ completed 1 ready)
complete-MayComplete_example = complete-MayComplete 1 [] ready is_complete ready_completes

ready-AtMostFive : AtMostFive ready
unfolding count photo_of
ready-AtMostFive p = ground arith

abbrev photo_calls : List (PhotoCall × Faults)
photo_calls =
    (upload_call 90 82 1 (codes "image/png"), [])
    ∷ (upload_call 91 83 1 (codes "image/jpeg"), true ∷ [])
    ∷ (delete_call 1 80, [])
    ∷ []

photo_requests-AtMostFive_example :
    AtMostFive (run_all (photo_request libs.uuid_string (λ key. some key)) photo_calls ready)
photo_requests-AtMostFive_example =
    photo_requests-AtMostFive libs.uuid_string (λ key. some key) photo_calls ready ready-AtMostFive

two_ids : parse_interest_ids libs.parse_uuid ((3 ∷ []) ∷ (4 ∷ []) ∷ []) ≡ ids_ok (3 ∷ 4 ∷ [])
unfolding parse_interest_ids
two_ids = refl

parse_interest_ids-AreIds_example : AreIds libs.parse_uuid 5 ((3 ∷ []) ∷ (4 ∷ []) ∷ []) (3 ∷ 4 ∷ [])
parse_interest_ids-AreIds_example =
    parse_interest_ids-AreIds libs.parse_uuid ((3 ∷ []) ∷ (4 ∷ []) ∷ []) (3 ∷ 4 ∷ []) two_ids

younger_than_iff_example : (younger_than 18 birth today ≡ false) ↔ (
    (birth.year + 18 < today.year)
    ⊎ ((birth.year + 18 ≡ today.year)
        × ((birth.month < today.month) ⊎ ((birth.month ≡ today.month) × (birth.day ≤ today.day)))))
younger_than_iff_example = younger_than_iff 18 birth today
