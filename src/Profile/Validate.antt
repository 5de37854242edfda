-- ===== src/Profile/Validate.antt =====
-- internal/profile/dto.go: the requests of the two onboarding steps and their validation.
use meetgo_dating_server.Prelude.{
  ℕ, Text, codes, String, text_eq, byte_len, trim_space, length, ltb, Bool, true, false, ◌||◌, not,
  Option, none, some, List, [], ◌∷◌, ◌++◌,
}
use meetgo_dating_server.Http.{api, Result, ok, err, validation_error}
use meetgo_dating_server.Schema.{Uuid}
use meetgo_dating_server.Schema.Decimals.{Decimal, below, above, units}
use meetgo_dating_server.Schema.Dates.{Date, younger_than}
use meetgo_dating_server.Profile.Ids.{Ids, ids_ok, ids_bad, parse_interest_ids}

pub record BasicsRequest : Type 0 where
  pub name : Text
  pub gender : Text
  pub birth_date : Text

pub record AboutRequest : Type 0 where
  pub interest_ids : List Text
  pub description : Text
  pub dating_goal : Text
  pub height : Option Decimal
  pub weight : Option Decimal
  pub show_zodiac : Bool

unfoldable pub valid_gender : Text → Bool
valid_gender g = text_eq g (codes "MALE") || text_eq g (codes "FEMALE")

unfoldable pub valid_dating_goal : Text → Bool
valid_dating_goal g =
    text_eq g (codes "FRIENDSHIP")
    || text_eq g (codes "LONG_TERM_RELATIONSHIP")
    || text_eq g (codes "DATES")
    || text_eq g (codes "NOTHING_SERIOUS")

-- `details[field] = message`, under its condition
abbrev pub detail : Bool → String → String → List (String × String)
detail true field message = (field, message) ∷ []
detail false field message = []

unfoldable pub bad_name : Text → Bool
bad_name raw = let name = trim_space raw in text_eq name [] || ltb 100 (byte_len name)

-- time.Parse(dateLayout, …) is the argument
unfoldable pub birth_details : Option Date → Date → List (String × String)
birth_details none today = ("birthDate", "must be YYYY-MM-DD") ∷ []
birth_details (some birth) today = detail (younger_than 18 birth today) "birthDate" "must be 18+"

unfoldable pub basics_details : BasicsRequest → Option Date → Date → List (String × String)
unfolding bad_name birth_details
basics_details req birth today =
    detail (bad_name req.name) "name" "required, up to 100 chars"
    ++ (detail (not (valid_gender req.gender)) "gender" "must be MALE or FEMALE"
        ++ birth_details birth today)

-- `len(details) > 0`, then the parsed value
abbrev pub unless_details {ℓ} : {A : Type ℓ} → List (String × String) → Option A → Result A
unless_details (e ∷ es) a = err (api (validation_error (e ∷ es)))
unless_details [] none = err (api (validation_error []))
unless_details [] (some a) = ok a

unfoldable pub validate_basics : (Text → Option Date) → Date → BasicsRequest → Result Date
unfolding basics_details
validate_basics parse_date today req =
    unless_details (basics_details req (parse_date req.birth_date) today)
      (parse_date req.birth_date)

unfoldable pub bad_description : ℕ → ℕ → Text → Bool
bad_description lo hi raw = let n = length (trim_space raw) in ltb n lo || ltb hi n

unfoldable pub out_of_range : ℕ → ℕ → Option Decimal → Bool
out_of_range lo hi none = false
out_of_range lo hi (some v) = below v (units lo) || above v (units hi)

abbrev pub ids_details : String → Ids → List (String × String)
ids_details field (ids_ok ids) = []
ids_details field (ids_bad message) = (field, message) ∷ []

abbrev pub ids_value : Ids → Option (List Uuid)
ids_value (ids_ok ids) = some ids
ids_value (ids_bad message) = none

unfoldable pub about_details : AboutRequest → Ids → List (String × String)
unfolding bad_description out_of_range
about_details req ids =
    ids_details "interestIds" ids
    ++ (detail (bad_description 30 1000 req.description) "description" "must be 30–1000 chars"
        ++ (detail (not (valid_dating_goal req.dating_goal)) "datingGoal" "invalid value"
            ++ (detail (out_of_range 100 250 req.height) "height" "must be 100–250 cm"
                ++ detail (out_of_range 30 300 req.weight) "weight" "must be 30–300 kg")))

unfoldable pub validate_about : (Text → Option Uuid) → AboutRequest → Result (List Uuid)
unfolding about_details
validate_about parse_uuid req =
    let ids = parse_interest_ids parse_uuid req.interest_ids in
    unless_details (about_details req ids) (ids_value ids)
