-- ===== src/Meeting/Feed/Filters.antt =====
-- internal/meeting/feed_dto.go and feed_handler.go: the query of the feed and its validation.
use meetgo_dating_server.Prelude.{
  ℕ, Text, codes, text_eq, String, min, ℤ, pos, negsuc, ltb, leb, if◌then◌else◌, Bool, true, false,
  ◌||◌, not, Option, none, some, List, [], ◌∷◌, ◌++◌,
}
use meetgo_dating_server.Http.{Result}
use meetgo_dating_server.Schema.{Uuid}
use meetgo_dating_server.Schema.Decimals.{Decimal, plus, minus, units}
use meetgo_dating_server.Profile.Validate.{valid_gender, valid_dating_goal, unless_details}

abbrev pub feed_default_limit : ℕ
feed_default_limit = 20

abbrev pub feed_max_limit : ℕ
feed_max_limit = 50

abbrev pub feed_default_radius : ℕ
feed_default_radius = 50

abbrev pub feed_max_radius : ℕ
feed_max_radius = 500

abbrev pub age_floor : ℕ
age_floor = 18

abbrev pub age_ceil : ℕ
age_ceil = 99

-- sortDistance and sortDate
pub data FeedSort : Type 0 where
  by_distance by_date : FeedSort

-- What strconv.ParseFloat returns: a number, an infinity, or NaN.
pub data Float : Type 0 where
  finite : Decimal → Float
  infinite : Bool → Float
  not_a_number : Float

-- The values of the query, by `q.Get`, where a missing key is the empty text, and `q["tagIds"]`.
pub record FeedParams : Type 0 where
  pub sort : Text
  pub radius : Text
  pub city_id : Text
  pub gender : Text
  pub goal : Text
  pub age_min : Text
  pub age_max : Text
  pub tag_ids : List Text
  pub limit : Text
  pub cursor : Text

pub record FeedFilters : Type 0 where
  pub sort : FeedSort
  pub radius : Float
  pub city_id : Option Uuid
  pub gender : Option Text
  pub goal : Option Text
  pub age_min : ℕ
  pub age_max : ℕ
  pub tag_ids : List Uuid
  pub limit : ℕ
  pub cursor_raw : Text

-- strconv.ParseFloat, strconv.Atoi and uuid.Parse
pub record Parsers : Type 0 where
  pub parse_float : Text → Option Float
  pub atoi : Text → Option ℤ
  pub parse_uuid : Text → Option Uuid

-- A parameter that was read: its value, and what is wrong with it.
pub record Read (A : Type 0) : Type 0 where
  pub value : A
  pub details : List (String × String)

abbrev pub good : {A : Type 0} → A → Read A
good a = record { value = a; details = [] }

abbrev pub bad : {A : Type 0} → A → String → String → Read A
bad a field message = record { value = a; details = (field, message) ∷ [] }

abbrev pub sort_named : Text → Option FeedSort
sort_named v =
    if text_eq v (codes "distance")
    then some by_distance
    else if text_eq v (codes "date")
    then some by_date
    else none

unfoldable pub read_sort : Text → Read FeedSort
read_sort [] = good by_distance
read_sort (c ∷ v) = elim (sort_named (c ∷ v)) [
  | none ↦ bad by_distance "sort" "must be distance or date"
  | some s ↦ good s
]

-- `n <= 0 || n > feedMaxRadius`, both false of NaN
abbrev pub bad_radius : Float → Bool
bad_radius (finite (plus n)) = leb n 0 || ltb (units feed_max_radius) n
bad_radius (finite (minus n)) = true
bad_radius (infinite negative) = true
bad_radius not_a_number = false

abbrev default_radius : Float
default_radius = finite (plus (units feed_default_radius))

abbrev pub read_gender : Text → Read (Option Text)
read_gender [] = good none
read_gender (c ∷ v) =
    if valid_gender (c ∷ v) then good (some (c ∷ v)) else bad none "gender" "must be MALE or FEMALE"

abbrev pub read_goal : Text → Read (Option Text)
read_goal [] = good none
read_goal (c ∷ v) =
    if valid_dating_goal (c ∷ v) then good (some (c ∷ v)) else bad none "goal" "invalid value"

abbrev pub age_of : ℤ → Option ℕ
age_of (pos n) = if ltb n age_floor || ltb age_ceil n then none else some n
age_of (negsuc n) = none

abbrev pub add_tag : Option Uuid → Read (List Uuid) → Read (List Uuid)
add_tag none rest = bad [] "tagIds" "contains an invalid id"
add_tag (some id) rest = record { value = id ∷ rest.value; details = rest.details }

-- `details["ageMin"]` is overwritten by the last test
abbrev pub age_min_details : Bool → List (String × String) → List (String × String)
age_min_details true details = ("ageMin", "must be <= ageMax") ∷ []
age_min_details false details = details

module _ (x : Parsers) where
  unfoldable pub read_radius : Text → Read Float
  read_radius [] = good default_radius
  read_radius (c ∷ v) = elim (x.parse_float (c ∷ v)) [
    | none ↦ bad default_radius "radius" "must be 0..500 km"
    | some n ↦ if bad_radius n then bad default_radius "radius" "must be 0..500 km" else good n
  ]

  -- exclusive with the radius
  unfoldable pub read_city : Text → Text → Read (Option Uuid)
  read_city [] radius = good none
  read_city (c ∷ v) radius = elim (x.parse_uuid (c ∷ v)) [
    | none ↦ bad none "cityId" "invalid id"
    | some id ↦
        if not (text_eq radius [])
        then bad none "cityId" "cannot combine cityId and radius"
        else good (some id)
  ]

  unfoldable pub parse_age : Text → String → Read ℕ
  parse_age v field = elim (x.atoi v) [
    | none ↦ bad age_floor field "must be 18..99"
    | some i ↦ elim (age_of i) [ none ↦ bad age_floor field "must be 18..99" | some n ↦ good n ]
  ]

  unfoldable pub read_age : ℕ → Text → String → Read ℕ
  unfolding parse_age
  read_age fallback [] field = good fallback
  read_age fallback (c ∷ v) field = parse_age (c ∷ v) field

  unfoldable pub read_limit : Text → Read ℕ
  read_limit [] = good feed_default_limit
  read_limit (c ∷ v) = elim (x.atoi (c ∷ v)) [
    | none ↦ bad feed_default_limit "limit" "must be >= 1"
    | some (negsuc n) ↦ bad feed_default_limit "limit" "must be >= 1"
    | some (pos n) ↦
        if ltb n 1
        then bad feed_default_limit "limit" "must be >= 1"
        else good (min n feed_max_limit)
  ]

  -- up to the first invalid id
  unfoldable pub read_tags : List Text → Read (List Uuid)
  read_tags [] = good []
  read_tags (s ∷ raw) = let rest = read_tags raw in add_tag (x.parse_uuid s) rest

  unfoldable pub parse_feed_filters : FeedParams → Result FeedFilters
  unfolding read_sort read_radius read_city read_age read_limit read_tags
  parse_feed_filters p =
      let sort = read_sort p.sort in
      let radius = read_radius p.radius in
      let city = read_city p.city_id p.radius in
      let gender = read_gender p.gender in
      let goal = read_goal p.goal in
      let age_min = read_age age_floor p.age_min "ageMin" in
      let age_max = read_age age_ceil p.age_max "ageMax" in
      let tags = read_tags p.tag_ids in
      let limit = read_limit p.limit in
      unless_details
        (sort.details
          ++ (radius.details
              ++ (city.details
                  ++ (gender.details
                      ++ (goal.details
                          ++ (age_min_details (ltb age_max.value age_min.value) age_min.details
                              ++ (age_max.details ++ (tags.details ++ limit.details))))))))
        (some (record {
          sort = sort.value;
          radius = radius.value;
          city_id = city.value;
          gender = gender.value;
          goal = goal.value;
          age_min = age_min.value;
          age_max = age_max.value;
          tag_ids = tags.value;
          limit = limit.value;
          cursor_raw = p.cursor;
        }))
