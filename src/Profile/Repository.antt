-- ===== src/Profile/Repository.antt =====
-- internal/profile/repository.go
use meetgo_dating_server.Prelude.{
  ℕ, Text, first, count, exists, select_rows, update_rows, delete_rows, ltb, ◌==◌, if◌then◌else◌,
  trim_space, Bool, true, false, ◌&&◌, ◌||◌, not, Option, none, some, List, [], ◌∷◌, ◌++◌,
}
use meetgo_dating_server.Http.{internal, Result, ok, err}
use meetgo_dating_server.Schema.{
  Uuid, User, Step, basics, about, photos_step, done, RefItem, Profile, City, UserGeo, Db,
}
use meetgo_dating_server.Schema.Dates.{Date}
use meetgo_dating_server.Exec.{Exec, pure, statement, query, execute, in_tx, ◌>>◌}
use meetgo_dating_server.Auth.Repository.{has_user_id}
use meetgo_dating_server.Profile.Ids.{member}
use meetgo_dating_server.Profile.Validate.{AboutRequest}

unfoldable pub of_user : Uuid → Profile → Bool
of_user user_id p = p.user_id == user_id

unfoldable pub has_profile_id : Uuid → Profile → Bool
has_profile_id id p = p.id == id

unfoldable pub has_item_id : Uuid → RefItem → Bool
has_item_id id i = i.id == id

-- stepRank of service.go, and array_position over the same order in advanceStep
abbrev pub rank : Step → ℕ
rank basics = 0
rank about = 1
rank photos_step = 2
rank done = 3

pub record CityRef : Type 0 where
  pub id : Uuid
  pub name : Text

-- COALESCE(name_ru, name)
abbrev pub city_name : City → Text
city_name c = elim c.name_ru [ none ↦ c.name | some n ↦ n ]

unfoldable pub resolved_city : Option UserGeo → List City → Option CityRef
resolved_city none cities = none
resolved_city (some g) cities = elim g.resolved_city_id [
  | none ↦ none
  | some id ↦ elim (first (λ c. c.id == id) cities) [
    | none ↦ none
    | some c ↦ some (record { id = c.id; name = city_name c })
  ]
]

unfoldable pub effective_city : Uuid → Exec (Option CityRef)
unfolding resolved_city
effective_city user_id =
    query (λ d. resolved_city (first (λ g. g.user_id == user_id) d.user_geo) d.cities)

unfoldable pub profile_by_user_id : Uuid → Exec (Option Profile)
profile_by_user_id user_id = query (λ d. first (of_user user_id) d.profiles)

unfoldable pub profile_by_id : Uuid → Exec (Option Profile)
profile_by_id id = query (λ d. first (has_profile_id id) d.profiles)

abbrev pub ids_for : Uuid → List (Uuid × Uuid) → List Uuid
ids_for owner [] = []
ids_for owner ((o, id) ∷ links) =
    let rest = ids_for owner links in if o == owner then id ∷ rest else rest

-- the join with the reference table, which is kept ORDER BY value
unfoldable pub items_for : List (Uuid × Uuid) → List RefItem → Uuid → List RefItem
unfolding member
items_for links items owner = select_rows (λ i. member i.id (ids_for owner links)) items

unfoldable pub interests_by_profile_id : Uuid → Exec (List RefItem)
unfolding items_for
interests_by_profile_id id = query (λ d. items_for d.profile_interests d.interests id)

-- Scan of no row is an error.
unfoldable pub step_of : Option User → Result Step
step_of none = err internal
step_of (some u) = ok u.onboarding_step

unfoldable pub onboarding_step : Uuid → Exec Step
unfolding step_of
onboarding_step user_id = statement (λ d. (step_of (first (has_user_id user_id) d.users), d))

-- count(*) … WHERE id = ANY(ids)
unfoldable pub count_items : List Uuid → List RefItem → ℕ
unfolding member
count_items ids items = count (λ i. member i.id ids) items

unfoldable pub count_interests : List Uuid → Exec ℕ
unfolding count_items
count_interests ids = query (λ d. count_items ids d.interests)

-- forward only
unfoldable pub behind : Uuid → Step → User → Bool
behind user_id target u = u.id == user_id && ltb (rank u.onboarding_step) (rank target)

abbrev pub set_step : Step → User → User
set_step target u = record u { onboarding_step = target }

unfoldable pub advance_step : Uuid → Step → Exec (Unit {0})
unfolding behind
advance_step user_id target =
    execute
      (λ d. record d { users = update_rows (behind user_id target) (set_step target) d.users })

abbrev pub new_profile : Uuid → Uuid → Text → Text → Date → Profile
new_profile id user_id name gender birth = record {
  id = id;
  user_id = user_id;
  name = name;
  gender = gender;
  birth_date = birth;
  description = [];
  dating_goal = none;
  height_cm = none;
  weight_kg = none;
  show_zodiac = false;
}

abbrev pub set_basics : Text → Text → Date → Profile → Profile
set_basics name gender birth p = record p { name = name; gender = gender; birth_date = birth }

-- INSERT … ON CONFLICT (user_id) DO UPDATE, with the foreign key to users and the primary key
unfoldable pub upsert_basics : Profile → Db → Result (Unit {0}) × Db
upsert_basics p d =
    if not (exists (has_user_id p.user_id) d.users)
    then (err internal, d)
    else if exists (of_user p.user_id) d.profiles
    then (
      ok tt,
      record d {
        profiles =
            update_rows (of_user p.user_id) (set_basics p.name p.gender p.birth_date) d.profiles;
      },
    )
    else if exists (has_profile_id p.id) d.profiles
    then (err internal, d)
    else (ok tt, record d { profiles = d.profiles ++ p ∷ [] })

-- `id` is gen_random_uuid()'s; the returned row is not used by the service
unfoldable pub save_basics : Uuid → Uuid → Text → Text → Date → Exec (Unit {0})
unfolding upsert_basics advance_step
save_basics id user_id name gender birth = in_tx (do
  statement (upsert_basics (new_profile id user_id name gender birth))
  advance_step user_id about)

abbrev pub set_about : AboutRequest → Profile → Profile
set_about req p = record p {
  description = trim_space req.description;
  dating_goal = some req.dating_goal;
  height_cm = req.height;
  weight_kg = req.weight;
  show_zodiac = req.show_zodiac;
}

unfoldable pub link_of : Uuid → Uuid × Uuid → Bool
link_of owner l = l.0 == owner

unfoldable pub same_link : Uuid → Uuid → Uuid × Uuid → Bool
same_link owner id l = l.0 == owner && l.1 == id

-- one row of profile_interests: its primary key, and the foreign key to interests
unfoldable pub insert_interest : Uuid → Uuid → Db → Result (Unit {0}) × Db
insert_interest profile_id id d =
    if exists (same_link profile_id id) d.profile_interests
      || not (exists (has_item_id id) d.interests)
    then (err internal, d)
    else (ok tt, record d { profile_interests = d.profile_interests ++ (profile_id, id) ∷ [] })

unfoldable pub insert_interests : Uuid → List Uuid → Exec (Unit {0})
unfolding insert_interest
insert_interests profile_id [] = pure tt
insert_interests profile_id (id ∷ ids) = do
  statement (insert_interest profile_id id)
  insert_interests profile_id ids

unfoldable pub update_about : Uuid → AboutRequest → Exec (Unit {0})
update_about profile_id req = execute (λ d. record d {
  profiles = update_rows (has_profile_id profile_id) (set_about req) d.profiles;
})

unfoldable pub clear_interests : Uuid → Exec (Unit {0})
clear_interests profile_id =
    execute
      (λ d. record d { profile_interests = delete_rows (link_of profile_id) d.profile_interests })

unfoldable pub save_about : Uuid → Uuid → AboutRequest → List Uuid → Exec (Unit {0})
unfolding update_about clear_interests insert_interests advance_step
save_about user_id profile_id req interest_ids = in_tx (do
  update_about profile_id req
  clear_interests profile_id
  insert_interests profile_id interest_ids
  advance_step user_id photos_step)

abbrev pub complete_user : User → User
complete_user u = record u { is_created_profile = true; onboarding_step = done }

unfoldable pub mark_complete : Uuid → Exec (Unit {0})
mark_complete user_id =
    execute (λ d. record d { users = update_rows (has_user_id user_id) complete_user d.users })
