-- ===== src/Geo/Repository.antt =====
-- internal/geo/geo.go and dto.go. Distances of PostGIS, and ILIKE, are parameters.
use meetgo_dating_server.Prelude.{
  ℕ, ◌++◌, codes, Text, first, exists, select_rows, update_rows, take, map, ltb, ◌==◌,
  if◌then◌else◌, Bool, true, false, ◌||◌, Option, none, some, List, [], ◌∷◌,
}
use meetgo_dating_server.Http.{internal, Result, ok, err}
use meetgo_dating_server.Schema.{Uuid, Time, City, Point, GeoMode, auto, manual, UserGeo, Db}
use meetgo_dating_server.Schema.Decimals.{Decimal}
use meetgo_dating_server.Exec.{Exec, statement, query, ◌>>=◌, pure}
use meetgo_dating_server.Auth.Repository.{has_user_id}
use meetgo_dating_server.Profile.Repository.{city_name}
use meetgo_dating_server.Meeting.Feed.Rows.{geo_of}

pub record GeoRow : Type 0 where
  pub mode : GeoMode
  pub gps : Option Point
  pub gps_updated_at : Option Time

pub record CityDto : Type 0 where
  pub id : Uuid
  pub name : Text
  pub region : Option Text

abbrev pub to_city_dto : City → CityDto
to_city_dto c = record { id = c.id; name = city_name c; region = c.region }

abbrev pub to_geo_row : Option UserGeo → Option GeoRow
to_geo_row none = none
to_geo_row (some g) =
    some (record { mode = g.mode; gps = g.gps; gps_updated_at = g.gps_updated_at })

unfoldable pub current_geo : Uuid → Exec (Option GeoRow)
unfolding geo_of
current_geo user_id = query (λ d. to_geo_row (first (geo_of user_id) d.user_geo))

-- ORDER BY location <-> point LIMIT 1, with the distance of PostGIS
abbrev pub closer : (City → ℕ) → City → Option City → City
closer far c none = c
closer far c (some b) = if ltb (far b) (far c) then b else c

unfoldable pub nearest_of : (City → ℕ) → List City → Option City
nearest_of far [] = none
nearest_of far (c ∷ cities) = some (closer far c (nearest_of far cities))

abbrev pub id_of : Option City → Option Uuid
id_of none = none
id_of (some c) = some c.id

unfoldable pub nearest_city_id : (Point → Point → ℕ) → Point → Exec (Option Uuid)
unfolding nearest_of
nearest_city_id distance p = query (λ d. id_of (nearest_of (λ c. distance p c.location) d.cities))

unfoldable pub has_city_id : Uuid → City → Bool
has_city_id id c = c.id == id

-- INSERT … ON CONFLICT (user_id) DO UPDATE: the row that is there, or a new one, whose user exists.
abbrev pub upsert_geo : Uuid → UserGeo → (UserGeo → UserGeo) → Db → Result (Unit {0}) × Db
upsert_geo user_id fresh f d =
    if exists (geo_of user_id) d.user_geo
    then (ok tt, record d { user_geo = update_rows (geo_of user_id) f d.user_geo })
    else if exists (has_user_id user_id) d.users
    then (ok tt, record d { user_geo = d.user_geo ++ fresh ∷ [] })
    else (err internal, d)

unfoldable pub new_fix : Uuid → Point → Option Decimal → Time → Option Uuid → UserGeo
new_fix user_id p accuracy now city = record {
  user_id = user_id;
  mode = auto;
  manual_city_id = none;
  gps = some p;
  gps_accuracy = accuracy;
  gps_updated_at = some now;
  effective_point = some p;
  resolved_city_id = city;
}

-- CASE WHEN user_geo.mode = 'MANUAL' THEN … ELSE … END
abbrev pub case_manual : {A : Type 0} → GeoMode → A → A → A
case_manual manual kept fresh = kept
case_manual auto kept fresh = fresh

unfoldable pub set_fix : Point → Option Decimal → Time → Option Uuid → UserGeo → UserGeo
set_fix p accuracy now city g = record g {
  gps = some p;
  gps_accuracy = accuracy;
  gps_updated_at = some now;
  effective_point = case_manual g.mode g.effective_point (some p);
  resolved_city_id = case_manual g.mode g.resolved_city_id city;
}

unfoldable pub apply_gps : Time → Uuid → Point → Option Decimal → Option Uuid → Exec (Unit {0})
unfolding geo_of has_user_id new_fix set_fix
apply_gps now user_id p accuracy city =
    statement
      (upsert_geo user_id (new_fix user_id p accuracy now city) (set_fix p accuracy now city))

unfoldable pub city_exists : Uuid → Exec Bool
unfolding has_city_id
city_exists city_id = query (λ d. exists (has_city_id city_id) d.cities)

-- SELECT location FROM cities WHERE id = $2
abbrev pub location_of : Option City → Option Point
location_of none = none
location_of (some c) = some c.location

unfoldable pub new_choice : Uuid → Uuid → Option Point → UserGeo
new_choice user_id city_id p = record {
  user_id = user_id;
  mode = manual;
  manual_city_id = some city_id;
  gps = none;
  gps_accuracy = none;
  gps_updated_at = none;
  effective_point = p;
  resolved_city_id = some city_id;
}

unfoldable pub set_choice : Uuid → Option Point → UserGeo → UserGeo
set_choice city_id p g = record g {
  mode = manual;
  manual_city_id = some city_id;
  effective_point = p;
  resolved_city_id = some city_id;
}

unfoldable pub choose_city : Uuid → Uuid → Db → Result (Unit {0}) × Db
unfolding geo_of has_user_id has_city_id new_choice set_choice
choose_city user_id city_id d =
    let p = location_of (first (has_city_id city_id) d.cities) in
    upsert_geo user_id (new_choice user_id city_id p) (set_choice city_id p) d

unfoldable pub set_manual : Uuid → Uuid → Exec Bool
unfolding city_exists choose_city
set_manual user_id city_id = do
  found ← city_exists city_id
  if found then (statement (choose_city user_id city_id) >>= λ _. pure true) else pure false

unfoldable pub set_auto_row : Option Uuid → UserGeo → UserGeo
set_auto_row city g = record g {
  mode = auto;
  manual_city_id = none;
  effective_point = g.gps;
  resolved_city_id = city;
}

unfoldable pub set_auto : Uuid → Option Uuid → Exec (Unit {0})
unfolding geo_of set_auto_row
set_auto user_id city = statement (λ d.
    (ok tt, record d { user_geo = update_rows (geo_of user_id) (set_auto_row city) d.user_geo }))

-- `c.id` is null where the join finds no city
abbrev pub city_found : Option City → Option CityDto
city_found none = none
city_found (some c) = some (to_city_dto c)

unfoldable pub joined_city : UserGeo → List City → Option City
unfolding has_city_id
joined_city g cities = elim g.resolved_city_id [
  | none ↦ none
  | some id ↦ first (has_city_id id) cities
]

abbrev pub mode_and_city_of : Option UserGeo → List City → GeoMode × Option CityDto
mode_and_city_of none cities = (auto, none)
mode_and_city_of (some g) cities = (g.mode, city_found (joined_city g cities))

unfoldable pub mode_and_city : Uuid → Exec (GeoMode × Option CityDto)
unfolding geo_of joined_city
mode_and_city user_id = query (λ d. mode_and_city_of (first (geo_of user_id) d.user_geo) d.cities)

-- `pattern` is '%' || q || '%'
abbrev pub like_pattern : Text → Text
like_pattern q = codes "%" ++ (q ++ codes "%")

unfoldable pub matches_city : (Text → Text → Bool) → Text → City → Bool
matches_city ilike pattern c =
    ilike c.name pattern || elim c.name_ru [ none ↦ false | some name ↦ ilike name pattern ]

-- ORDER BY population DESC
unfoldable pub insert_by_population : City → List City → List City
insert_by_population c [] = c ∷ []
insert_by_population c (b ∷ cities) =
    let rest = insert_by_population c cities in
    if ltb c.population b.population then b ∷ rest else c ∷ b ∷ cities

unfoldable pub by_population : List City → List City
unfolding insert_by_population
by_population [] = []
by_population (c ∷ cities) = insert_by_population c (by_population cities)

unfoldable pub cities_like : (Text → Text → Bool) → Text → ℕ → List City → List City
unfolding matches_city by_population
cities_like ilike q limit cities =
    take limit (by_population (select_rows (matches_city ilike (like_pattern q)) cities))

unfoldable pub search_cities : (Text → Text → Bool) → Text → ℕ → Exec (List CityDto)
unfolding cities_like
search_cities ilike q limit = query (λ d. map to_city_dto (cities_like ilike q limit d.cities))
