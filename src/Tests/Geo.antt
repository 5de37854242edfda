-- ===== src/Tests/Geo.antt =====
-- Locations and cities at concrete tables.
use meetgo_dating_server.Auth.Repository.{has_user_id}
use meetgo_dating_server.Prelude.{
  ℕ, ltb, ◌+◌, ◌*◌, ◌/◌, pos, codes, text_eq, first, count, All, true, false, none, some, List, [],
  ◌∷◌, ◌≡◌, ◌≤◌, refl, arith, length,
}
use meetgo_dating_server.Http.{ok}
use meetgo_dating_server.Schema.{Clock, City, UserGeo, auto, manual, done, Db, empty_db}
use meetgo_dating_server.Schema.Decimals.{plus}
use meetgo_dating_server.Exec.{Faults}
use meetgo_dating_server.Exec.Runs.{run_all}
use meetgo_dating_server.Meeting.Feed.Rows.{geo_of}
use meetgo_dating_server.Geo.Repository.{
  has_city_id, to_city_dto, cities_like, like_pattern, matches_city,
}
use meetgo_dating_server.Geo.Service.{
  GeoLibs, UpdateGeoRequest, SetLocationRequest, update_gps, set_location,
}
use meetgo_dating_server.Geo.Effective.{IsPlaced}
use meetgo_dating_server.Geo.Requests.{
  GeoCall, gps_call, location_call, geo_request, geo_requests-IsPlaced,
}
use meetgo_dating_server.Geo.Manual.{IsAt, update_gps-IsAt}
use meetgo_dating_server.Geo.Chosen.{IsSeen, set_location-chosen}
use meetgo_dating_server.Geo.Search.{ByPopulation, cities_like-ByPopulation}
use meetgo_dating_server.Tests.Fixtures.{user_at}
use meetgo_dating_server.Tests.Feed.{magnitude}

abbrev pub libs : GeoLibs
libs = record {
  distance = λ p q. magnitude q.lat;
  floats = record {
    of_nat = λ n. n;
    of_decimal = magnitude;
    add = λ a b. a + b;
    sub = λ a b. a;
    mul = λ a b. a * b;
    div = λ a b. a / b;
    less = ltb;
    rad = 1;
    sin = λ a. a;
    cos = λ a. 1;
    asin = λ a. a;
    sqrt = λ a. a;
  };
  to_upper = λ t. t;
  parse_uuid = λ t. elim t [ [] ↦ none | c ∷ s ↦ some c ];
  ilike = λ name pattern. true;
  error_text = "geo: search cities: timeout";
}

abbrev city_of : ℕ → ℕ → ℕ → City
city_of id lat population = record {
  id = id;
  geoname_id = pos id;
  name = codes "Kazan";
  name_ru = none;
  country = codes "RU";
  region = none;
  population = population;
  location = record { lat = plus lat; lng = plus 0 };
}

abbrev volga : Db
volga = record empty_db {
  users = user_at done true ∷ [];
  cities = city_of 50 9000000 10 ∷ city_of 51 4000000 30 ∷ [];
}

abbrev at : ℕ → Clock
at t = record { app = t; db = t }

abbrev pub fix : ℕ → UpdateGeoRequest
fix lat = record { lat = some (plus lat); lng = some (plus 0); accuracy = none }

abbrev pub choice : SetLocationRequest
choice = record { mode = codes "MANUAL"; city_id = some (50 ∷ []) }

abbrev back : SetLocationRequest
back = record { mode = codes "AUTO"; city_id = none }

abbrev calls : List (GeoCall × Faults)
calls =
    (gps_call (at 5) 1 (fix 3000000), [])
    ∷ (location_call 1 choice, false ∷ true ∷ [])
    ∷ (location_call 1 choice, [])
    ∷ (gps_call (at 9) 1 (fix 5000000), [])
    ∷ (location_call 1 back, [])
    ∷ []

volga-IsPlaced : IsPlaced volga
unfolding count
volga-IsPlaced = record { follows = tt; one_row = λ u. omega arith }

geo_requests-IsPlaced_example : IsPlaced (run_all (geo_request libs) calls volga)
geo_requests-IsPlaced_example = geo_requests-IsPlaced libs calls volga volga-IsPlaced

kazan : first (has_city_id 50) volga.cities ≡ some (city_of 50 9000000 10)
unfolding first has_city_id
kazan = refl

set_location-chosen_example :
    let r = set_location libs 1 choice [] volga in
    (r.0 ≡ ok (record { mode = manual; city = some (to_city_dto (city_of 50 9000000 10)) }))
    × IsSeen 1 50 volga (city_of 50 9000000 10) kazan r.1
unfolding count has_user_id text_eq
set_location-chosen_example =
    set_location-chosen 1 50 volga (city_of 50 9000000 10) kazan libs (codes "MANUAL") (50 ∷ [])
      refl refl refl

abbrev chosen_row : UserGeo
chosen_row = record {
  user_id = 1;
  mode = manual;
  manual_city_id = some 50;
  gps = none;
  gps_accuracy = none;
  gps_updated_at = none;
  effective_point = some (record { lat = plus 9000000; lng = plus 0 });
  resolved_city_id = some 50;
}

abbrev chosen_db : Db
chosen_db = record volga { user_geo = chosen_row ∷ [] }

chosen_db-IsAt : IsAt 1 chosen_row.effective_point (some 50) chosen_db
unfolding first geo_of
chosen_db-IsAt = record {
  row = chosen_row;
  has_row = refl;
  is_manual = refl;
  is_effective = refl;
  is_resolved = refl;
}

update_gps-IsAt_example :
    IsAt 1 chosen_row.effective_point
      (some 50)
      (update_gps libs (at 7) 1 (fix 3000000) (false ∷ true ∷ []) chosen_db).1
update_gps-IsAt_example =
    update_gps-IsAt 1 chosen_row.effective_point (some 50) libs (at 7) (fix 3000000)
      (false ∷ true ∷ []) chosen_db chosen_db-IsAt

abbrev fixed_row : UserGeo
fixed_row = record {
  user_id = 1;
  mode = auto;
  manual_city_id = none;
  gps = some (record { lat = plus 0; lng = plus 0 });
  gps_accuracy = none;
  gps_updated_at = some 4;
  effective_point = some (record { lat = plus 0; lng = plus 0 });
  resolved_city_id = none;
}

abbrev fixed_db : Db
fixed_db = record volga { user_geo = fixed_row ∷ [] }

cities_like-ByPopulation_example :
    let found = cities_like libs.ilike (codes "Ka") 20 volga.cities in
    All (λ c. matches_city libs.ilike (like_pattern (codes "Ka")) c ≡ true) found
    × ByPopulation found
    × (length found ≤ 20)
cities_like-ByPopulation_example = cities_like-ByPopulation libs.ilike (codes "Ka") 20 volga.cities
