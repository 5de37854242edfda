-- ===== src/Geonames/Import.antt =====
-- cmd/geonames-import/main.go: run, after the dumps have been read.
use meetgo_dating_server.Prelude.{
  ℤ, int_eq, ℕ, Text, exists, update_rows, if◌then◌else◌, Bool, true, false, Option, none, some,
  List, [], ◌∷◌, ◌++◌,
}
use meetgo_dating_server.Http.{internal, Result, ok, err}
use meetgo_dating_server.Schema.{Uuid, City, Db}
use meetgo_dating_server.Exec.{Exec, pure, raise, execute, statement, ◌>>◌}
use meetgo_dating_server.Geo.Repository.{has_city_id}
use meetgo_dating_server.Geonames.Parse.{CityRec, Readers, country_set, parse_cities}
use meetgo_dating_server.Geonames.Names.{parse_ru_names}

abbrev pub nullable : Option Text → Option Text
nullable none = none
nullable (some []) = none
nullable (some (c ∷ s)) = some (c ∷ s)

unfoldable pub has_geoname : ℤ → City → Bool
has_geoname id c = int_eq c.geoname_id id

abbrev pub new_city : Uuid → CityRec → Option Text → City
new_city id c name_ru = record {
  id = id;
  geoname_id = c.geoname_id;
  name = c.name;
  name_ru = name_ru;
  country = c.country;
  region = some c.region;
  population = c.population;
  location = c.location;
}

abbrev pub set_city : CityRec → Option Text → City → City
set_city c name_ru row = record row {
  name = c.name;
  name_ru = name_ru;
  country = c.country;
  region = some c.region;
  population = c.population;
  location = c.location;
}

-- INSERT … ON CONFLICT (geoname_id) DO UPDATE; `id` is what gen_random_uuid() gives a new row
unfoldable pub upsert_city : Uuid → CityRec → Option Text → Db → Result (Unit {0}) × Db
unfolding has_geoname has_city_id
upsert_city id c name_ru d =
    if exists (has_geoname c.geoname_id) d.cities
    then (
      ok tt,
      record d { cities = update_rows (has_geoname c.geoname_id) (set_city c name_ru) d.cities },
    )
    else if exists (has_city_id id) d.cities
    then (err internal, d)
    else (ok tt, record d { cities = d.cities ++ new_city id c name_ru ∷ [] })

unfoldable pub upsert_cities : (ℤ → Uuid) → (ℤ → Option Text) → List CityRec → Exec (Unit {0})
unfolding upsert_city
upsert_cities ids names [] = pure tt
upsert_cities ids names (c ∷ cities) =
    statement (upsert_city (ids c.geoname_id) c (nullable (names c.geoname_id)))
    >> upsert_cities ids names cities

-- TRUNCATE cities CASCADE, which empties user_geo, whose rows refer to cities
abbrev pub truncate_cities : Db → Db
truncate_cities d = record d { cities = []; user_geo = [] }

abbrev pub is_imported : List CityRec → ℤ → Bool
is_imported cities id = exists (λ (c : CityRec). int_eq c.geoname_id id) cities

-- A dump that was asked for is `some`, and what reading it gives is its lines, or nothing after an error.
abbrev pub read_names :
    Readers → List CityRec → Option (Option (List Text)) → Option (ℤ → Option Text)
read_names x cities none = some (λ _. none)
read_names x cities (some none) = none
read_names x cities (some (some lines)) = some (parse_ru_names x (is_imported cities) lines)

unfoldable pub load : Bool → (ℤ → Uuid) → Option (ℤ → Option Text) → List CityRec → Exec (Unit {0})
unfolding upsert_cities
load truncate ids none cities = raise internal
load true ids (some names) cities = execute truncate_cities >> upsert_cities ids names cities
load false ids (some names) cities = upsert_cities ids names cities

unfoldable pub run_import :
    Readers
    → (ℤ → Uuid)
    → Option (List Text)
    → Option (Option (List Text))
    → Text
    → ℕ
    → Bool
    → Exec (Unit {0})
unfolding load country_set parse_cities parse_ru_names
run_import x ids none alt country min_pop truncate = raise internal
run_import x ids (some lines) alt country min_pop truncate =
    let cities = parse_cities x (country_set x country) min_pop lines in
    load truncate ids (read_names x cities alt) cities
