-- ===== src/Tests/Import.antt =====
-- The import of cities, and the configuration, at concrete inputs.
use meetgo_dating_server.Exec.{◌>>◌}
use meetgo_dating_server.Prelude.{
  count, text_eq, ℕ, ℤ, pos, int_eq, if◌then◌else◌, codes, Text, ◌++◌, All, true, none, some, List,
  [], ◌∷◌, ◌≡◌, refl, arith, join_rows,
}
use meetgo_dating_server.Http.{ok}
use meetgo_dating_server.Schema.{empty_db}
use meetgo_dating_server.Schema.Decimals.{plus}
use meetgo_dating_server.Geonames.Parse.{Readers, CityRec, parse_cities, split_on}
use meetgo_dating_server.Geonames.Names.{parse_ru_names, name_of_fields}
use meetgo_dating_server.Geonames.Best.{best_name, parse_ru_names-best}
use meetgo_dating_server.Geonames.Import.{upsert_cities}
use meetgo_dating_server.Geonames.Loaded.{IsLoaded, upsert_cities-IsLoaded}
use meetgo_dating_server.Geonames.Kept.{IsKept, parse_cities-IsKept}
use meetgo_dating_server.Config.{Environment, loaded, load_config, read_config}
use meetgo_dating_server.Config.Secrets.{IsSecured, load_config-IsSecured}

-- Numbers are single code points.
abbrev readers : Readers
readers = record {
  to_upper = λ t. t;
  atoi = λ t. elim t [ [] ↦ pos 0 | c ∷ s ↦ pos c ];
  parse_float = λ t. elim t [ [] ↦ none | c ∷ s ↦ some (plus c) ];
  parse_int = λ t. elim t [ [] ↦ none | c ∷ s ↦ some (pos c) ];
}

abbrev tabbed : List Text → Text
tabbed [] = []
tabbed (s ∷ f) = s ++ (9 ∷ tabbed f)

abbrev kazan_line : Text
kazan_line = tabbed (
    (70 ∷ [])
    ∷ codes "Kazan"
    ∷ []
    ∷ []
    ∷ (55 ∷ [])
    ∷ (49 ∷ [])
    ∷ codes "P"
    ∷ codes "PPL"
    ∷ codes "RU"
    ∷ []
    ∷ codes "73"
    ∷ []
    ∷ []
    ∷ []
    ∷ (2000 ∷ [])
    ∷ [])

abbrev kazan : CityRec
kazan = record {
  geoname_id = pos 70;
  name = codes "Kazan";
  country = codes "RU";
  region = codes "73";
  population = 2000;
  location = record { lat = plus 55; lng = plus 49 };
}

kazan_parsed : parse_cities readers none 1000 (kazan_line ∷ []) ≡ kazan ∷ []
unfolding parse_cities join_rows text_eq count
kazan_parsed = refl

parse_cities-IsKept_example :
    All
      (IsKept readers none 1000 (kazan_line ∷ []))
      (parse_cities readers none 1000 (kazan_line ∷ []))
parse_cities-IsKept_example = parse_cities-IsKept readers none 1000 (kazan_line ∷ [])

abbrev alt_line : Text → Text → Text
alt_line name preferred = tabbed ([] ∷ (70 ∷ []) ∷ codes "ru" ∷ name ∷ preferred ∷ [])

abbrev alt_lines : List Text
alt_lines =
    alt_line (codes "K") [] ∷ alt_line (codes "Kazan'") (codes "1") ∷ alt_line (codes "Q") [] ∷ []

alt_chosen : parse_ru_names readers (λ i. true) alt_lines (pos 70) ≡ some (codes "Kazan'")
unfolding parse_ru_names join_rows split_on text_eq
alt_chosen = refl

parse_ru_names-best_example :
    parse_ru_names readers (λ i. true) alt_lines (pos 70)
    ≡ best_name
        (pos 70)
        (join_rows (λ line. name_of_fields readers (λ i. true) (split_on 9 line)) alt_lines)
parse_ru_names-best_example = parse_ru_names-best readers (λ i. true) alt_lines (pos 70)

abbrev moscow : CityRec
moscow = record kazan { geoname_id = pos 71; name = codes "Moscow" }

abbrev ids : ℤ → ℕ
ids i = if int_eq i (pos 70) then 1 else 2

loop_ends : (upsert_cities ids (λ i. none) (kazan ∷ moscow ∷ []) [] empty_db).0 ≡ ok tt
unfolding upsert_cities ◌>>◌ count
loop_ends = refl

upsert_cities-IsLoaded_example :
    All
      (λ c.
        IsLoaded (λ i. none) c (upsert_cities ids (λ i. none) (kazan ∷ moscow ∷ []) [] empty_db).1)
      (kazan ∷ moscow ∷ [])
upsert_cities-IsLoaded_example =
    upsert_cities-IsLoaded ids (λ i. none) (kazan ∷ moscow ∷ []) [] empty_db (ground arith)
      loop_ends

abbrev environment : Environment
environment = record {
  lookup = λ key. some (codes "x");
  parse_bool = λ t. none;
  parse_duration = λ t. none;
  atoi = λ t. none;
}

config_loaded : load_config environment ≡ loaded (read_config environment)
unfolding load_config text_eq
config_loaded = refl

load_config-IsSecured_example : IsSecured environment (read_config environment)
load_config-IsSecured_example =
    load_config-IsSecured environment (read_config environment) config_loaded
