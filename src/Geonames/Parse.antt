-- ===== src/Geonames/Parse.antt =====
-- cmd/geonames-import/main.go: parseCities and countrySet, on the lines of a dump. strings.ToUpper and
-- the package strconv are parameters; the coordinates of a dump are decimals.
use meetgo_dating_server.Prelude.{
  ℕ, zero, suc, ℤ, pos, negsuc, Text, codes, text_eq, trim_space, length, exists, join_rows, map,
  ltb, ◌==◌, if◌then◌else◌, Bool, true, ◌||◌, not, Option, none, some, List, [], ◌∷◌,
}
use meetgo_dating_server.Schema.{Point}
use meetgo_dating_server.Schema.Decimals.{Decimal}

pub record CityRec : Type 0 where
  pub geoname_id : ℤ
  pub name : Text
  pub country : Text
  pub region : Text
  pub population : ℕ
  pub location : Point

pub record Readers : Type 0 where
  pub to_upper : Text → Text
  -- the number that strconv.Atoi returns, also beside an error
  pub atoi : Text → ℤ
  pub parse_float : Text → Option Decimal
  pub parse_int : Text → Option ℤ

abbrev pub add_rune : ℕ → List Text → List Text
add_rune c [] = (c ∷ []) ∷ []
add_rune c (s ∷ parts) = (c ∷ s) ∷ parts

-- strings.Split by a separator of one rune
unfoldable pub split_on : ℕ → Text → List Text
split_on sep [] = [] ∷ []
split_on sep (c ∷ s) = let rest = split_on sep s in if c == sep then [] ∷ rest else add_rune c rest

abbrev tab : ℕ
tab = 9

abbrev comma : ℕ
comma = 44

-- f[n], read only where it is in range
abbrev pub field : ℕ → List Text → Text
field n [] = []
field zero (s ∷ f) = s
field (suc n) (s ∷ f) = field n f

abbrev pub settlement_codes : List Text
settlement_codes =
    codes "PPL"
    ∷ codes "PPLA"
    ∷ codes "PPLA2"
    ∷ codes "PPLA3"
    ∷ codes "PPLA4"
    ∷ codes "PPLA5"
    ∷ codes "PPLC"
    ∷ codes "PPLG"
    ∷ []

module _ (x : Readers) where
  -- `none` keeps every country
  unfoldable pub country_set : Text → Option (List Text)
  unfolding split_on
  country_set s =
      if text_eq (trim_space s) []
      then none
      else some (map (λ c. x.to_upper (trim_space c)) (split_on comma s))

  abbrev pub keeps : Option (List Text) → Text → Bool
  keeps none c = true
  keeps (some set) c = exists (text_eq c) set

  abbrev pub city_at : List Text → ℕ → Option Decimal → Option Decimal → Option ℤ → Option CityRec
  city_at f n (some lat) (some lng) (some id) = some (record {
    geoname_id = id;
    name = field 1 f;
    country = x.to_upper (field 8 f);
    region = field 10 f;
    population = n;
    location = record { lat = lat; lng = lng };
  })
  city_at f n _ _ _ = none

  -- `pop < minPop`, for a minimum that is not negative
  abbrev pub city_with : ℕ → List Text → ℤ → Option CityRec
  city_with min_pop f (negsuc n) = none
  city_with min_pop f (pos n) =
      if ltb n min_pop
      then none
      else city_at f n (x.parse_float (field 4 f)) (x.parse_float (field 5 f))
          (x.parse_int (field 0 f))

  abbrev pub not_settlement : List Text → Bool
  not_settlement f =
      ltb (length f) 15
      || not (text_eq (field 6 f) (codes "P"))
      || not (exists (text_eq (field 7 f)) settlement_codes)

  -- the body of the loop, on the fields of a line
  unfoldable pub city_of_fields : Option (List Text) → ℕ → List Text → Option CityRec
  city_of_fields keep min_pop f =
      if not_settlement f
      then none
      else if not (keeps keep (x.to_upper (field 8 f)))
      then none
      else city_with min_pop f (x.atoi (field 14 f))

  unfoldable pub parse_cities : Option (List Text) → ℕ → List Text → List CityRec
  unfolding city_of_fields split_on
  parse_cities keep min_pop lines =
      join_rows (λ line. city_of_fields keep min_pop (split_on tab line)) lines
