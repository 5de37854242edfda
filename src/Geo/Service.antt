-- ===== src/Geo/Service.antt =====
-- internal/geo/service.go. The distances of PostGIS, float arithmetic, strings.ToUpper and uuid.Parse
-- are parameters, as is the text of a failure of the database.
use meetgo_dating_server.Prelude.{
  ℕ, ◌+◌, ◌*◌, String, codes, Text, text_eq, trim_space, ltb, if◌then◌else◌, Bool, false, ◌&&◌,
  ◌||◌, Option, none, some, List, [], ◌∷◌,
}
use meetgo_dating_server.Http.{
  ApiError, Failure, api, internal, Result, ok, err, new_error, validation_error,
}
use meetgo_dating_server.Schema.{Uuid, Time, Clock, Point, GeoMode}
use meetgo_dating_server.Schema.Decimals.{Decimal, plus, minus, above, units}
use meetgo_dating_server.Exec.{Exec, pure, throw, or_throw, ◌>>=◌, ◌>>◌}
use meetgo_dating_server.Geo.Haversine.{Floats, haversine_km}
use meetgo_dating_server.Geo.Repository.{
  GeoRow, CityDto, current_geo, nearest_city_id, apply_gps, set_manual, set_auto, mode_and_city,
  search_cities,
}

pub record UpdateGeoRequest : Type 0 where
  pub lat : Option Decimal
  pub lng : Option Decimal
  pub accuracy : Option Decimal

pub record SetLocationRequest : Type 0 where
  pub mode : Text
  pub city_id : Option Text

pub record LocationResponse : Type 0 where
  pub mode : GeoMode
  pub city : Option CityDto

abbrev pub accuracy_max_meters : ℕ
accuracy_max_meters = 10000

abbrev pub jump_max_km : ℕ
jump_max_km = 300

-- in nanoseconds
abbrev pub jump_window : ℕ
jump_window = 15 * 60 * 1000000000

abbrev pub cities_limit : ℕ
cities_limit = 20

abbrev pub city_not_found : ApiError
city_not_found = new_error 404 "CITY_NOT_FOUND" "city not found"

pub record GeoLibs : Type 0 where
  -- the order by `<->` of PostGIS
  pub distance : Point → Point → ℕ
  pub floats : Floats
  pub to_upper : Text → Text
  pub parse_uuid : Text → Option Uuid
  pub ilike : Text → Text → Bool
  -- what err.Error() says
  pub error_text : String

abbrev pub internal_err : String → Failure → Failure
internal_err text internal = api (new_error 500 "INTERNAL" text)
internal_err text (api e) = api e

abbrev pub wrap_err {ℓ} : {A : Type ℓ} → String → Result A → Result A
wrap_err text (ok a) = ok a
wrap_err text (err e) = err (internal_err text e)

-- `if err != nil { return internalErr(err) }`
unfoldable pub or_internal {ℓ} : {A : Type ℓ} → String → Exec A → Exec A
or_internal text m fs d = let r = m fs d in (wrap_err text r.0, r.1, r.2)

-- a bound on a coordinate, in degrees: `x < -b || x > b`
abbrev pub out_of : ℕ → Decimal → Bool
out_of b (plus n) = ltb (units b) n
out_of b (minus n) = ltb (units b) n

abbrev pub bad_point : ApiError
bad_point = validation_error (("lat", "required, -90..90") ∷ ("lng", "required, -180..180") ∷ [])

-- the point of a request, if it has one
abbrev pub point_of_request : Option Decimal → Option Decimal → Option Point
point_of_request (some lat) (some lng) =
    if out_of 90 lat || out_of 180 lng then none else some (record { lat = lat; lng = lng })
point_of_request (some lat) none = none
point_of_request none lng = none

abbrev pub too_rough : Option Decimal → Bool
too_rough none = false
too_rough (some v) = above v (units accuracy_max_meters)

-- far from the last fix, soon after it; time.Since may be negative
abbrev pub jumps : Floats → Time → Option Point → Option Time → Point → Bool
jumps floats now (some last) (some then_) p =
    ltb now (then_ + jump_window)
    && floats.less (floats.of_nat jump_max_km) (haversine_km floats last p)
jumps floats now _ _ p = false

unfoldable pub implausible : Floats → Time → Option GeoRow → Point → Bool
implausible floats now none p = false
implausible floats now (some g) p = jumps floats now g.gps g.gps_updated_at p

module _ (libs : GeoLibs) where
  unfoldable pub store_fix : Clock → Uuid → Point → Option Decimal → Exec (Unit {0})
  unfolding nearest_city_id apply_gps
  store_fix clock user_id p accuracy = do
    city ← or_internal libs.error_text (nearest_city_id libs.distance p)
    or_internal libs.error_text (apply_gps clock.db user_id p accuracy city)

  unfoldable pub take_fix : Clock → Uuid → Point → Option Decimal → Exec (Unit {0})
  unfolding current_geo implausible store_fix
  take_fix clock user_id p accuracy = do
    cur ← or_internal libs.error_text (current_geo user_id)
    if implausible libs.floats clock.app cur p then pure tt else store_fix clock user_id p accuracy

  unfoldable pub update_gps : Clock → Uuid → UpdateGeoRequest → Exec (Unit {0})
  unfolding take_fix
  update_gps clock user_id req = do
    p ← or_throw (point_of_request req.lat req.lng) bad_point
    if too_rough req.accuracy then pure tt else take_fix clock user_id p req.accuracy

  abbrev pub city_required : ApiError
  city_required = validation_error (("cityId", "required for MANUAL") ∷ [])

  unfoldable pub switch_manual : Uuid → Option Text → Exec (Unit {0})
  unfolding set_manual
  switch_manual user_id none = throw city_required
  switch_manual user_id (some raw) = do
    city_id ← or_throw (libs.parse_uuid raw) city_not_found
    found ← or_internal libs.error_text (set_manual user_id city_id)
    if found then pure tt else throw city_not_found

  -- the city next to the stored fix
  unfoldable pub nearest_to_fix : Option GeoRow → Exec (Option Uuid)
  unfolding nearest_city_id
  nearest_to_fix none = pure none
  nearest_to_fix (some g) = elim g.gps [
    | none ↦ pure none
    | some p ↦ or_internal libs.error_text (nearest_city_id libs.distance p)
  ]

  unfoldable pub switch_auto : Uuid → Exec (Unit {0})
  unfolding current_geo nearest_to_fix set_auto
  switch_auto user_id = do
    cur ← or_internal libs.error_text (current_geo user_id)
    city ← nearest_to_fix cur
    or_internal libs.error_text (set_auto user_id city)

  unfoldable pub switch_mode : Uuid → SetLocationRequest → Exec (Unit {0})
  unfolding switch_manual switch_auto
  switch_mode user_id req =
      if text_eq (libs.to_upper req.mode) (codes "MANUAL")
      then switch_manual user_id req.city_id
      else if text_eq (libs.to_upper req.mode) (codes "AUTO")
      then switch_auto user_id
      else throw (validation_error (("mode", "must be AUTO or MANUAL") ∷ []))

  unfoldable pub set_location : Uuid → SetLocationRequest → Exec LocationResponse
  unfolding switch_mode mode_and_city
  set_location user_id req = switch_mode user_id req >> (do
    found ← or_internal libs.error_text (mode_and_city user_id)
    pure (record { mode = found.0; city = found.1 }))

  unfoldable pub search : Text → Exec (List CityDto)
  unfolding search_cities
  search q = or_internal libs.error_text (search_cities libs.ilike (trim_space q) cities_limit)
