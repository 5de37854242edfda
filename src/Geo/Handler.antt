-- ===== src/Geo/Handler.antt =====
-- internal/geo/handler.go. `caller` is the user id that the middleware left in the context, and
-- `body` what encoding/json makes of the body.
use meetgo_dating_server.Prelude.{Text, Option, List}
use meetgo_dating_server.Http.{json, no_content, decode_json}
use meetgo_dating_server.Schema.{Uuid, Clock}
use meetgo_dating_server.Exec.{Handler, answer, lift, or_throw, ◌>>=◌}
use meetgo_dating_server.Auth.Errors.{unauthorized}
use meetgo_dating_server.Geo.Repository.{CityDto}
use meetgo_dating_server.Geo.Service.{
  GeoLibs, UpdateGeoRequest, SetLocationRequest, LocationResponse, update_gps, set_location, search,
}

module _ (libs : GeoLibs) (caller : Option Uuid) where
  unfoldable pub handle_update_geo : Clock → Option UpdateGeoRequest → Handler (Unit {0})
  unfolding update_gps
  handle_update_geo clock body =
      answer (λ _. no_content)
        (do
          user_id ← or_throw caller unauthorized
          req ← lift (decode_json body)
          update_gps libs clock user_id req)

  unfoldable pub handle_search_cities : Text → Handler (List CityDto)
  unfolding search
  handle_search_cities q = answer (json 200) (or_throw caller unauthorized >>= λ _. search libs q)

  unfoldable pub handle_set_location : Option SetLocationRequest → Handler LocationResponse
  unfolding set_location
  handle_set_location body = answer (json 200) (do
    user_id ← or_throw caller unauthorized
    req ← lift (decode_json body)
    set_location libs user_id req)
