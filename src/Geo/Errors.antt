-- ===== src/Geo/Errors.antt =====
-- internal/geo/service.go, internalErr: what a failure of the database answers.
use meetgo_dating_server.Prelude.{◌≡◌, refl, Text, true, false, some, ◌∷◌, []}
use meetgo_dating_server.Http.{error_envelope}
use meetgo_dating_server.Schema.{Uuid, Clock, Point, Db}
use meetgo_dating_server.Exec.{Faults, pure, lift, or_throw, query, statement, ◌>>=◌}
use meetgo_dating_server.Geo.Repository.{current_geo, search_cities}
use meetgo_dating_server.Geo.Service.{
  GeoLibs, UpdateGeoRequest, point_of_request, too_rough, or_internal, take_fix, update_gps, search,
}
use meetgo_dating_server.Geo.Handler.{handle_update_geo, handle_search_cities}

-- When the first statement fails, the search and a fix within the bounds that is exact enough answer a
-- 500 whose message is the text of the database's error, and leave the database.
pub failure-shown :
    (libs : GeoLibs) (user_id : Uuid) (q : Text) (clock : Clock) (req : UpdateGeoRequest)
    (p : Point) (fs : Faults) (d : Db)
    → point_of_request req.lat req.lng ≡ some p
    → too_rough req.accuracy ≡ false
    → (handle_search_cities libs (some user_id) q (true ∷ fs) d
        ≡ (error_envelope 500 "INTERNAL" libs.error_text [], d, fs))
      × (handle_update_geo libs (some user_id) clock (some req) (true ∷ fs) d
          ≡ (error_envelope 500 "INTERNAL" libs.error_text [], d, fs))
unfolding handle_search_cities handle_update_geo search search_cities update_gps take_fix
    current_geo or_internal ◌>>=◌ pure lift or_throw query statement
failure-shown libs user_id q clock req p fs d in_bounds exact = (refl, rw in_bounds (rw exact refl))
