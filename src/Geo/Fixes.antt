-- ===== src/Geo/Fixes.antt =====
-- internal/geo/service.go: which fixes of the GPS UpdateGPS stores.
use meetgo_dating_server.Prelude.{
  ◌<◌, ℕ, none, ◌+◌, ◌≤◌, Memᴰ, ◌≡◌, ◌⊎◌, first, true, false, Option, some,
}
use meetgo_dating_server.Http.{Result}
use meetgo_dating_server.Schema.{Time, Uuid, Clock, Point, UserGeo, Db}
use meetgo_dating_server.Schema.Decimals.{Decimal, plus, minus}
use meetgo_dating_server.Meeting.Feed.Rows.{geo_of}
use meetgo_dating_server.Geo.Haversine.{haversine_km}
use meetgo_dating_server.Geo.Repository.{
  GeoRow, to_geo_row, id_of, nearest_of, new_fix, set_fix, upsert_geo,
}
use meetgo_dating_server.Geo.Service.{GeoLibs, UpdateGeoRequest}

-- A coordinate, in millionths, of at most b either side of 0.
abbrev pub IsWithin : ℕ → Decimal → Type 0
IsWithin b (plus n) = n ≤ b
IsWithin b (minus n) = n ≤ b

-- No accuracy, or one of at most 10000 metres, in millionths.
abbrev pub IsExact : Option Decimal → Type 0
IsExact none = Unit
IsExact (some (plus n)) = n ≤ 10000000000
IsExact (some (minus n)) = Unit

module _ (clock : Clock) (user_id : Uuid) (req : UpdateGeoRequest) where
  -- The row of the fix, which has its place in effect.
  pub record IsStored (p : Point) (after : Db) : Type 0 where
    pub row : UserGeo
    pub is_row : Memᴰ row after.user_geo
    pub owned : row.user_id ≡ user_id
    pub at : row.gps ≡ some p
    pub accuracy : row.gps_accuracy ≡ req.accuracy
    pub updated_at : row.gps_updated_at ≡ some clock.db
    pub effective : row.effective_point ≡ some p

module _ (libs : GeoLibs) (clock : Clock) (user_id : Uuid) (req : UpdateGeoRequest) (d : Db) where
  -- the user's last fix, as the request reads it
  abbrev pub last_fix : Option GeoRow
  last_fix = to_geo_row (first (geo_of user_id) d.user_geo)

  -- what is stored of a fix at `p`
  abbrev stored_fix : Point → Result (Unit {0}) × Db
  stored_fix p =
      let near = id_of (nearest_of (λ c. libs.distance p c.location) d.cities) in
      upsert_geo user_id (new_fix user_id p req.accuracy clock.db near)
        (set_fix p req.accuracy clock.db near) d

  -- The last fix of a row is 15 minutes old, or at most 300 km from the point by haversineKm.
  abbrev pub IsNear : UserGeo → Point → Type 0
  IsNear g p =
      (last : Point) (t : Time)
      → g.gps ≡ some last
      → g.gps_updated_at ≡ some t
      → (t + 900000000000 ≤ clock.app)
        ⊎ (libs.floats.less (libs.floats.of_nat 300) (haversine_km libs.floats last p) ≡ false)

  -- The fixes that are not stored: an accuracy of more than 10000 metres, or more than 300 km by haversineKm
  -- from the user's last fix, less than 15 minutes after it.
  abbrev pub IsDropped : Point → Type 0
  IsDropped p =
      ((n : ℕ) × (req.accuracy ≡ some (plus n)) × (10000000000 < n))
      ⊎ ((g : UserGeo) × (last : Point) × (t : Time) × (first (geo_of user_id) d.user_geo ≡ some g)
          × (g.gps ≡ some last)
          × (g.gps_updated_at ≡ some t)
          × (clock.app < t + 900000000000)
          × (libs.floats.less (libs.floats.of_nat 300) (haversine_km libs.floats last p) ≡ true))
