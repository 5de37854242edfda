-- ===== src/Geo/Haversine.antt =====
-- internal/geo/service.go, haversineKm. A float64 is its 64 bits, as a number; the arithmetic of the
-- processor, encoding/json's reading of a decimal and the functions of package math are parameters.
use meetgo_dating_server.Prelude.{ℕ, Bool}
use meetgo_dating_server.Schema.{Point}
use meetgo_dating_server.Schema.Decimals.{Decimal}

abbrev pub Float64 : Type 0
Float64 = ℕ

pub record Floats : Type 0 where
  pub of_nat : ℕ → Float64
  pub of_decimal : Decimal → Float64
  pub add : Float64 → Float64 → Float64
  pub sub : Float64 → Float64 → Float64
  pub mul : Float64 → Float64 → Float64
  pub div : Float64 → Float64 → Float64
  pub less : Float64 → Float64 → Bool
  -- the constant math.Pi / 180
  pub rad : Float64
  pub sin : Float64 → Float64
  pub cos : Float64 → Float64
  pub asin : Float64 → Float64
  pub sqrt : Float64 → Float64

module _ (x : Floats) where
  -- sin(angle/2) * sin(angle/2)
  unfoldable pub half_sine_squared : Float64 → Float64
  half_sine_squared angle = let s = x.sin (x.div angle (x.of_nat 2)) in x.mul s s

  unfoldable pub haversine_km : Point → Point → Float64
  unfolding half_sine_squared
  haversine_km p q =
      let lat1 = x.of_decimal p.lat in
      let lng1 = x.of_decimal p.lng in
      let lat2 = x.of_decimal q.lat in
      let lng2 = x.of_decimal q.lng in
      let d_lat = x.mul (x.sub lat2 lat1) x.rad in
      let d_lng = x.mul (x.sub lng2 lng1) x.rad in
      let a = x.add (half_sine_squared d_lat) (
        x.mul (x.mul (x.cos (x.mul lat1 x.rad)) (x.cos (x.mul lat2 x.rad)))
          (half_sine_squared d_lng)) in
      x.mul (x.mul (x.of_nat 6371) (x.of_nat 2)) (x.asin (x.sqrt a))
