-- ===== src/Geo/Requests.antt =====
-- internal/geo/service.go: the requests that change a location.
use meetgo_dating_server.Prelude.{
  ◌≡◌, ◌∙◌, sym, arith, String, Text, first, exists, first-none, Bool, inl, inr, true, Option,
  Option-cases, none, some, List, [],
}
use meetgo_dating_server.Schema.{Uuid, Clock, Point, Db, City}
use meetgo_dating_server.Exec.{Faults, Exec, pure, statement, ◌>>=◌}
use meetgo_dating_server.Exec.Keeps.{Keeps, keeps_rules}
use meetgo_dating_server.Exec.Triples.{
  Triple, Triple-bind, Triple-query, Triple-if, Keeps-of_Triple, Triple-statement, both_Ends,
  Triple-pure,
}
use meetgo_dating_server.Exec.Runs.{run_all, run_all-Keeps}
use meetgo_dating_server.Geo.Repository.{
  GeoRow, has_city_id, set_manual, choose_city, city_exists, current_geo, nearest_city_id,
  mode_and_city,
}
use meetgo_dating_server.Geo.Service.{
  GeoLibs, UpdateGeoRequest, SetLocationRequest, or_internal, store_fix, take_fix, update_gps,
  switch_manual, nearest_to_fix, switch_auto, switch_mode, set_location,
}
use meetgo_dating_server.Geo.Effective.{
  IsPlaced, apply_gps-IsPlaced, set_auto-IsPlaced, choose_city-IsPlaced,
}

pub Keeps-or_internal {κ} :
    {A : Type 0} {P : Db → Type κ} (text : String) (m : Exec A)
    → Keeps P m
    → Keeps P (or_internal text m)
unfolding or_internal
Keeps-or_internal text m k = record { at = λ fs d h. k.at fs d h }

known_city :
    (city_id : Uuid) (cities : List City)
    → exists (has_city_id city_id) cities ≡ true
    → (c : City) × (first (has_city_id city_id) cities ≡ some c)
known_city city_id cities h = elim (Option-cases (first (has_city_id city_id) cities)) [
  | inl e ↦ let none_yet = first-none (has_city_id city_id) cities e in absurd (ground arith)
  | inr (c, e) ↦ (c, e)
]

set_manual-IsPlaced : (user_id city_id : Uuid) → Keeps IsPlaced (set_manual user_id city_id)
unfolding set_manual city_exists
set_manual-IsPlaced user_id city_id = Keeps-of_Triple _ (
    Triple-bind _ _ (Triple-query _ (λ d h. h))
      (λ found. Triple-if found _ _ (choose found) (λ t. Triple-pure _ (λ d h. h.0))))
  where
    at_db :
        (found : Bool) (d : Db)
        → found ≡ true
        → IsPlaced d × (found ≡ exists (has_city_id city_id) d.cities)
        → IsPlaced (choose_city user_id city_id d).1
    at_db found d t h =
        let (c, e) = known_city city_id d.cities (sym h.1 ∙ t) in
        choose_city-IsPlaced user_id city_id d c e h.0

    choose :
        (found : Bool)
        → found ≡ true
        → Triple
            (λ d. IsPlaced d × (found ≡ exists (has_city_id city_id) d.cities))
            (λ _. IsPlaced)
            IsPlaced
            (statement (choose_city user_id city_id) >>= λ _. pure true)
    choose found t =
        Triple-bind _ _
          (Triple-statement _ (λ d h. h.0)
            (λ d h.
              both_Ends IsPlaced
                ((choose_city user_id city_id d).0, (choose_city user_id city_id d).1, [])
                (at_db found d t h)))
          (λ u. Triple-pure _ (λ d h. h))

pub data GeoCall : Type 0 where
  gps_call : Clock → Uuid → UpdateGeoRequest → GeoCall
  location_call : Uuid → SetLocationRequest → GeoCall

module _ (libs : GeoLibs) where
  ruleset geo_rules =
      (keeps_rules, Keeps-or_internal, apply_gps-IsPlaced, set_auto-IsPlaced, set_manual-IsPlaced)

  update_gps-IsPlaced :
      (clock : Clock) (user_id : Uuid) (req : UpdateGeoRequest)
      → Keeps IsPlaced (update_gps libs clock user_id req)
  unfolding update_gps take_fix store_fix current_geo nearest_city_id
  update_gps-IsPlaced clock user_id req = search geo_rules depth 16

  switch_manual-IsPlaced :
      (user_id : Uuid) (raw : Option Text) → Keeps IsPlaced (switch_manual libs user_id raw)
  unfolding switch_manual
  switch_manual-IsPlaced user_id none = search geo_rules
  switch_manual-IsPlaced user_id (some raw) = search geo_rules depth 10

  nearest_to_fix-IsPlaced : (cur : Option GeoRow) → Keeps IsPlaced (nearest_to_fix libs cur)
  unfolding nearest_to_fix nearest_city_id
  nearest_to_fix-IsPlaced none = search geo_rules
  nearest_to_fix-IsPlaced (some g) = go g.gps
    where
      go :
          (o : Option Point)
          → Keeps IsPlaced (elim o as (λ _. Exec (Option Uuid)) [
            | none ↦ pure none
            | some p ↦ or_internal libs.error_text (nearest_city_id libs.distance p)
          ])
      go none = search geo_rules
      go (some p) = search geo_rules

  set_location-IsPlaced :
      (user_id : Uuid) (req : SetLocationRequest) → Keeps IsPlaced (set_location libs user_id req)
  unfolding set_location switch_mode switch_auto current_geo mode_and_city
  set_location-IsPlaced user_id req =
      search (geo_rules, switch_manual-IsPlaced, nearest_to_fix-IsPlaced) depth 16

  unfoldable pub geo_request : GeoCall → Faults → Db → Db
  geo_request (gps_call clock user_id req) fs d = (update_gps libs clock user_id req fs d).1
  geo_request (location_call user_id req) fs d = (set_location libs user_id req fs d).1

  geo_request-IsPlaced :
      (c : GeoCall) (fs : Faults) (d : Db) → IsPlaced d → IsPlaced (geo_request c fs d)
  unfolding geo_request
  geo_request-IsPlaced (gps_call clock user_id req) fs d h =
      (update_gps-IsPlaced clock user_id req).at fs d h
  geo_request-IsPlaced (location_call user_id req) fs d h =
      (set_location-IsPlaced user_id req).at fs d h

  -- Any requests on locations, whatever statements fail, keep: a user has at most one row; a row in the
  -- manual mode has a city of the gazetteer as its chosen and its resolved city, and that city's place
  -- as the effective point; a row in the automatic mode has no chosen city, and the last fix as the
  -- effective point.
  pub geo_requests-IsPlaced :
      (calls : List (GeoCall × Faults)) (d : Db)
      → IsPlaced d
      → IsPlaced (run_all geo_request calls d)
  geo_requests-IsPlaced calls d h =
      run_all-Keeps geo_request IsPlaced geo_request-IsPlaced calls d h
