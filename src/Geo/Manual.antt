-- ===== src/Geo/Manual.antt =====
-- internal/geo/service.go: the user's row in the manual mode.
use meetgo_dating_server.Prelude.{
  exists-first, ◌≡◌, refl, ap, ◌∙◌, first, first-some, first-update, update_rows, exists, ◌==◌,
  if◌then◌else◌, Bool-cases, inl, inr, true, Option, none, some, List,
}
use meetgo_dating_server.Schema.{Uuid, Clock, Time, Point, manual, UserGeo, Db}
use meetgo_dating_server.Schema.Decimals.{Decimal}
use meetgo_dating_server.Exec.{Faults}
use meetgo_dating_server.Exec.Keeps.{Keeps, Keeps-statement, keeps_rules}
use meetgo_dating_server.Meeting.Feed.Rows.{geo_of}
use meetgo_dating_server.Geo.Repository.{
  new_fix, set_fix, case_manual, upsert_geo, apply_gps, current_geo, nearest_city_id,
}
use meetgo_dating_server.Geo.Service.{GeoLibs, UpdateGeoRequest, store_fix, take_fix, update_gps}
use meetgo_dating_server.Geo.Requests.{Keeps-or_internal}

-- The user's row, in the manual mode.
pub record IsAt (user_id : Uuid) (p : Option Point) (city : Option Uuid) (d : Db) : Type 0 where
  pub row : UserGeo
  pub has_row : first (geo_of user_id) d.user_geo ≡ some row
  pub is_manual : row.mode ≡ manual
  pub is_effective : row.effective_point ≡ p
  pub is_resolved : row.resolved_city_id ≡ city

-- What an update of the user's row makes of it.
pub updated :
    (user_id : Uuid) (f : UserGeo → UserGeo) (rows : List UserGeo) (g : UserGeo)
    → ((h : UserGeo) → (f h).user_id ≡ h.user_id)
    → first (geo_of user_id) rows ≡ some g
    → first (geo_of user_id) (update_rows (geo_of user_id) f rows) ≡ some (f g)
unfolding geo_of
updated user_id f rows g same_user h =
    let mine = (first-some (geo_of user_id) rows g h).0 in
    first-update (geo_of user_id) (geo_of user_id) f rows same
    ∙ ap
        (λ o. elim o as (λ _. Option UserGeo) [
          | none ↦ none
          | some a ↦ some (if geo_of user_id a then f a else a)
        ])
        h
    ∙ ap (λ b. some (if b then f g else g)) mine
  where
    same : (x : UserGeo) → geo_of user_id (if geo_of user_id x then f x else x) ≡ geo_of user_id x
    same x = elim (Bool-cases (x.user_id == user_id)) [
      | inl t ↦ rw (t, same_user x) t
      | inr t ↦ rw t t
    ]

module _ (user_id : Uuid) (p : Option Point) (city : Option Uuid) where
  apply_gps-IsAt :
      (now : Time) (q : Point) (accuracy : Option Decimal) (near : Option Uuid)
      → Keeps (IsAt user_id p city) (apply_gps now user_id q accuracy near)
  unfolding apply_gps set_fix
  apply_gps-IsAt now q accuracy near = Keeps-statement _ stays
    where
      stays :
          (d : Db)
          → IsAt user_id p city d
          → IsAt user_id p city
              (upsert_geo user_id
                (new_fix user_id q accuracy now near)
                (set_fix q accuracy now near)
                d).1
      stays d h =
          let there : exists (geo_of user_id) d.user_geo ≡ true =
            exists-first (geo_of user_id) d.user_geo h.row h.has_row in
          rw there (record {
            row = set_fix q accuracy now near h.row;
            has_row =
                updated user_id (set_fix q accuracy now near) d.user_geo h.row (λ g. refl)
                  h.has_row;
            is_manual = h.is_manual;
            is_effective =
                ap (λ m. case_manual m h.row.effective_point (some q)) h.is_manual ∙ h.is_effective;
            is_resolved =
                ap (λ m. case_manual m h.row.resolved_city_id near) h.is_manual ∙ h.is_resolved;
          })

  -- A fix of the GPS, whatever statements fail, leaves the effective point and city of a user in the
  -- manual mode, and the mode.
  pub update_gps-IsAt :
      (libs : GeoLibs) (clock : Clock) (req : UpdateGeoRequest) (fs : Faults) (d : Db)
      → IsAt user_id p city d
      → IsAt user_id p city (update_gps libs clock user_id req fs d).1
  unfolding update_gps take_fix store_fix current_geo nearest_city_id
  update_gps-IsAt libs clock req fs d h = kept.at fs d h
    where
      kept : Keeps (IsAt user_id p city) (update_gps libs clock user_id req)
      kept = search (keeps_rules, Keeps-or_internal, apply_gps-IsAt) depth 16
