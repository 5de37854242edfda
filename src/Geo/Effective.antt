-- ===== src/Geo/Effective.antt =====
-- internal/geo/geo.go: the effective point and city, which the migration says follow the mode.
use meetgo_dating_server.Prelude.{
  ◌≤◌, ◌≡◌, refl, sym, subst, ap, ◌∙◌, arith, first, count, exists, update_rows, All, All-append,
  All-update, count-update_eq, count-append, count_one, first-some, Bool-cases, inl, inr, ==_iff,
  ◌==◌, if◌then◌else◌, false, Option, none, some, List, [], ◌∷◌, ◌++◌,
}
use meetgo_dating_server.Schema.{Uuid, Time, City, Point, GeoMode, auto, manual, UserGeo, Db}
use meetgo_dating_server.Schema.Decimals.{Decimal}
use meetgo_dating_server.Exec.Keeps.{Keeps, Keeps-statement}
use meetgo_dating_server.Auth.Repository.{has_user_id}
use meetgo_dating_server.Meeting.Feed.Rows.{geo_of}
use meetgo_dating_server.Geo.Repository.{
  has_city_id, upsert_geo, new_fix, set_fix, case_manual, apply_gps, location_of, new_choice,
  set_choice, choose_city, set_auto_row, set_auto,
}

-- The city that a row in the manual mode has chosen.
pub record Chosen (cities : List City) (g : UserGeo) : Type 0 where
  pub city : City
  pub is_city : first (has_city_id city.id) cities ≡ some city
  pub is_manual : g.manual_city_id ≡ some city.id
  pub is_resolved : g.resolved_city_id ≡ some city.id
  pub is_effective : g.effective_point ≡ some city.location

abbrev pub FollowsMode : List City → GeoMode → UserGeo → Type 0
FollowsMode cities auto g = (g.manual_city_id ≡ none) × (g.effective_point ≡ g.gps)
FollowsMode cities manual g = Chosen cities g

-- MANUAL has the centroid of the chosen city, AUTO the last fix and no chosen city.
abbrev pub Follows : List City → UserGeo → Type 0
Follows cities g = FollowsMode cities g.mode g

pub record IsPlaced (d : Db) : Type 0 where
  pub follows : All (Follows d.cities) d.user_geo
  pub one_row : (u : Uuid) → count (geo_of u) d.user_geo ≤ 1

-- A new row, for a user that has none.
one-more :
    (user_id u : Uuid) (rows : List UserGeo) (g : UserGeo)
    → g.user_id ≡ user_id
    → exists (geo_of user_id) rows ≡ false
    → count (geo_of u) rows ≤ 1
    → count (geo_of u) (rows ++ g ∷ []) ≤ 1
unfolding geo_of
one-more user_id u rows g own new h =
    let split = count-append (geo_of u) rows (g ∷ []) in
    let last = count_one (geo_of u) g in
    elim (Bool-cases (g.user_id == u)) [
      | inl t ↦
          let same : u ≡ user_id = sym ((==_iff g.user_id u).0 t) ∙ own in
          let none_yet : count (geo_of u) rows ≡ 0 = rw same (ground arith) in
          ground (arith, split, last, none_yet)
      | inr t ↦ ground (arith, split, last, t, h)
    ]

module _ (user_id : Uuid) (f : UserGeo → UserGeo) (d : Db) where
  same_rows :
      (u : Uuid)
      → ((g : UserGeo) → (f g).user_id ≡ g.user_id)
      → (g : UserGeo) → geo_of u (if geo_of user_id g then f g else g) ≡ geo_of u g
  unfolding geo_of
  same_rows u same_user g = elim (Bool-cases (g.user_id == user_id)) [
    | inl t ↦ rw (t, same_user g) refl
    | inr t ↦ rw t refl
  ]

  update-IsPlaced :
      ((g : UserGeo) → (f g).user_id ≡ g.user_id)
      → ((g : UserGeo) → Follows d.cities g → Follows d.cities (f g))
      → IsPlaced d
      → IsPlaced (record d { user_geo = update_rows (geo_of user_id) f d.user_geo })
  update-IsPlaced same_user kept h = record {
    follows =
        All-update (geo_of user_id) (geo_of user_id) f (Follows d.cities) d.user_geo
          (λ g k. elim (Bool-cases (geo_of user_id g)) [ inl t ↦ rw t (kept g k) | inr t ↦ rw t k ])
          h.follows;
    one_row = λ u.
        let same =
          count-update_eq (geo_of u) (geo_of user_id) f d.user_geo (same_rows u same_user) in
        omega (arith, same, h.one_row u);
  }

module _ (user_id : Uuid) (fresh : UserGeo) (f : UserGeo → UserGeo) (d : Db) where
  pub upsert_geo-IsPlaced :
      fresh.user_id ≡ user_id
      → Follows d.cities fresh
      → ((g : UserGeo) → (f g).user_id ≡ g.user_id)
      → ((g : UserGeo) → Follows d.cities g → Follows d.cities (f g))
      → IsPlaced d
      → IsPlaced (upsert_geo user_id fresh f d).1
  upsert_geo-IsPlaced own good same_user kept h =
      elim (Bool-cases (exists (geo_of user_id) d.user_geo)) [
        | inl t ↦ rw t (update-IsPlaced user_id f d same_user kept h)
        | inr t ↦ elim (Bool-cases (exists (has_user_id user_id) d.users)) [
          | inl t' ↦ rw t (
              rw t' (record {
                follows = All-append _ d.user_geo (fresh ∷ []) h.follows (good, tt);
                one_row = λ u. one-more user_id u d.user_geo fresh own t (h.one_row u);
              }))
          | inr t' ↦ rw t (rw t' h)
        ]
      ]

set_fix-Follows :
    (cities : List City) (p : Point) (accuracy : Option Decimal) (now : Time) (city : Option Uuid)
    (g : UserGeo)
    → Follows cities g
    → Follows cities (set_fix p accuracy now city g)
unfolding set_fix
set_fix-Follows cities p accuracy now city g h = go g.mode refl h
  where
    go :
        (m : GeoMode)
        → g.mode ≡ m
        → FollowsMode cities m g
        → FollowsMode cities m (record g {
          gps = some p;
          gps_accuracy = accuracy;
          gps_updated_at = some now;
          effective_point = case_manual m g.effective_point (some p);
          resolved_city_id = case_manual m g.resolved_city_id city;
        })
    go auto e k = (k.0, refl)
    go manual e k = record {
      city = k.city;
      is_city = k.is_city;
      is_manual = k.is_manual;
      is_resolved = k.is_resolved;
      is_effective = k.is_effective;
    }

pub apply_gps-IsPlaced :
    (now : Time) (user_id : Uuid) (p : Point) (accuracy : Option Decimal) (city : Option Uuid)
    → Keeps IsPlaced (apply_gps now user_id p accuracy city)
unfolding apply_gps new_fix set_fix
apply_gps-IsPlaced now user_id p accuracy city = Keeps-statement _ (λ d h.
    upsert_geo-IsPlaced user_id (new_fix user_id p accuracy now city) (set_fix p accuracy now city)
      d refl (refl, refl) (λ g. refl) (λ g k. set_fix-Follows d.cities p accuracy now city g k) h)

pub set_auto-IsPlaced :
    (user_id : Uuid) (city : Option Uuid) → Keeps IsPlaced (set_auto user_id city)
unfolding set_auto set_auto_row
set_auto-IsPlaced user_id city =
    Keeps-statement _
      (λ d h. update-IsPlaced user_id (set_auto_row city) d (λ g. refl) (λ g k. (refl, refl)) h)

-- the city that `first` finds is the one asked for
found_city :
    (city_id : Uuid) (cities : List City) (c : City)
    → first (has_city_id city_id) cities ≡ some c
    → c.id ≡ city_id
unfolding has_city_id
found_city city_id cities c h =
    (==_iff c.id city_id).0 (first-some (has_city_id city_id) cities c h).0

chosen :
    (city_id : Uuid) (cities : List City) (c : City) (g : UserGeo)
    → first (has_city_id city_id) cities ≡ some c
    → g.manual_city_id ≡ some city_id
    → g.resolved_city_id ≡ some city_id
    → g.effective_point ≡ location_of (first (has_city_id city_id) cities)
    → Chosen cities g
chosen city_id cities c g h is_manual is_resolved is_effective =
    let same = found_city city_id cities c h in
    record {
      city = c;
      is_city = subst (λ id. first (has_city_id id) cities ≡ some c) (sym same) h;
      is_manual = is_manual ∙ ap some (sym same);
      is_resolved = is_resolved ∙ ap some (sym same);
      is_effective = is_effective ∙ ap location_of h;
    }

-- The city has to exist, or the row would have no point.
pub choose_city-IsPlaced :
    (user_id city_id : Uuid) (d : Db) (c : City)
    → first (has_city_id city_id) d.cities ≡ some c
    → IsPlaced d
    → IsPlaced (choose_city user_id city_id d).1
unfolding choose_city new_choice set_choice
choose_city-IsPlaced user_id city_id d c e h =
    let p = location_of (first (has_city_id city_id) d.cities) in
    upsert_geo-IsPlaced user_id (new_choice user_id city_id p) (set_choice city_id p) d refl
      (chosen city_id d.cities c (new_choice user_id city_id p) e refl refl refl) (λ g. refl)
      (λ g k. chosen city_id d.cities c (set_choice city_id p g) e refl refl refl) h
