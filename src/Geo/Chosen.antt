-- ===== src/Geo/Chosen.antt =====
-- internal/geo/service.go: a city chosen by the user, as the answer, the profile and the feed show it.
use meetgo_dating_server.Prelude.{
  exists-first, first-one, ◌≡◌, refl, ap, ◌∙◌, arith, Text, codes, text_eq, first, first-none,
  first-append_none, exists, ==_refl, inl, inr, true, false, Option, Option-cases, none, some, [],
  List,
}
use meetgo_dating_server.Http.{ok}
use meetgo_dating_server.Schema.{Uuid, Point, City, manual, UserGeo, Db}
use meetgo_dating_server.Exec.{statement, query, pure, or_throw, ◌>>=◌, ◌>>◌}
use meetgo_dating_server.Auth.Repository.{has_user_id}
use meetgo_dating_server.Profile.Repository.{city_name, resolved_city, effective_city}
use meetgo_dating_server.Meeting.Feed.Rows.{geo_of, point_of, viewer_effective_point}
use meetgo_dating_server.Geo.Repository.{
  has_city_id, to_city_dto, location_of, new_choice, set_choice, choose_city, city_exists,
  set_manual, mode_and_city, joined_city, mode_and_city_of, city_found,
}
use meetgo_dating_server.Geo.Service.{
  GeoLibs, or_internal, switch_manual, switch_mode, set_location,
}
use meetgo_dating_server.Geo.Manual.{IsAt, updated}

-- A row with a resolved city of the gazetteer, read by the profile and by the answer.
module _ (g : UserGeo) (cities : List City) (city_id : Uuid) (c : City) where
  resolved_city-found :
      g.resolved_city_id ≡ some city_id
      → first (has_city_id city_id) cities ≡ some c
      → resolved_city (some g) cities ≡ some (record { id = c.id; name = city_name c })
  unfolding resolved_city has_city_id
  resolved_city-found h e = rw (h, resolved_city) (rw e refl)

  mode_and_city-found :
      g.mode ≡ manual
      → g.resolved_city_id ≡ some city_id
      → first (has_city_id city_id) cities ≡ some c
      → mode_and_city_of (some g) cities ≡ (manual, some (to_city_dto c))
  unfolding joined_city
  mode_and_city-found m h e =
      ap
        (λ o. (
          g.mode,
          city_found (elim o as (λ _. Option City) [
            | none ↦ none
            | some id ↦ first (has_city_id id) cities
          ]),
        ))
        h
      ∙ ap (λ o. (g.mode, city_found o)) e
      ∙ ap (λ mode. (mode, some (to_city_dto c))) m

module _ (user_id city_id : Uuid) (d : Db) (c : City)
    (is_city : first (has_city_id city_id) d.cities ≡ some c) where
  abbrev pub IsHere : Db → Type 0
  IsHere d' = IsAt user_id (some c.location) (some city_id) d' × (d'.cities ≡ d.cities)

  -- the row of a user who is known
  choose_city-IsAt :
      exists (has_user_id user_id) d.users ≡ true
      → IsHere (choose_city user_id city_id d).1 × ((choose_city user_id city_id d).0 ≡ ok tt)
  unfolding choose_city new_choice set_choice geo_of
  choose_city-IsAt known = elim (Option-cases (first (geo_of user_id) d.user_geo)) [
    | inl e ↦
        let fresh : exists (geo_of user_id) d.user_geo ≡ false =
          let zero = first-none (geo_of user_id) d.user_geo e in ground (arith, zero) in
        rw (fresh, known)
          (
            (
              record {
                row = new_choice user_id city_id here;
                has_row =
                    first-append_none (geo_of user_id) d.user_geo _ e
                    ∙ first-one (geo_of user_id) (new_choice user_id city_id here)
                        (==_refl user_id);
                is_manual = refl;
                is_effective = ap location_of is_city;
                is_resolved = refl;
              },
              refl,
            ),
            refl,
          )
    | inr (g, e) ↦ rw (exists-first (geo_of user_id) d.user_geo g e) (
      (
        record {
          row = set_choice city_id here g;
          has_row = updated user_id (set_choice city_id here) d.user_geo g (λ h. refl) e;
          is_manual = refl;
          is_effective = ap location_of is_city;
          is_resolved = refl;
        },
        refl,
      ),
      refl,
    )
  ]
    where
      here : Option Point
      here = location_of (first (has_city_id city_id) d.cities)

  after : Db
  after = (choose_city user_id city_id d).1

  set_manual_runs :
      exists (has_user_id user_id) d.users ≡ true
      → set_manual user_id city_id [] d ≡ (ok true, after, [])
  unfolding set_manual city_exists ◌>>=◌ pure query statement after
  set_manual_runs known =
      let there = exists-first (has_city_id city_id) d.cities c is_city in
      let done_ = (choose_city-IsAt known).1 in rw there (rw (done_, choose_city) refl)

  switch_mode_runs :
      (libs : GeoLibs) (mode raw : Text)
      → exists (has_user_id user_id) d.users ≡ true
      → text_eq (libs.to_upper mode) (codes "MANUAL") ≡ true
      → libs.parse_uuid raw ≡ some city_id
      → switch_mode libs user_id (record { mode = mode; city_id = some raw }) [] d
        ≡ (ok tt, after, [])
  unfolding switch_mode switch_manual or_internal ◌>>=◌ pure or_throw
  switch_mode_runs libs mode raw known upper parsed =
      rw upper (rw (parsed, switch_manual) (rw (set_manual_runs known) refl))

  abbrev pub IsSeen : Db → Type 0
  IsSeen d' =
      ((effective_city user_id [] d').0 ≡ ok (some (record { id = c.id; name = city_name c })))
      × ((viewer_effective_point user_id [] d').0 ≡ ok (some c.location))

  IsHere-IsSeen : (d' : Db) → IsHere d' → IsSeen d'
  unfolding effective_city query statement viewer_effective_point geo_of
  IsHere-IsSeen d' (h, same) =
      let known = ap (first (has_city_id city_id)) same ∙ is_city in
      (
        ap (λ o. ok (resolved_city o d'.cities)) h.has_row
            ∙ ap ok (resolved_city-found h.row d'.cities city_id c h.is_resolved known),
        ap (λ o. ok (point_of o)) h.has_row ∙ ap ok h.is_effective,
      )

  -- For a user and a city that exist, where no statement fails: PUT /me/location with the mode MANUAL,
  -- in any case of letters, and that city's id answers the mode and the city; after it the profile shows
  -- that city, and the feed takes its place as the viewer's point.
  pub set_location-chosen :
      (libs : GeoLibs) (mode raw : Text)
      → exists (has_user_id user_id) d.users ≡ true
      → text_eq (libs.to_upper mode) (codes "MANUAL") ≡ true
      → libs.parse_uuid raw ≡ some city_id
      → let r = set_location libs user_id (record { mode = mode; city_id = some raw }) [] d in
        (r.0 ≡ ok (record { mode = manual; city = some (to_city_dto c) })) × IsSeen r.1
  unfolding set_location ◌>>◌ ◌>>=◌ or_internal mode_and_city query statement pure after geo_of
  set_location-chosen libs mode raw known upper parsed =
      let run = switch_mode_runs libs mode raw known upper parsed in
      let (h, same) = (choose_city-IsAt known).0 in
      let found = ap (first (has_city_id city_id)) same ∙ is_city in
      let answer =
        ap (λ o. mode_and_city_of o after.cities) h.has_row
        ∙ mode_and_city-found h.row after.cities city_id c h.is_manual h.is_resolved found in
      rw run
        (ap (λ o. ok (record { mode = o.0; city = o.1 })) answer, IsHere-IsSeen after (h, same))
