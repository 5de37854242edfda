-- ===== src/Geonames/Loaded.antt =====
-- cmd/geonames-import/main.go: what the loop of upserts leaves in the table.
use meetgo_dating_server.Prelude.{
  exists-first, exists-none, first-one, ℤ, int_eq, int_eq_iff, Text, ◌≡◌, ◌≢◌, refl, sym, ap, ◌∙◌,
  All, first, first-some, first-update, first-append_none, first-append_some, exists, update_rows,
  Bool, Bool-cases, inl, inr, true, false, if◌then◌else◌, Option, Option-cases, none, some, List,
  [], ◌∷◌, ◌++◌,
}
use meetgo_dating_server.Http.{Result, ok, err, internal}
use meetgo_dating_server.Schema.{Uuid, City, Db}
use meetgo_dating_server.Exec.{Faults, statement}
use meetgo_dating_server.Exec.Triples.{
  Triple, Triple-ok, Triple-pure, Triple-statement, Triple-then, Triple-post, Ends,
}
use meetgo_dating_server.Geo.Repository.{has_city_id}
use meetgo_dating_server.Geonames.Parse.{CityRec}
use meetgo_dating_server.Geonames.Import.{
  nullable, has_geoname, new_city, set_city, upsert_city, upsert_cities,
}

-- The table has the data of the record, under its id.
pub record IsLoaded (names : ℤ → Option Text) (c : CityRec) (d : Db) : Type 0 where
  pub row : City
  pub has_row : first (has_geoname c.geoname_id) d.cities ≡ some row
  pub of_name : row.name ≡ c.name
  pub of_name_ru : row.name_ru ≡ nullable (names c.geoname_id)
  pub of_country : row.country ≡ c.country
  pub of_population : row.population ≡ c.population
  pub of_location : row.location ≡ c.location

-- No two records have the same id.
abbrev pub AreDifferent : List CityRec → Type 0
AreDifferent [] = Unit
AreDifferent (c ∷ cities) =
    All (λ (b : CityRec). c.geoname_id ≢ b.geoname_id) cities × AreDifferent cities

module _ (g : ℤ) (f : City → City) (same_id : (c : City) → (f c).geoname_id ≡ c.geoname_id) (h : ℤ)
    (rows : List City) (a : City) (found : first (has_geoname h) rows ≡ some a) where
  updated :
      first (has_geoname h) (update_rows (has_geoname g) f rows)
      ≡ some (if has_geoname g a then f a else a)
  unfolding has_geoname
  updated =
      first-update (has_geoname h) (has_geoname g) f rows same
      ∙ ap
          (λ o. elim o as (λ _. Option City) [
            | none ↦ none
            | some b ↦ some (if has_geoname g b then f b else b)
          ])
          found
    where
      same : (x : City) → has_geoname h (if has_geoname g x then f x else x) ≡ has_geoname h x
      same x = elim (Bool-cases (int_eq x.geoname_id g)) [
        | inl t ↦ rw (t, same_id x) refl
        | inr t ↦ rw t refl
      ]

module _ (ids : ℤ → Uuid) (names : ℤ → Option Text) where
  abbrev put : CityRec → Db → Result (Unit {0}) × Db
  put c = upsert_city (ids c.geoname_id) c (nullable (names c.geoname_id))

  put-IsLoaded : (c : CityRec) (d : Db) → (put c d).0 ≡ ok tt → IsLoaded names c (put c d).1
  unfolding upsert_city has_geoname
  put-IsLoaded c d done_ = elim (Option-cases (first mine d.cities)) [
    | inl e ↦ elim (Bool-cases (exists (has_city_id (ids c.geoname_id)) d.cities)) [
      | inl t ↦
          let refused : (put c d).0 ≡ err internal = rw (exists-none mine d.cities e) (rw t refl) in
          absurd (cc (done_, refused))
      | inr t ↦ rw (exists-none mine d.cities e) (
          rw t (record {
            row = new_city (ids c.geoname_id) c name_ru;
            has_row = first-append_none mine d.cities _ e ∙ first-one mine _ own;
            of_name = refl;
            of_name_ru = refl;
            of_country = refl;
            of_population = refl;
            of_location = refl;
          }))
    ]
    | inr (a, e) ↦ rw (exists-first mine d.cities a e) (record {
      row = set_city c name_ru a;
      has_row =
          updated c.geoname_id (set_city c name_ru) (λ b. refl) c.geoname_id d.cities a e
          ∙ ap (λ b. some (if b then set_city c name_ru a else a)) (first-some mine d.cities a e).0;
      of_name = refl;
      of_name_ru = refl;
      of_country = refl;
      of_population = refl;
      of_location = refl;
    })
  ]
    where
      mine : City → Bool
      mine = has_geoname c.geoname_id

      name_ru : Option Text
      name_ru = nullable (names c.geoname_id)

      own : mine (new_city (ids c.geoname_id) c name_ru) ≡ true
      own = (int_eq_iff c.geoname_id c.geoname_id).1 refl

  -- The row of `c` may stand in another table.
  moved :
      (c : CityRec) (d d' : Db) (h : IsLoaded names c d)
      → first (has_geoname c.geoname_id) d'.cities ≡ some h.row
      → IsLoaded names c d'
  moved c d d' h e = record {
    row = h.row;
    has_row = e;
    of_name = h.of_name;
    of_name_ru = h.of_name_ru;
    of_country = h.of_country;
    of_population = h.of_population;
    of_location = h.of_location;
  }

  put-other :
      (c b : CityRec) (d : Db)
      → b.geoname_id ≢ c.geoname_id
      → IsLoaded names c d
      → IsLoaded names c (put b d).1
  unfolding upsert_city has_geoname
  put-other c b d differ h = elim (Bool-cases (exists (has_geoname b.geoname_id) d.cities)) [
    | inl t ↦ rw t (
        moved c d
          (record d {
            cities = update_rows (has_geoname b.geoname_id) (set_city b name_ru) d.cities;
          })
          h
          (updated b.geoname_id (set_city b name_ru) (λ x. refl) c.geoname_id d.cities h.row
              h.has_row
            ∙ ap (λ y. some (if y then set_city b name_ru h.row else h.row)) other))
    | inr t ↦ elim (Bool-cases (exists (has_city_id (ids b.geoname_id)) d.cities)) [
      | inl t' ↦ rw t (rw t' h)
      | inr t' ↦ rw t (
          rw t' (
            moved c d (record d { cities = d.cities ++ new_city (ids b.geoname_id) b name_ru ∷ [] })
              h (first-append_some (has_geoname c.geoname_id) d.cities _ h.row h.has_row)))
    ]
  ]
    where
      name_ru : Option Text
      name_ru = nullable (names b.geoname_id)

      other : has_geoname b.geoname_id h.row ≡ false
      other = elim (Bool-cases (has_geoname b.geoname_id h.row)) [
        | inl t ↦
            let of_b = (int_eq_iff h.row.geoname_id b.geoname_id).0 t in
            let of_c =
              (int_eq_iff h.row.geoname_id c.geoname_id).0
                (first-some (has_geoname c.geoname_id) d.cities h.row h.has_row).0 in
            absurd (differ (sym of_b ∙ of_c))
        | inr t ↦ t
      ]

  abbrev Stable : (Db → Type 0) → List CityRec → Type 0
  Stable P cities = All (λ c. (d : Db) → P d → P (put c d).1) cities

  Stable-and :
      (P : Db → Type 0) (c : CityRec) (cities : List CityRec)
      → Stable P cities
      → All (λ (b : CityRec). c.geoname_id ≢ b.geoname_id) cities
      → Stable (λ d. P d × IsLoaded names c d) cities
  Stable-and P c [] s n = tt
  Stable-and P c (b ∷ cities) s n =
      (λ d h. (s.0 d h.0, put-other c b d (λ e. n.0 (sym e)) h.1), Stable-and P c cities s.1 n.1)

  Stable-trivial : (cities : List CityRec) → Stable (λ _. Unit) cities
  Stable-trivial [] = tt
  Stable-trivial (c ∷ cities) = (λ d h. tt, Stable-trivial cities)

  put-Triple :
      (P : Db → Type 0) (c : CityRec)
      → ((d : Db) → P d → P (put c d).1)
      → Triple P (λ _ d. P d × IsLoaded names c d) (λ _. Unit) (statement (put c))
  put-Triple P c kept = Triple-statement (put c) (λ d h. tt) (λ d h. go d h (put c d).0 refl)
    where
      go :
          (d : Db) (h : P d) (r : Result (Unit {0}))
          → (put c d).0 ≡ r
          → Ends (λ _ d'. P d' × IsLoaded names c d') (λ _. Unit) (r, (put c d).1, [])
      go d h (ok u) e = (kept d h, put-IsLoaded c d e)
      go d h (err f) e = tt

  upsert_cities-Triple :
      (P : Db → Type 0) (cities : List CityRec)
      → Stable P cities
      → AreDifferent cities
      → Triple P
          (λ _ d. P d × All (λ c. IsLoaded names c d) cities)
          (λ _. Unit)
          (upsert_cities ids names cities)
  unfolding upsert_cities
  upsert_cities-Triple P [] stable differ = Triple-pure tt (λ d h. (h, tt))
  upsert_cities-Triple P (c ∷ cities) stable differ = Triple-then _ _ (put-Triple P c stable.0) (
      Triple-post _ (λ u d h. (h.0.0, (h.0.1, h.1)))
        (upsert_cities-Triple (λ d. P d × IsLoaded names c d) cities
          (Stable-and P c cities stable.1 differ.0) differ.1))

  -- When the loop of the import ends without an error, on records of different ids and whatever the table
  -- held, the table has for each record a row with its id, and that row has the record's name, Russian
  -- name, country, population and place.
  pub upsert_cities-IsLoaded :
      (cities : List CityRec) (fs : Faults) (d : Db)
      → AreDifferent cities
      → (upsert_cities ids names cities fs d).0 ≡ ok tt
      → All (λ c. IsLoaded names c (upsert_cities ids names cities fs d).1) cities
  upsert_cities-IsLoaded cities fs d differ h =
      (Triple-ok _ (upsert_cities-Triple (λ _. Unit) cities (Stable-trivial cities) differ) fs d tt
        tt h).1
