-- ===== src/Profile/Rules.antt =====
-- internal/profile/dto.go and internal/meeting/dto.go: lists of ids, and ageYears.
use meetgo_dating_server.Prelude.{
  ℕ, ◌+◌, ◌≤◌, ◌<◌, Text, Bool-cases, Option-cases, true, false, ◌||◌, Option, some, List, [], ◌∷◌,
  length, ltb, ◌==◌, ◌≡◌, ◌↔◌, ◌⊎◌, inl, inr, refl, sym, subst, ==_iff, ==_refl, arith,
}
use meetgo_dating_server.Schema.{Uuid}
use meetgo_dating_server.Schema.Dates.{Date, younger_than}
use meetgo_dating_server.Profile.Ids.{
  Ids, ids_ok, ids_bad, member, prepend, parse_ids, parse_interest_ids, parse_tag_ids,
}

-- No id comes again.
abbrev pub AreDistinct : List Uuid → Type 0
AreDistinct [] = Unit
AreDistinct (id ∷ ids) = (member id ids ≡ false) × AreDistinct ids

-- Each raw id parses to the id at its place.
abbrev pub Parses : (Text → Option Uuid) → List Text → List Uuid → Type 0
Parses parse [] [] = Unit
Parses parse [] (id ∷ ids) = ⊥
Parses parse (s ∷ raw) [] = ⊥
Parses parse (s ∷ raw) (id ∷ ids) = (parse s ≡ some id) × Parses parse raw ids

prepend-ok :
    (id : Uuid) (r : Ids) (ids : List Uuid)
    → prepend id r ≡ ids_ok ids
    → (rest : List Uuid) × (r ≡ ids_ok rest) × (ids ≡ id ∷ rest)
prepend-ok id (ids_ok rest) ids h = (rest, refl, ground arith)
prepend-ok id (ids_bad m) ids h = absurd (cc h)

module _ (parse : Text → Option Uuid) where
  step_ok :
      (seen : List Uuid) (s : Text) (raw : List Text) (ids : List Uuid)
      → parse_ids parse seen (s ∷ raw) ≡ ids_ok ids
      → (id : Uuid) × (rest : List Uuid) × (parse s ≡ some id)
        × (member id seen ≡ false)
        × (parse_ids parse (id ∷ seen) raw ≡ ids_ok rest)
        × (ids ≡ id ∷ rest)
  unfolding parse_ids
  step_ok seen s raw ids h = elim (Option-cases (parse s)) [
    | inl e ↦ absurd (ground (arith, h, e))
    | inr (id, e) ↦ elim (Bool-cases (member id seen)) [
      | inl m ↦ absurd (ground (arith, h, e, m))
      | inr m ↦
          let (rest, r, same) =
            prepend-ok id (parse_ids parse (id ∷ seen) raw) ids (ground (arith, h, e, m)) in
          (id, rest, e, m, r, same)
    ]
  ]

  -- The ids are distinct, those of the texts, and none of them was seen before.
  abbrev Accepted : List Uuid → List Text → List Uuid → Type 0
  Accepted seen raw ids =
      AreDistinct ids
      × Parses parse raw ids
      × ((j : Uuid) → member j seen ≡ true → member j ids ≡ false)

  parse_ids-Accepted :
      (seen : List Uuid) (raw : List Text) (ids : List Uuid)
      → parse_ids parse seen raw ≡ ids_ok ids
      → Accepted seen raw ids
  unfolding parse_ids member
  parse_ids-Accepted seen [] ids h =
      let same : [] ≡ ids = ground arith in subst (Accepted seen []) same (tt, tt, λ j m. refl)
  parse_ids-Accepted seen (s ∷ raw) ids h =
      let (id, rest, e, new, r, same) = step_ok seen s raw ids h in
      let (distinct, parsed, unseen) = parse_ids-Accepted (id ∷ seen) raw rest r in
      subst (Accepted seen (s ∷ raw)) (sym same) (
        (unseen id (ground (arith, ==_refl id)), distinct),
        (e, parsed),
        λ j m. elim (Bool-cases (id == j)) [
          | inl t ↦ absurd (cc (m, new, (==_iff id j).0 t))
          | inr t ↦ ground (arith, t, unseen j, m)
        ],
      )

  -- What the tag ids of a request become, when they are let through.
  abbrev pub AreIds : ℕ → List Text → List Uuid → Type 0
  AreIds max raw ids =
      (1 ≤ length raw) × (length raw ≤ max) × AreDistinct ids × Parses parse raw ids

  -- Tag ids that are let through are one to three, distinct, and those that the texts parse to.
  pub parse_tag_ids-AreIds :
      (raw : List Text) (ids : List Uuid) → parse_tag_ids parse raw ≡ ids_ok ids → AreIds 3 raw ids
  unfolding parse_tag_ids
  parse_tag_ids-AreIds raw ids h = elim (Bool-cases (ltb (length raw) 1 || ltb 3 (length raw))) [
    | inl e ↦ absurd (ground (arith, h, e))
    | inr e ↦
        let (distinct, parsed, _) = parse_ids-Accepted [] raw ids (ground (arith, h, e)) in
        (ground (arith, e), ground (arith, e), distinct, parsed)
  ]

  -- Interest ids that are let through are one to five, distinct, and those that the texts parse to.
  pub parse_interest_ids-AreIds :
      (raw : List Text) (ids : List Uuid)
      → parse_interest_ids parse raw ≡ ids_ok ids
      → AreIds 5 raw ids
  unfolding parse_interest_ids
  parse_interest_ids-AreIds raw ids h =
      elim (Bool-cases (ltb (length raw) 1 || ltb 5 (length raw))) [
        | inl e ↦ absurd (ground (arith, h, e))
        | inr e ↦
            let (distinct, parsed, _) = parse_ids-Accepted [] raw ids (ground (arith, h, e)) in
            (ground (arith, e), ground (arith, e), distinct, parsed)
      ]

-- The age test is the calendar's: not younger than `min` exactly when the birthday of that age, by year,
-- month and day, is not after `now`.
pub younger_than_iff :
    (min : ℕ) (birth now : Date)
    → (younger_than min birth now ≡ false) ↔ (
        (birth.year + min < now.year)
        ⊎ ((birth.year + min ≡ now.year)
            × ((birth.month < now.month) ⊎ ((birth.month ≡ now.month) × (birth.day ≤ now.day)))))
unfolding younger_than
younger_than_iff min birth now = ground arith
