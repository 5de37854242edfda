-- ===== src/Meeting/Feed/Bounds.antt =====
-- internal/meeting/feed_handler.go: what parseFeedFilters lets pass.
use meetgo_dating_server.Prelude.{
  ℕ, ◌≤◌, ◌<◌, ◌≡◌, refl, subst, arith, Bool-cases, inl, inr, Text, text_eq_iff, ℤ, pos, negsuc,
  ltb, Bool, true, false, Option, Option-cases, none, some, List, [], ◌∷◌, ◌++◌, String,
}
use meetgo_dating_server.Http.{ok}
use meetgo_dating_server.Schema.{Uuid}
use meetgo_dating_server.Schema.Decimals.{plus, minus, units}
use meetgo_dating_server.Profile.Validate.{unless_details}
use meetgo_dating_server.Meeting.Feed.Filters.{
  Float, finite, infinite, not_a_number, FeedParams, FeedFilters, Parsers, bad_radius, read_sort,
  read_radius, read_city, read_gender, read_goal, read_age, parse_age, age_of, read_limit,
  read_tags, age_min_details, parse_feed_filters, age_floor, age_ceil,
}

-- The radius is positive and at most 500 km, or it is not a number.
abbrev pub RadiusFits : Float → Type 0
RadiusFits (finite (plus n)) = (0 < n) × (n ≤ units 500)
RadiusFits (finite (minus n)) = ⊥
RadiusFits (infinite negative) = ⊥
RadiusFits not_a_number = Unit

pub record AreFilters (p : FeedParams) (f : FeedFilters) : Type 0 where
  pub adult : 18 ≤ f.age_min
  pub ordered : f.age_min ≤ f.age_max
  pub oldest : f.age_max ≤ 99
  pub some_limit : 1 ≤ f.limit
  pub page_limit : f.limit ≤ 50
  pub radius_fits : RadiusFits f.radius
  pub exclusive : (id : Uuid) → f.city_id ≡ some id → p.radius ≡ []

RadiusFits-good : (n : Float) → bad_radius n ≡ false → RadiusFits n
RadiusFits-good (finite (plus n)) h = ground arith
RadiusFits-good (finite (minus n)) h = absurd (cc h)
RadiusFits-good (infinite b) h = absurd (cc h)
RadiusFits-good not_a_number h = tt

abbrev InAges : ℕ → Type 0
InAges n = (18 ≤ n) × (n ≤ 99)

abbrev InLimits : ℕ → Type 0
InLimits n = (1 ≤ n) × (n ≤ 50)

both_empty : {A : Type 0} (xs ys : List A) → xs ++ ys ≡ [] → (xs ≡ []) × (ys ≡ [])
both_empty [] ys h = (refl, h)
both_empty (x ∷ xs) ys h = absurd (cc h)

unless_details-ok :
    {A : Type 0} (details : List (String × String)) (a b : A)
    → unless_details details (some a) ≡ ok b
    → (details ≡ []) × (a ≡ b)
unless_details-ok [] a b h = (refl, cc h)
unless_details-ok (e ∷ es) a b h = absurd (cc h)

age_min_details-ok :
    (b : Bool) (details : List (String × String)) → age_min_details b details ≡ [] → b ≡ false
age_min_details-ok true details h = absurd (cc h)
age_min_details-ok false details h = refl

not_less : (a b : ℕ) → ltb a b ≡ false → b ≤ a
not_less a b h = ground arith

-- the sixth group of details
ages_ordered :
    (d1 d2 d3 d4 d5 d6 rest : List (String × String)) (b : Bool)
    → d1 ++ (d2 ++ (d3 ++ (d4 ++ (d5 ++ (age_min_details b d6 ++ rest))))) ≡ []
    → b ≡ false
ages_ordered d1 d2 d3 d4 d5 d6 rest b h =
    let h2 = (both_empty d1 _ h).1 in
    let h3 = (both_empty d2 _ h2).1 in
    let h4 = (both_empty d3 _ h3).1 in
    let h5 = (both_empty d4 _ h4).1 in
    let h6 = (both_empty d5 _ h5).1 in age_min_details-ok b d6 (both_empty _ rest h6).0

module _ (x : Parsers) where
  age_of-InAges : (i : ℤ) (n : ℕ) → age_of i ≡ some n → InAges n
  age_of-InAges (pos m) n h = ground arith
  age_of-InAges (negsuc m) n h = absurd (cc h)

  parse_age-InAges : (v : Text) (field : String) → InAges (parse_age x v field).value
  unfolding parse_age
  parse_age-InAges v field = elim (Option-cases (x.atoi v)) [
    | inl e ↦ rw (e, parse_age) (omega arith)
    | inr (i, e) ↦ elim (Option-cases (age_of i)) [
      | inl e' ↦ rw (e, parse_age) (rw e' (omega arith))
      | inr (n, e') ↦ rw (e, parse_age) (rw e' (age_of-InAges i n e'))
    ]
  ]

  read_age-InAges :
      (fallback : ℕ) (v : Text) (field : String)
      → InAges fallback
      → InAges (read_age x fallback v field).value
  unfolding read_age
  read_age-InAges fallback [] field h = h
  read_age-InAges fallback (c ∷ v) field h = parse_age-InAges (c ∷ v) field

  eighteen : InAges age_floor
  eighteen = omega arith

  ninety_nine : InAges age_ceil
  ninety_nine = omega arith

  read_radius-fits : (v : Text) → RadiusFits (read_radius x v).value
  unfolding read_radius
  read_radius-fits [] = omega arith
  read_radius-fits (c ∷ v) = elim (Option-cases (x.parse_float (c ∷ v))) [
    | inl e ↦ rw (e, read_radius) (omega arith)
    | inr (n, e) ↦ elim (Bool-cases (bad_radius n)) [
      | inl t ↦ rw (e, read_radius) (rw t (omega arith))
      | inr t ↦ rw (e, read_radius) (rw t (RadiusFits-good n t))
    ]
  ]

  read_limit-InLimits : (v : Text) → InLimits (read_limit x v).value
  unfolding read_limit
  read_limit-InLimits [] = omega arith
  read_limit-InLimits (c ∷ v) = go (x.atoi (c ∷ v)) refl
    where
      go : (o : Option ℤ) → x.atoi (c ∷ v) ≡ o → InLimits (read_limit x (c ∷ v)).value
      go none e = rw (e, read_limit) (omega arith)
      go (some (negsuc n)) e = rw (e, read_limit) (omega arith)
      go (some (pos n)) e = rw (e, read_limit) (ground arith)

  read_city-exclusive :
      (v radius : Text) (id : Uuid) → (read_city x v radius).value ≡ some id → radius ≡ []
  unfolding read_city
  read_city-exclusive [] radius id h = absurd (cc h)
  read_city-exclusive (c ∷ v) radius id h = elim (Option-cases (x.parse_uuid (c ∷ v))) [
    | inl e ↦ ground (arith, e, h)
    | inr (j, e) ↦ ground (arith, e, h, text_eq_iff radius [])
  ]

  -- For every decoder of numbers and ids: filters that parseFeedFilters accepts have 18 ≤ ageMin ≤
  -- ageMax ≤ 99, a limit from 1 to 50, a city only without a radius, and a radius that is more than 0
  -- and at most 500 km or is NaN.
  pub parse_feed_filters-AreFilters :
      (p : FeedParams) (f : FeedFilters) → parse_feed_filters x p ≡ ok f → AreFilters p f
  unfolding parse_feed_filters
  parse_feed_filters-AreFilters p f h =
      let (clean, same) = unless_details-ok _ _ f h in
      let age_min = read_age x age_floor p.age_min "ageMin" in
      let age_max = read_age x age_ceil p.age_max "ageMax" in
      let apart =
        ages_ordered (read_sort p.sort).details (read_radius x p.radius).details
          (read_city x p.city_id p.radius).details (read_gender p.gender).details
          (read_goal p.goal).details age_min.details
          (age_max.details ++ ((read_tags x p.tag_ids).details ++ (read_limit x p.limit).details))
          (ltb age_max.value age_min.value) clean in
      subst (AreFilters p) same (record {
        adult = (read_age-InAges age_floor p.age_min "ageMin" eighteen).0;
        ordered = not_less age_max.value age_min.value apart;
        oldest = (read_age-InAges age_ceil p.age_max "ageMax" ninety_nine).1;
        some_limit = (read_limit-InLimits p.limit).0;
        page_limit = (read_limit-InLimits p.limit).1;
        radius_fits = read_radius-fits p.radius;
        exclusive = read_city-exclusive p.city_id p.radius;
      })
