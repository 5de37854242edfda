-- ===== src/Geonames/Kept.antt =====
-- cmd/geonames-import/main.go: which lines parseCities keeps.
use meetgo_dating_server.Prelude.{
  Bool, ◌||◌, not, ◌≢◌, ◌∙◌, ap, sym, ◌==◌, ==_iff, text_eq, text_eq_iff, exists, exists_is_in,
  Memᴰ, codes, length, [], ◌∷◌, ◌++◌, ℕ, ℤ, pos, negsuc, ◌≤◌, ◌≡◌, refl, subst, arith, All,
  join-All_of, Text, Bool-cases, inl, inr, true, false, ltb, Option, none, some, List,
}
use meetgo_dating_server.Schema.Decimals.{Decimal}
use meetgo_dating_server.Geonames.Parse.{
  add_rune, CityRec, Readers, field, keeps, city_at, city_with, not_settlement, city_of_fields,
  parse_cities, split_on,
}

-- The texts with the separator between them.
unfoldable pub join_with : ℕ → List Text → Text
join_with sep [] = []
join_with sep (s ∷ []) = s
join_with sep (s ∷ t ∷ parts) = s ++ sep ∷ join_with sep (t ∷ parts)

join-add_rune :
    (sep c : ℕ) (parts : List Text)
    → 1 ≤ length parts
    → join_with sep (add_rune c parts) ≡ c ∷ join_with sep parts
unfolding join_with
join-add_rune sep c [] h = absurd (omega (arith, h))
join-add_rune sep c (s ∷ []) h = refl
join-add_rune sep c (s ∷ t ∷ parts) h = refl

split-nonempty : (sep : ℕ) (s : Text) → 1 ≤ length (split_on sep s)
unfolding split_on
split-nonempty sep [] = omega arith
split-nonempty sep (c ∷ s) = elim (Bool-cases (c == sep)) [
  | inl e ↦ rw e (omega arith)
  | inr e ↦ rw e (added (split_on sep s))
]
  where
    added : (parts : List Text) → 1 ≤ length (add_rune c parts)
    added [] = omega arith
    added (t ∷ parts) = omega arith

join-split : (sep : ℕ) (s : Text) → join_with sep (split_on sep s) ≡ s
unfolding join_with split_on
join-split sep [] = refl
join-split sep (c ∷ s) = elim (Bool-cases (c == sep)) [
  | inl e ↦ rw e (
      at_sep (split_on sep s) (split-nonempty sep s)
      ∙ ap (λ t. sep ∷ t) (join-split sep s)
      ∙ ap (λ n. n ∷ s) (sym ((==_iff c sep).0 e)))
  | inr e ↦ rw e (
      join-add_rune sep c (split_on sep s) (split-nonempty sep s)
      ∙ ap (λ t. c ∷ t) (join-split sep s))
]
  where
    at_sep :
        (parts : List Text)
        → 1 ≤ length parts
        → join_with sep ([] ∷ parts) ≡ sep ∷ join_with sep parts
    at_sep [] h = absurd (omega (arith, h))
    at_sep (t ∷ parts) h = refl

split-All : (sep : ℕ) (s : Text) → All (λ t. All (λ r. r ≢ sep) t) (split_on sep s)
unfolding split_on
split-All sep [] = (tt, tt)
split-All sep (c ∷ s) = elim (Bool-cases (c == sep)) [
  | inl e ↦ rw e (tt, split-All sep s)
  | inr e ↦
      rw e (added (λ q. absurd (cc (e, (==_iff c sep).1 q))) (split_on sep s) (split-All sep s))
]
  where
    added :
        c ≢ sep
        → (parts : List Text) → All (λ t. All (λ r. r ≢ sep) t) parts
        → All (λ t. All (λ r. r ≢ sep) t) (add_rune c parts)
    added other [] h = ((other, tt), tt)
    added other (t ∷ parts) h = ((other, h.0), h.1)

-- The feature codes of settlements.
abbrev pub codes_of_settlements : List Text
codes_of_settlements =
    codes "PPL"
    ∷ codes "PPLA"
    ∷ codes "PPLA2"
    ∷ codes "PPLA3"
    ∷ codes "PPLA4"
    ∷ codes "PPLA5"
    ∷ codes "PPLC"
    ∷ codes "PPLG"
    ∷ []

last_of_three : (a b c : Bool) → (a || not b || not c) ≡ false → c ≡ true
last_of_three a b true h = refl
last_of_three a true false h = ground arith
last_of_three a false false h = ground arith

member_lem : (t : Text) (set : List Text) → exists (text_eq t) set ≡ true → Memᴰ t set
member_lem t set h =
    let (u, m, same) = exists_is_in (text_eq t) set h in
    subst (λ v. Memᴰ v set) (sym ((text_eq_iff t u).0 same)) m

keeps_lem :
    (x : Readers) (keep : Option (List Text)) (country : Text)
    → keeps x keep country ≡ true
    → (set : List Text) → keep ≡ some set
    → Memᴰ country set
keeps_lem x none country h set e = absurd (cc e)
keeps_lem x (some all) country h set e =
    let same : all ≡ set = cc e in subst (λ s. Memᴰ country s) same (member_lem country all h)

module _ (x : Readers) (keep : Option (List Text)) (min_pop : ℕ) where
  -- The record is that of the fields of a settlement with enough people, in a country to keep.
  pub record IsOfFields (f : List Text) (c : CityRec) : Type 0 where
    pub enough_fields : 15 ≤ length f
    pub is_populated_place : field 6 f ≡ codes "P"
    pub is_settlement : Memᴰ (field 7 f) codes_of_settlements
    pub country_kept : (set : List Text) → keep ≡ some set → Memᴰ c.country set
    pub of_id : x.parse_int (field 0 f) ≡ some c.geoname_id
    pub of_name : c.name ≡ field 1 f
    pub of_country : c.country ≡ x.to_upper (field 8 f)
    pub of_region : c.region ≡ field 10 f
    pub of_population : x.atoi (field 14 f) ≡ pos c.population
    pub populous : min_pop ≤ c.population
    pub of_lat : x.parse_float (field 4 f) ≡ some c.location.lat
    pub of_lng : x.parse_float (field 5 f) ≡ some c.location.lng

  -- The fields are those of a line, which tabs separate.
  pub record IsKept (lines : List Text) (c : CityRec) : Type 0 where
    pub line : Text
    pub f : List Text
    pub is_line : Memᴰ line lines
    pub joined : join_with 9 f ≡ line
    pub cut : All (λ t. All (λ r. r ≢ 9) t) f
    pub of_fields : IsOfFields f c

  settlement_lem :
      (f : List Text)
      → not_settlement x f ≡ false
      → exists (text_eq (field 7 f)) codes_of_settlements ≡ true
  settlement_lem f h =
      last_of_three (ltb (length f) 15) (text_eq (field 6 f) (codes "P"))
        (exists (text_eq (field 7 f)) codes_of_settlements) h

  city_at-IsKept :
      (f : List Text) (n : ℕ) (lat lng : Option Decimal) (id : Option ℤ) (c : CityRec)
      → not_settlement x f ≡ false
      → keeps x keep (x.to_upper (field 8 f)) ≡ true
      → ltb n min_pop ≡ false
      → x.atoi (field 14 f) ≡ pos n
      → x.parse_float (field 4 f) ≡ lat
      → x.parse_float (field 5 f) ≡ lng
      → x.parse_int (field 0 f) ≡ id
      → city_at x f n lat lng id ≡ some c
      → IsOfFields f c
  city_at-IsKept f n (some lat) (some lng) (some id) c settled kept enough pop lat' lng' read e =
      let made : CityRec = record {
        geoname_id = id;
        name = field 1 f;
        country = x.to_upper (field 8 f);
        region = field 10 f;
        population = n;
        location = record { lat = lat; lng = lng };
      } in
      let same : made ≡ c = cc e in
      subst (IsOfFields f) same (record {
        enough_fields = ground (arith, settled);
        is_populated_place = (text_eq_iff (field 6 f) (codes "P")).0 (ground (arith, settled));
        is_settlement = member_lem (field 7 f) codes_of_settlements (settlement_lem f settled);
        country_kept = keeps_lem x keep (x.to_upper (field 8 f)) kept;
        of_id = read;
        of_name = refl;
        of_country = refl;
        of_region = refl;
        of_population = pop;
        populous = ground (arith, enough);
        of_lat = lat';
        of_lng = lng';
      })
  city_at-IsKept f n none lng id c settled kept enough pop lat' lng' read e = absurd (cc e)
  city_at-IsKept f n (some lat) none id c settled kept enough pop lat' lng' read e = absurd (cc e)
  city_at-IsKept f n (some lat) (some lng) none c settled kept enough pop lat' lng' read e =
      absurd (cc e)

  city_with-IsKept :
      (f : List Text) (pop : ℤ) (c : CityRec)
      → not_settlement x f ≡ false
      → keeps x keep (x.to_upper (field 8 f)) ≡ true
      → x.atoi (field 14 f) ≡ pop
      → city_with x min_pop f pop ≡ some c
      → IsOfFields f c
  city_with-IsKept f (negsuc n) c settled kept p e = absurd (cc e)
  city_with-IsKept f (pos n) c settled kept p e = elim (Bool-cases (ltb n min_pop)) [
    | inl t ↦ ground (arith, t, e)
    | inr t ↦
        let lat = x.parse_float (field 4 f) in
        let lng = x.parse_float (field 5 f) in
        let id = x.parse_int (field 0 f) in
        let read : city_at x f n lat lng id ≡ some c = ground (arith, t, e) in
        city_at-IsKept f n lat lng id c settled kept t p refl refl refl read
  ]

  city_of_fields-IsKept :
      (f : List Text) (c : CityRec) → city_of_fields x keep min_pop f ≡ some c → IsOfFields f c
  unfolding city_of_fields
  city_of_fields-IsKept f c e = elim (Bool-cases (not_settlement x f)) [
    | inl t ↦ ground (arith, t, e)
    | inr t ↦ elim (Bool-cases (keeps x keep (x.to_upper (field 8 f)))) [
      | inl k ↦
          let read : city_with x min_pop f (x.atoi (field 14 f)) ≡ some c =
            ground (arith, t, k, e) in
          city_with-IsKept f (x.atoi (field 14 f)) c t k refl read
      | inr k ↦ ground (arith, t, k, e)
    ]
  ]

  -- For every dump, every set of countries and every minimum that is not negative: each record that
  -- parseCities returns has a line of the dump, and the texts between its tabs, at least 15, give the
  -- fields of the record; they have the class P and one of eight codes of settlements, the country is in the
  -- set, where there is one, and the population is at least the minimum.
  pub parse_cities-IsKept :
      (lines : List Text) → All (IsKept lines) (parse_cities x keep min_pop lines)
  unfolding parse_cities
  parse_cities-IsKept lines =
      join-All_of (λ line. city_of_fields x keep min_pop (split_on 9 line)) (IsKept lines) lines
        (λ line m c e. record {
          line = line;
          f = split_on 9 line;
          is_line = m;
          joined = join-split 9 line;
          cut = split-All 9 line;
          of_fields = city_of_fields-IsKept (split_on 9 line) c e;
        })
