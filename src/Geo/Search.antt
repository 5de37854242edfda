-- ===== src/Geo/Search.antt =====
-- internal/geo/geo.go: the nearest city, and the search.
use meetgo_dating_server.Prelude.{
  ℕ, zero, suc, subst, sym, ◌≤◌, ◌≡◌, refl, arith, All, All-mono, All-take, length, length-take_le,
  select_rows, select-passes, take, Bool, Bool-cases, inl, inr, true, ltb, Option, none, some, List,
  [], ◌∷◌, Text,
}
use mathlib.Core.List.{Memᴰ}
use meetgo_dating_server.Schema.{City}
use meetgo_dating_server.Geo.Repository.{
  closer, nearest_of, matches_city, insert_by_population, by_population, like_pattern, cities_like,
}

-- Each city has at least as many people as those after it.
abbrev pub ByPopulation : List City → Type 0
ByPopulation [] = Unit
ByPopulation (c ∷ cities) = All (λ b. b.population ≤ c.population) cities × ByPopulation cities

insert-All :
    (P : City → Type 0) (c : City) (cities : List City)
    → P c
    → All P cities
    → All P (insert_by_population c cities)
unfolding insert_by_population
insert-All P c [] h k = (h, tt)
insert-All P c (b ∷ cities) h k = elim (Bool-cases (ltb c.population b.population)) [
  | inl t ↦ rw t (k.0, insert-All P c cities h k.1)
  | inr t ↦ rw t (h, k)
]

insert-ByPopulation :
    (c : City) (cities : List City)
    → ByPopulation cities
    → ByPopulation (insert_by_population c cities)
unfolding insert_by_population
insert-ByPopulation c [] h = (tt, tt)
insert-ByPopulation c (b ∷ cities) h = elim (Bool-cases (ltb c.population b.population)) [
  | inl t ↦ rw t (insert-All _ c cities (ground (arith, t)) h.0, insert-ByPopulation c cities h.1)
  | inr t ↦ rw t ((ground (arith, t), All-mono cities (λ d k. ground (arith, t, k)) h.0), h)
]

by_population-ByPopulation : (cities : List City) → ByPopulation (by_population cities)
unfolding by_population
by_population-ByPopulation [] = tt
by_population-ByPopulation (c ∷ cities) =
    insert-ByPopulation c (by_population cities) (by_population-ByPopulation cities)

by_population-All :
    (P : City → Type 0) (cities : List City) → All P cities → All P (by_population cities)
unfolding by_population
by_population-All P [] h = tt
by_population-All P (c ∷ cities) h =
    insert-All P c (by_population cities) h.0 (by_population-All P cities h.1)

take-ByPopulation :
    (n : ℕ) (cities : List City) → ByPopulation cities → ByPopulation (take n cities)
take-ByPopulation zero cities h = tt
take-ByPopulation (suc n) [] h = tt
take-ByPopulation (suc n) (c ∷ cities) h = (All-take _ n cities h.0, take-ByPopulation n cities h.1)

-- The cities of a search match the pattern, come with the largest population first, and are at most
-- as many as the limit.
pub cities_like-ByPopulation :
    (ilike : Text → Text → Bool) (q : Text) (limit : ℕ) (cities : List City)
    → let found = cities_like ilike q limit cities in
      All (λ c. matches_city ilike (like_pattern q) c ≡ true) found
      × ByPopulation found
      × (length found ≤ limit)
unfolding cities_like
cities_like-ByPopulation ilike q limit cities =
    let all = select_rows (matches_city ilike (like_pattern q)) cities in
    (
      All-take _ limit _
          (by_population-All _ all (select-passes (matches_city ilike (like_pattern q)) cities)),
      take-ByPopulation limit _ (by_population-ByPopulation all),
      length-take_le limit (by_population all),
    )

-- No city of the list is nearer than the nearest one, and there is one if the list has any.
abbrev pub IsNearest : (City → ℕ) → List City → Option City → Type 0
IsNearest far cities none = cities ≡ []
IsNearest far cities (some c) = All (λ b. far c ≤ far b) cities × Memᴰ c cities

-- The nearest city of a list: a city of it such that none of it is nearer, for any distance; there is
-- none only for the empty list.
pub nearest_of-IsNearest :
    (far : City → ℕ) (cities : List City) → IsNearest far cities (nearest_of far cities)
unfolding nearest_of
nearest_of-IsNearest far [] = refl
nearest_of-IsNearest far (c ∷ cities) = go (nearest_of far cities) (nearest_of-IsNearest far cities)
  where
    go :
        (o : Option City)
        → IsNearest far cities o
        → IsNearest far (c ∷ cities) (some (closer far c o))
    go none h = ((omega arith, subst (All _) (sym h) tt), Memᴰ.head refl)
    go (some b) h = elim (Bool-cases (ltb (far b) (far c))) [
      | inl t ↦
          let nearer : closer far c (some b) ≡ b = rw t refl in
          let less : far b ≤ far c = ground (arith, t) in
          subst (λ x. IsNearest far (c ∷ cities) (some x)) (sym nearer) ((less, h.0), Memᴰ.tail h.1)
      | inr t ↦
          let stays : closer far c (some b) ≡ c = rw t refl in
          let less : far c ≤ far b = ground (arith, t) in
          subst (λ x. IsNearest far (c ∷ cities) (some x)) (sym stays)
            ((omega arith, All-mono cities (λ d k. omega (arith, less, k)) h.0), Memᴰ.head refl)
    ]
