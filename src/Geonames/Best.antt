-- ===== src/Geonames/Best.antt =====
-- cmd/geonames-import/main.go: which name parseRuNames keeps of the lines of a city.
use meetgo_dating_server.Prelude.{
  ℤ, int_eq, int_eq_iff, Text, ◌≡◌, refl, sym, subst, ◌⊎◌, ◌∙◌, arith, join_rows, Bool, Bool-cases,
  inl, inr, true, false, ◌&&◌, if◌then◌else◌, Option, Option-cases, none, some, List, [], ◌∷◌,
}
use meetgo_dating_server.Geonames.Parse.{Readers, split_on}
use meetgo_dating_server.Geonames.Names.{
  AltName, RuNames, no_names, has_name, take_name, take_names, name_of_fields, parse_ru_names,
}

-- The last preferred name of the id, and its first name.
unfoldable pub last_preferred : ℤ → List AltName → Option Text
last_preferred id [] = none
last_preferred id (a ∷ names) =
    let rest = last_preferred id names in
    elim rest [
      | some n ↦ some n
      | none ↦ if int_eq id a.id && a.preferred then some a.name else none
    ]

unfoldable pub first_name : ℤ → List AltName → Option Text
first_name id [] = none
first_name id (a ∷ names) =
    let rest = first_name id names in if int_eq id a.id then some a.name else rest

abbrev pub or_else : {A : Type 0} → Option A → Option A → Option A
or_else none o = o
or_else (some a) o = some a

unfoldable pub best_name : ℤ → List AltName → Option Text
unfolding last_preferred first_name
best_name id names = or_else (last_preferred id names) (first_name id names)

-- A preferred name has been stored.
abbrev Coherent : RuNames → Type 0
Coherent m = (id : ℤ) → m.preferred id ≡ true → has_name (m.res id) ≡ true

-- The name of a line's own id after the line.
abbrev after_own : AltName → Option Text → Option Text
after_own a o = if a.preferred then some a.name else or_else o (some a.name)

has_name-after_own : (a : AltName) (o : Option Text) → has_name (after_own a o) ≡ true
has_name-after_own a none = elim (Bool-cases a.preferred) [ inl p ↦ rw p refl | inr p ↦ rw p refl ]
has_name-after_own a (some n) = elim (Bool-cases a.preferred) [
  | inl p ↦ rw p refl
  | inr p ↦ rw p refl
]

-- One more line in front.
best_step :
    (mine preferred : Bool) (name : Text) (last kept rest : Option Text)
    → or_else last (
        or_else
          (if mine then (if preferred then some name else or_else kept (some name)) else kept)
          rest)
      ≡ or_else
          (elim last as (λ _. Option Text) [
            | some n ↦ some n
            | none ↦ if mine && preferred then some name else none
          ])
          (or_else kept (if mine then some name else rest))
best_step mine preferred name (some n) kept rest = refl
best_step true true name none kept rest = refl
best_step true false name none none rest = refl
best_step true false name none (some k) rest = refl
best_step false preferred name none kept rest = refl

module _ (m : RuNames) (a : AltName) where
  take_name-own :
      (m.preferred a.id ≡ true → has_name (m.res a.id) ≡ true)
      → (take_name m a).res a.id ≡ after_own a (m.res a.id)
  unfolding take_name
  take_name-own h = elim (Bool-cases a.preferred) [
    | inl p ↦ rw (p, take_name) (ground (arith, p, (int_eq_iff a.id a.id).1 refl))
    | inr p ↦ elim (Option-cases (m.res a.id)) [
      | inl e ↦ ground (arith, p, e, h, (int_eq_iff a.id a.id).1 refl)
      | inr (n, e) ↦ ground (arith, p, e)
    ]
  ]

  take_name-other : (id : ℤ) → int_eq id a.id ≡ false → (take_name m a).res id ≡ m.res id
  unfolding take_name
  take_name-other id t = ground (arith, t)

  pub take_name-res :
      (id : ℤ)
      → (m.preferred a.id ≡ true → has_name (m.res a.id) ≡ true)
      → (take_name m a).res id ≡ (if int_eq id a.id then after_own a (m.res id) else m.res id)
  take_name-res id h = elim (Bool-cases (int_eq id a.id)) [
    | inl t ↦
        let same = (int_eq_iff id a.id).0 t in
        rw t
          (subst (λ i. (take_name m a).res i ≡ after_own a (m.res i)) (sym same) (take_name-own h))
    | inr t ↦ rw t (take_name-other id t)
  ]

  take_name-preferred :
      (id : ℤ)
      → (take_name m a).preferred id ≡ true
      → (m.preferred id ≡ true) ⊎ (int_eq id a.id ≡ true)
  unfolding take_name
  take_name-preferred id h = elim (Bool-cases (int_eq id a.id)) [
    | inl t ↦ inr t
    | inr t ↦ inl (ground (arith, t, h))
  ]

  take_name-Coherent : Coherent m → Coherent (take_name m a)
  take_name-Coherent h id p = rw (take_name-res id (h a.id)) (elim (Bool-cases (int_eq id a.id)) [
    | inl t ↦ rw t (has_name-after_own a (m.res id))
    | inr t ↦ rw t (elim (take_name-preferred id p) [ inl q ↦ h id q | inr q ↦ absurd (cc (t, q)) ])
  ])

take_names-best :
    (m : RuNames) (names : List AltName) (id : ℤ)
    → Coherent m
    → (take_names m names).res id
      ≡ or_else (last_preferred id names) (or_else (m.res id) (first_name id names))
unfolding take_names last_preferred first_name
take_names-best m [] id h = elim (Option-cases (m.res id)) [
  | inl e ↦ rw e refl
  | inr (n, e) ↦ rw e refl
]
take_names-best m (a ∷ names) id h =
    take_names-best (take_name m a) names id (take_name-Coherent m a h)
    ∙ rw (take_name-res m a id (h a.id)) (
        best_step (int_eq id a.id) a.preferred a.name (last_preferred id names) (m.res id)
          (first_name id names))

-- For every reader of numbers, set of ids and dump: the name that parseRuNames keeps of an id is the last
-- preferred one among the lines that pass its tests, or the first one if none is preferred, or none.
pub parse_ru_names-best :
    (x : Readers) (ids : ℤ → Bool) (lines : List Text) (id : ℤ)
    → parse_ru_names x ids lines id
      ≡ best_name id (join_rows (λ line. name_of_fields x ids (split_on 9 line)) lines)
unfolding parse_ru_names best_name
parse_ru_names-best x ids lines id =
    take_names-best no_names (join_rows (λ line. name_of_fields x ids (split_on 9 line)) lines) id
      (λ i h. absurd (cc h))
