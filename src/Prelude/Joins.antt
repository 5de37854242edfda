-- ===== src/Prelude/Joins.antt =====
-- What SELECT … WHERE and a join keep of a table.
use Prim.Native.Nat.{ℕ}
use mathlib.Core.Path.{◌≡◌, refl, sym, subst, ap}
use mathlib.Core.Bool.{Bool, true, false}
use mathlib.Core.List.{List, [], ◌∷◌, ◌++◌, Memᴰ}
use mathlib.Core.Option.{Option, none, some}
use mathlib.Core.Logic.{inl, inr, ◌≢◌}
use native.Mathlib.Omega.{arith}
use meetgo_dating_server.Prelude.Tests.{Bool-cases, Option-cases}
use meetgo_dating_server.Prelude.Rows.{
  select_rows, join_rows, first, count, exists, exists-none, exists-first, first-some,
}
use meetgo_dating_server.Prelude.Lists.{All, AreKeyed}

-- What SELECT … WHERE keeps.
module _ {ℓ} {A : Type ℓ} (p : A → Bool) where
  pub select-append :
      (xs ys : List A) → select_rows p (xs ++ ys) ≡ select_rows p xs ++ select_rows p ys
  unfolding select_rows
  select-append [] ys = refl
  select-append (x ∷ xs) ys = ground (arith, select-append xs ys)

  pub select-nothing : (xs : List A) → All (λ x. p x ≡ false) xs → select_rows p xs ≡ []
  unfolding select_rows
  select-nothing [] h = refl
  select-nothing (x ∷ xs) h = rw h.0 (select-nothing xs h.1)

  pub select-all : (xs : List A) → All (λ x. p x ≡ true) xs → select_rows p xs ≡ xs
  unfolding select_rows
  select-all [] h = refl
  select-all (x ∷ xs) h = rw h.0 (ap (λ ys. x ∷ ys) (select-all xs h.1))

  pub select-split :
      (xs : List A) (y : A) (ys : List A)
      → All (λ x. p x ≡ false) xs
      → p y ≡ false
      → All (λ x. p x ≡ true) ys
      → select_rows p (xs ++ y ∷ ys) ≡ ys
  unfolding select_rows
  select-split [] y ys h e k = rw e (select-all ys k)
  select-split (x ∷ xs) y ys h e k = rw h.0 (select-split xs y ys h.1 e k)

  pub select-passes : (xs : List A) → All (λ x. p x ≡ true) (select_rows p xs)
  unfolding select_rows
  select-passes [] = tt
  select-passes (x ∷ xs) = elim (Bool-cases (p x)) [
    | inl t ↦ rw t (t, select-passes xs)
    | inr t ↦ rw t (select-passes xs)
  ]

  pub select-All {κ} : (P : A → Type κ) (xs : List A) → All P xs → All P (select_rows p xs)
  unfolding select_rows
  select-All P [] h = tt
  select-All P (x ∷ xs) h = elim (Bool-cases (p x)) [
    | inl t ↦ rw t (h.0, select-All P xs h.1)
    | inr t ↦ rw t (select-All P xs h.1)
  ]

-- The rows that a search finds are rows of the table.
module _ {ℓ} {A : Type ℓ} (p : A → Bool) where
  pub first_is_in : (xs : List A) (a : A) → first p xs ≡ some a → Memᴰ a xs
  unfolding first
  first_is_in [] a h = absurd (cc h)
  first_is_in (x ∷ xs) a h = elim (Bool-cases (p x)) [
    | inl t ↦ let same : x ≡ a = ground (arith, t, h) in Memᴰ.head (sym same)
    | inr t ↦ Memᴰ.tail (first_is_in xs a (ground (arith, t, h)))
  ]

  pub first_nothing : (xs : List A) → first p xs ≡ none → All (λ x. p x ≡ false) xs
  unfolding first
  first_nothing [] h = tt
  first_nothing (x ∷ xs) h = elim (Bool-cases (p x)) [
    | inl t ↦ ground (arith, t, h)
    | inr t ↦ (t, first_nothing xs (ground (arith, t, h)))
  ]

  pub exists_nothing : (xs : List A) → exists p xs ≡ false → All (λ x. p x ≡ false) xs
  exists_nothing xs h = elim (Option-cases (first p xs)) [
    | inl e ↦ first_nothing xs e
    | inr (a, e) ↦ let found = exists-first p xs a e in absurd (cc (h, found))
  ]

  pub is_in_exists : (xs : List A) (a : A) → Memᴰ a xs → p a ≡ true → exists p xs ≡ true
  unfolding count
  is_in_exists [] a m h = elim m [ ]
  is_in_exists (x ∷ xs) a (Memᴰ.head e) h =
      let here : p x ≡ true = cc (e, h) in ground (arith, here)
  is_in_exists (x ∷ xs) a (Memᴰ.tail m) h = ground (arith, is_in_exists xs a m h)

  pub exists_is_in : (xs : List A) → exists p xs ≡ true → (a : A) × Memᴰ a xs × (p a ≡ true)
  exists_is_in xs h = elim (Option-cases (first p xs)) [
    | inl e ↦ let none_found = exists-none p xs e in absurd (cc (h, none_found))
    | inr (a, e) ↦ (a, first_is_in xs a e, (first-some p xs a e).0)
  ]

-- What a join gives.
module _ {ℓ κ} {A : Type ℓ} {B : Type κ} (f : A → Option B) where
  pub join-All {ι} :
      (P : B → Type ι) (xs : List A)
      → ((x : A) (b : B) → f x ≡ some b → P b)
      → All P (join_rows f xs)
  unfolding join_rows
  join-All P [] h = tt
  join-All P (x ∷ xs) h = elim (Option-cases (f x)) [
    | inl e ↦ rw (e, join_rows) (join-All P xs h)
    | inr (b, e) ↦ rw (e, join_rows) (h x b e, join-All P xs h)
  ]

  pub join-All_of {ι} :
      (P : B → Type ι) (xs : List A)
      → ((x : A) → Memᴰ x xs → (b : B) → f x ≡ some b → P b)
      → All P (join_rows f xs)
  unfolding join_rows
  join-All_of P [] h = tt
  join-All_of P (x ∷ xs) h =
      let rest = join-All_of P xs (λ y m. h y (Memᴰ.tail m)) in
      elim (Option-cases (f x)) [
        | inl e ↦ rw (e, join_rows) rest
        | inr (b, e) ↦ rw (e, join_rows) (h x (Memᴰ.head refl) b e, rest)
      ]

  pub join-nothing : (xs : List A) → ((x : A) (b : B) → f x ≢ some b) → join_rows f xs ≡ []
  unfolding join_rows
  join-nothing [] h = refl
  join-nothing (x ∷ xs) h = elim (Option-cases (f x)) [
    | inl e ↦ rw (e, join_rows) (join-nothing xs h)
    | inr (b, e) ↦ absurd (h x b e)
  ]

  -- The rows of a table keep its key.
  module _ (key : A → ℕ) (key_of : B → ℕ)
      (kept : (x : A) (b : B) → f x ≡ some b → key_of b ≡ key x) where
    join-differs :
        (n : ℕ) (xs : List A) → All (λ x. n ≢ key x) xs → All (λ b. n ≢ key_of b) (join_rows f xs)
    unfolding join_rows
    join-differs n [] h = tt
    join-differs n (x ∷ xs) h = elim (Option-cases (f x)) [
      | inl e ↦ rw (e, join_rows) (join-differs n xs h.1)
      | inr (b, e) ↦
          rw (e, join_rows) (subst (λ k. n ≢ k) (sym (kept x b e)) h.0, join-differs n xs h.1)
    ]

    pub join-AreKeyed : (xs : List A) → AreKeyed key xs → AreKeyed key_of (join_rows f xs)
    unfolding join_rows
    join-AreKeyed [] h = tt
    join-AreKeyed (x ∷ xs) h = elim (Option-cases (f x)) [
      | inl e ↦ rw (e, join_rows) (join-AreKeyed xs h.1)
      | inr (b, e) ↦
          let differs = join-differs (key x) xs h.0 in
          rw (e, join_rows)
            (
              subst (λ n. All (λ c. n ≢ key_of c) (join_rows f xs)) (sym (kept x b e)) differs,
              join-AreKeyed xs h.1,
            )
    ]
