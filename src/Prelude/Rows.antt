-- ===== src/Prelude/Rows.antt =====
-- A table is the list of its rows. These are the forms of SQL that the repositories use: a row by a
-- key, EXISTS, count(*), UPDATE … WHERE and DELETE … WHERE.
use Prim.Native.Nat.{ℕ, suc, ◌+◌, ◌≤◌}
use mathlib.Core.Path.{◌≡◌, refl, subst}
use mathlib.Core.Bool.{Bool, true, false, ◌&&◌}
use mathlib.Core.List.{List, [], ◌∷◌, ◌++◌}
use mathlib.Core.Option.{Option, none, some}
use mathlib.Core.Logic.{inl, inr}
use native.Mathlib.Omega.{arith}
use meetgo_dating_server.Prelude.Tests.{ltb, if◌then◌else◌, Bool-cases}
use meetgo_dating_server.Prelude.Lists.{All}

module _ {ℓ} {A : Type ℓ} where
  -- SELECT … WHERE p, read by QueryRow
  unfoldable pub first : (A → Bool) → List A → Option A
  first p [] = none
  first p (x ∷ xs) = let rest = first p xs in if p x then some x else rest

  -- SELECT count(*) … WHERE p
  unfoldable pub count : (A → Bool) → List A → ℕ
  count p [] = 0
  count p (x ∷ xs) = let rest = count p xs in if p x then suc rest else rest

  -- SELECT EXISTS(… WHERE p)
  abbrev pub exists : (A → Bool) → List A → Bool
  exists p xs = ltb 0 (count p xs)

  -- SELECT … WHERE p
  unfoldable pub select_rows : (A → Bool) → List A → List A
  select_rows p [] = []
  select_rows p (x ∷ xs) = let rest = select_rows p xs in if p x then x ∷ rest else rest

  -- the rows that a join gives, at most one for each row of a table
  unfoldable pub join_rows {κ} : {B : Type κ} → (A → Option B) → List A → List B
  join_rows f [] = []
  join_rows f (x ∷ xs) = let rest = join_rows f xs in elim (f x) [ none ↦ rest | some b ↦ b ∷ rest ]

  -- UPDATE … SET f WHERE p
  unfoldable pub update_rows : (A → Bool) → (A → A) → List A → List A
  update_rows p f [] = []
  update_rows p f (x ∷ xs) = (if p x then f x else x) ∷ update_rows p f xs

  -- DELETE … WHERE p
  unfoldable pub delete_rows : (A → Bool) → List A → List A
  delete_rows p [] = []
  delete_rows p (x ∷ xs) = let rest = delete_rows p xs in if p x then rest else x ∷ rest

module _ {ℓ} {A : Type ℓ} (p : A → Bool) where
  pub count-append : (xs ys : List A) → count p (xs ++ ys) ≡ count p xs + count p ys
  unfolding count
  count-append [] ys = omega arith
  count-append (x ∷ xs) ys = ground (arith, count-append xs ys)

  pub count_one : (x : A) → count p (x ∷ []) ≡ (if p x then 1 else 0)
  unfolding count
  count_one x = ground arith

  pub first-none : (xs : List A) → first p xs ≡ none → count p xs ≡ 0
  unfolding first count
  first-none [] h = refl
  first-none (x ∷ xs) h = ground (arith, first-none xs)

  pub first-some : (xs : List A) (a : A) → first p xs ≡ some a → (p a ≡ true) × (1 ≤ count p xs)
  unfolding first count
  first-some [] a h = absurd (cc h)
  first-some (x ∷ xs) a h = elim (Bool-cases (p x)) [
    | inl e ↦ ground (arith, e)
    | inr e ↦ ground (arith, e, first-some xs a)
  ]

  pub count-zero_first : (xs : List A) → count p xs ≡ 0 → first p xs ≡ none
  unfolding first count
  count-zero_first [] h = refl
  count-zero_first (x ∷ xs) h = ground (arith, count-zero_first xs)

  pub exists-first : (xs : List A) (a : A) → first p xs ≡ some a → exists p xs ≡ true
  exists-first xs a h = let one = (first-some xs a h).1 in ground (arith, one)

  pub exists-none : (xs : List A) → first p xs ≡ none → exists p xs ≡ false
  exists-none xs h = let zero = first-none xs h in ground (arith, zero)

  pub first-one : (a : A) → p a ≡ true → first p (a ∷ []) ≡ some a
  unfolding first
  first-one a h = rw h refl

  pub first-append_none : (xs ys : List A) → first p xs ≡ none → first p (xs ++ ys) ≡ first p ys
  unfolding first
  first-append_none [] ys h = refl
  first-append_none (x ∷ xs) ys h = ground (arith, first-append_none xs ys)

  pub first-append_some :
      (xs ys : List A) (a : A) → first p xs ≡ some a → first p (xs ++ ys) ≡ some a
  unfolding first
  first-append_some [] ys a h = absurd (cc h)
  first-append_some (x ∷ xs) ys a h = ground (arith, first-append_some xs ys a)

  pub first-count :
      (r : A → Bool) (xs : List A) (a : A) → first p xs ≡ some a → r a ≡ true → 1 ≤ count r xs
  unfolding first count
  first-count r [] a h e = absurd (cc h)
  first-count r (x ∷ xs) a h e = elim (Bool-cases (p x)) [
    | inl t ↦ let same : x ≡ a = ground (arith, h, t) in rw (same, e) (omega arith)
    | inr t ↦ ground (arith, t, first-count r xs a)
  ]

  pub first-All {κ} : (P : A → Type κ) (xs : List A) (a : A) → All P xs → first p xs ≡ some a → P a
  unfolding first
  first-All P [] a h e = absurd (cc e)
  first-All P (x ∷ xs) a h e = elim (Bool-cases (p x)) [
    | inl t ↦ let same : x ≡ a = ground (arith, e, t) in subst P same h.0
    | inr t ↦ first-All P xs a h.1 (ground (arith, e, t))
  ]

-- Counting after UPDATE and DELETE.
module _ {ℓ} {A : Type ℓ} (p q : A → Bool) (f : A → A) where
  abbrev step : A → A
  step x = if q x then f x else x

  pub count-update_le :
      (xs : List A)
      → ((x : A) → p (if q x then f x else x) ≡ true → p x ≡ true)
      → count p (update_rows q f xs) ≤ count p xs
  unfolding count update_rows
  count-update_le [] h = omega arith
  count-update_le (x ∷ xs) h = ground (arith, h x, count-update_le xs h)

  pub count-update_eq :
      (xs : List A)
      → ((x : A) → p (if q x then f x else x) ≡ p x)
      → count p (update_rows q f xs) ≡ count p xs
  unfolding count update_rows
  count-update_eq [] h = refl
  count-update_eq (x ∷ xs) h = ground (arith, h x, count-update_eq xs h)

  pub count-update_zero :
      (xs : List A)
      → ((x : A) → p (if q x then f x else x) ≡ false)
      → count p (update_rows q f xs) ≡ 0
  unfolding count update_rows
  count-update_zero [] h = refl
  count-update_zero (x ∷ xs) h = ground (arith, h x, count-update_zero xs h)

  -- Rows that the update takes out of `p` are no longer counted.
  pub count-update_out :
      (xs : List A)
      → ((x : A) → q x ≡ true → p (f x) ≡ false)
      → count p (update_rows q f xs) + count (λ x. p x && q x) xs ≡ count p xs
  unfolding count update_rows
  count-update_out [] h = omega arith
  count-update_out (x ∷ xs) h = ground (arith, h x, count-update_out xs h)

  -- Rows that the update brings into `p` are counted with the others.
  pub count-update_in :
      (xs : List A)
      → ((x : A) → q x ≡ true → (p x ≡ false) × (p (f x) ≡ true))
      → count p (update_rows q f xs) ≡ count p xs + count q xs
  unfolding count update_rows
  count-update_in [] h = refl
  count-update_in (x ∷ xs) h = ground (arith, h x, count-update_in xs h)

  -- An update that leaves the key alone updates the row that is found.
  pub first-update :
      (xs : List A)
      → ((x : A) → p (if q x then f x else x) ≡ p x)
      → first p (update_rows q f xs)
        ≡ elim (first p xs) [ none ↦ none | some a ↦ some (if q a then f a else a) ]
  unfolding first update_rows
  first-update [] h = refl
  first-update (x ∷ xs) h = elim (Bool-cases (p x)) [
    | inl t ↦ rw (h x, t)
    | inr t ↦ rw (h x, t) (first-update xs h)
  ]

  pub All-update {κ} :
      (P : A → Type κ) (xs : List A)
      → ((x : A) → P x → P (if q x then f x else x))
      → All P xs
      → All P (update_rows q f xs)
  unfolding update_rows
  All-update P [] h a = a
  All-update P (x ∷ xs) h a = (h x a.0, All-update P xs h a.1)

module _ {ℓ} {A : Type ℓ} (p q : A → Bool) where
  pub count-delete_le : (xs : List A) → count p (delete_rows q xs) ≤ count p xs
  unfolding count delete_rows
  count-delete_le [] = omega arith
  count-delete_le (x ∷ xs) = ground (arith, count-delete_le xs)

  pub count-delete_zero :
      (xs : List A) → ((x : A) → p x ≡ true → q x ≡ true) → count p (delete_rows q xs) ≡ 0
  unfolding count delete_rows
  count-delete_zero [] h = refl
  count-delete_zero (x ∷ xs) h = ground (arith, h x, count-delete_zero xs h)

  pub first-delete_other :
      (xs : List A) → ((x : A) → p x ≡ true → q x ≡ false) → first p (delete_rows q xs) ≡ first p xs
  unfolding first delete_rows
  first-delete_other [] h = refl
  first-delete_other (x ∷ xs) h = ground (arith, h x, first-delete_other xs h)

  pub All-delete {κ} : (P : A → Type κ) (xs : List A) → All P xs → All P (delete_rows q xs)
  unfolding delete_rows
  All-delete P [] a = a
  All-delete P (x ∷ xs) a = elim (Bool-cases (q x)) [
    | inl t ↦ rw t (All-delete P xs a.1)
    | inr t ↦ rw t (a.0, All-delete P xs a.1)
  ]

-- Two tests that cannot both pass, and tests that imply one another.
module _ {ℓ} {A : Type ℓ} (p q : A → Bool) where
  pub count_mono : (xs : List A) → ((x : A) → p x ≡ true → q x ≡ true) → count p xs ≤ count q xs
  unfolding count
  count_mono [] h = omega arith
  count_mono (x ∷ xs) h = ground (arith, h x, count_mono xs h)
