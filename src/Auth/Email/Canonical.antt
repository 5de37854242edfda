-- ===== src/Auth/Email/Canonical.antt =====
-- internal/auth/dto.go, canonicalEmail.
use meetgo_dating_server.Prelude.{
  ℕ, Text, codes, text_eq, remove_rune, before_rune, split_last, contains_rune, ◌==◌, Bool-cases,
  Option-cases, false, none, some, [], ◌∷◌, ◌++◌, ◌≡◌, refl, sym, inl, inr, arith, ap,
}
use meetgo_dating_server.Auth.Email.{
  at_sign, is_gmail, strip_plus, canonical_parts, canonical_email,
}

before_rune_idem : (c : ℕ) (s : Text) → before_rune c (before_rune c s) ≡ before_rune c s
unfolding before_rune
before_rune_idem c [] = refl
before_rune_idem c (d ∷ s) = elim (Bool-cases (d == c)) [
  | inl e ↦ rw e refl
  | inr e ↦ rw e (rw e (ap (λ t. d ∷ t) (before_rune_idem c s)))
]

strip_plus_idem : (s : Text) → strip_plus (strip_plus s) ≡ strip_plus s
unfolding strip_plus
strip_plus_idem [] = refl
strip_plus_idem (c ∷ s) = elim (Bool-cases (c == b'+')) [
  | inl e ↦ rw e (rw e refl)
  | inr e ↦ rw e (rw e (ap (λ t. c ∷ t) (before_rune_idem b'+' s)))
]

-- A text from which nothing is to be removed.
remove_absent : (c : ℕ) (s : Text) → contains_rune c s ≡ false → remove_rune c s ≡ s
unfolding contains_rune remove_rune
remove_absent c [] h = refl
remove_absent c (d ∷ s) h = ground (arith, h, remove_absent c s)

remove_gone : (c : ℕ) (s : Text) → contains_rune c (remove_rune c s) ≡ false
unfolding contains_rune remove_rune
remove_gone c [] = refl
remove_gone c (d ∷ s) = ground (arith, remove_gone c s)

before_keeps :
    (c k : ℕ) (s : Text) → contains_rune c s ≡ false → contains_rune c (before_rune k s) ≡ false
unfolding contains_rune before_rune
before_keeps c k [] h = refl
before_keeps c k (d ∷ s) h = ground (arith, h, before_keeps c k s)

strip_keeps :
    (c : ℕ) (s : Text) → contains_rune c s ≡ false → contains_rune c (strip_plus s) ≡ false
unfolding contains_rune strip_plus
strip_keeps c [] h = refl
strip_keeps c (d ∷ s) h = ground (arith, h, before_keeps c b'+' s)

-- Splitting at the last sign: the domain has none, and the split can be undone.
split_none : (c : ℕ) (s : Text) → contains_rune c s ≡ false → split_last c s ≡ none
unfolding contains_rune split_last
split_none c [] h = refl
split_none c (d ∷ s) h = ground (arith, h, split_none c s)

none_absent : (c : ℕ) (s : Text) → split_last c s ≡ none → contains_rune c s ≡ false
unfolding contains_rune split_last
none_absent c [] h = refl
none_absent c (d ∷ s) h = elim (Option-cases (split_last c s)) [
  | inl e ↦ ground (arith, h, e, none_absent c s e)
  | inr ((a, b), e) ↦ absurd (ground (arith, h, e))
]

split-domain : (c : ℕ) (s a b : Text) → split_last c s ≡ some (a, b) → contains_rune c b ≡ false
unfolding contains_rune split_last
split-domain c [] a b h = absurd (cc h)
split-domain c (d ∷ s) a b h = elim (Option-cases (split_last c s)) [
  | inl e ↦ ground (arith, h, e, none_absent c s e)
  | inr ((l, r), e) ↦
      let same : r ≡ b = ground (arith, h, e) in rw (sym same) (split-domain c s l r e)
]

split_join :
    (c : ℕ) (a b : Text) → contains_rune c b ≡ false → split_last c (a ++ c ∷ b) ≡ some (a, b)
unfolding contains_rune split_last
split_join c [] b h = rw (split_none c b h) (ground arith)
split_join c (d ∷ a) b h = rw (split_join c a b h) refl

-- The canonical email of a canonical email is itself.
pub canonical_email_idem :
    (email : Text) → canonical_email (canonical_email email) ≡ canonical_email email
unfolding canonical_email canonical_parts is_gmail contains_rune remove_rune text_eq
canonical_email_idem email = elim (Option-cases (split_last at_sign email)) [
  | inl e ↦ rw e (rw e refl)
  | inr ((local, domain), e) ↦ rw e (elim (Bool-cases (is_gmail domain)) [
    | inl g ↦ rw g (
        rw (split_join at_sign (strip_plus (remove_rune b'.' local)) (codes "gmail.com") refl) (
          rw
            (
              remove_absent b'.' (strip_plus (remove_rune b'.' local))
                  (strip_keeps b'.' (remove_rune b'.' local) (remove_gone b'.' local)),
              canonical_parts,
            )
            (rw strip_plus_idem refl)))
    | inr g ↦ rw g (
        rw
          (split_join at_sign (strip_plus local) domain (split-domain at_sign email local domain e))
          (rw g (rw strip_plus_idem refl)))
  ])
]
