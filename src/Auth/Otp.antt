-- ===== src/Auth/Otp.antt =====
-- internal/auth/service.go, CheckCode and generateCode: the form of the codes and the attempts.
use meetgo_dating_server.Prelude.{
  ℕ, ◌+◌, ◌/◌, ◌%◌, ◌≤◌, ◌<◌, Text, text_eq, text_eq_refl, All, first, exists, length, ltb, leb,
  if◌then◌else◌, Bool, Bool-cases, Option-cases, true, false, Option, none, some, List, [], ◌∷◌,
  ◌≡◌, refl, inl, inr, arith, ◌∙◌, first-update, first-append_none, count-zero_first,
  count-delete_zero, first-some, first-none,
}
use meetgo_dating_server.Http.{ok, err, api}
use meetgo_dating_server.Schema.{Otp, Db}
use meetgo_dating_server.Exec.{ignore_then, throw, ◌>>=◌}
use meetgo_dating_server.Auth.Errors.{otp_invalid}
use meetgo_dating_server.Auth.External.{External}
use meetgo_dating_server.Auth.Email.{validate_code, all_digits}
use meetgo_dating_server.Auth.Token.{hash_otp}
use meetgo_dating_server.Auth.Repository.{
  otp_of, put_otp, otp_by_email, add_attempt, bump_attempts, increment_otp_attempts, delete_otp,
}
use meetgo_dating_server.Auth.Service.{
  Service, Env, generate_code, six_digits, high_digits, check_code, wrong_code,
}

-- Whatever crypto/rand returns, and also when it fails, the generated code is one that the request
-- validation lets through.
pub generate_code-IsValid :
    (dev : Bool) (word : Option ℕ) → validate_code (generate_code dev word) ≡ ok tt
unfolding validate_code generate_code six_digits high_digits all_digits
generate_code-IsValid true word = refl
generate_code-IsValid false none = refl
generate_code-IsValid false (some n) =
    let small : n % 1000000 / 1000000 ≡ 0 = omega arith in rw (small, high_digits) (ground arith)

first-exists {ℓ} :
    {A : Type ℓ} (p : A → Bool) (xs : List A) → exists p xs ≡ true → first p xs ≡ none → ⊥
first-exists p xs h e = ground (arith, h, first-none p xs e)

pub first-put_otp : (o : Otp) (os : List Otp) → first (otp_of o.email) (put_otp o os) ≡ some o
unfolding put_otp otp_of first
first-put_otp o os = elim (Bool-cases (exists (otp_of o.email) os)) [
  | inl e ↦ rw e (
      first-update (otp_of o.email) (otp_of o.email) (λ _. o) os
        (λ a. ground (arith, text_eq_refl o.email))
      ∙ (elim (Option-cases (first (otp_of o.email) os)) [
        | inl t ↦ absurd (first-exists (otp_of o.email) os e t)
        | inr (a, t) ↦ rw t (rw (first-some (otp_of o.email) os a t).0 refl)
      ]))
  | inr e ↦ rw e (
      first-append_none (otp_of o.email) os (o ∷ [])
        (count-zero_first (otp_of o.email) os (ground (arith, e)))
      ∙ rw (text_eq_refl o.email) refl)
]

module _ (x : External) (c : Service) (email : Text) where
  wrong_code-next :
      (e : Env) (d : Db) (o : Otp)
      → first (otp_of email) d.otp_codes ≡ some o
      → first (otp_of email) (wrong_code x c e email [] d).1.otp_codes
        ≡ (if leb 5 (o.attempts + 1) then none else some (add_attempt o))
  unfolding wrong_code increment_otp_attempts bump_attempts delete_otp ignore_then throw ◌>>=◌
  wrong_code-next e d o found =
      rw (found, wrong_code, increment_otp_attempts, bump_attempts)
        (elim (Bool-cases (leb 5 (o.attempts + 1))) [
          | inl t ↦ rw t (
              count-zero_first (otp_of email) _
                (count-delete_zero (otp_of email) (otp_of email) _ (λ a h. h)))
          | inr t ↦ rw t (
              first-update (otp_of email) (otp_of email) add_attempt d.otp_codes
                (λ a. unfold otp_of in ground arith)
              ∙ rw found (rw (first-some (otp_of email) d.otp_codes o found).0 refl))
        ])

  -- A code that is tried before it expires, and is not the one that was sent.
  abbrev pub IsWrong : Otp → Env × Text → Type 0
  IsWrong o (e, code) =
      (ltb o.expires_at e.clock.app ≡ false) × (text_eq o.code_hash (hash_otp x email code) ≡ false)

  check_code-wrong :
      (e : Env) (code : Text) (d : Db) (o : Otp)
      → first (otp_of email) d.otp_codes ≡ some o
      → IsWrong o (e, code)
      → check_code x c e email code [] d ≡ wrong_code x c e email [] d
  unfolding check_code otp_by_email ◌>>=◌
  check_code-wrong e code d o found (live, wrong) = rw (found, live, wrong) refl

  check_code-missing :
      (e : Env) (code : Text) (d : Db)
      → first (otp_of email) d.otp_codes ≡ none
      → check_code x c e email code [] d ≡ (err (api otp_invalid), d, [])
  unfolding check_code otp_by_email ◌>>=◌
  check_code-missing e code d missing = rw missing refl

  -- Codes tried one after the other.
  unfoldable pub guess_all : List (Env × Text) → Db → Db
  guess_all [] d = d
  guess_all ((e, code) ∷ gs) d = guess_all gs (check_code x c e email code [] d).1

  guess_all-missing :
      (gs : List (Env × Text)) (d : Db)
      → first (otp_of email) d.otp_codes ≡ none
      → first (otp_of email) (guess_all gs d).otp_codes ≡ none
  unfolding guess_all
  guess_all-missing [] d missing = missing
  guess_all-missing ((e, code) ∷ gs) d missing =
      rw (check_code-missing e code d missing, guess_all) (guess_all-missing gs d missing)

  guess_all-exhausts :
      (gs : List (Env × Text)) (d : Db) (o : Otp)
      → first (otp_of email) d.otp_codes ≡ some o
      → All (IsWrong o) gs
      → o.attempts < 5
      → 5 ≤ o.attempts + length gs
      → first (otp_of email) (guess_all gs d).otp_codes ≡ none
  unfolding guess_all
  guess_all-exhausts [] d o found wrong room enough = absurd (omega (arith, room, enough))
  guess_all-exhausts ((e, code) ∷ gs) d o found (w, ws) room enough =
      rw (check_code-wrong e code d o found w, guess_all)
        (elim (Bool-cases (leb 5 (o.attempts + 1))) [
          | inl t ↦ guess_all-missing gs _ (wrong_code-next e d o found ∙ rw t refl)
          | inr t ↦
              guess_all-exhausts gs _ (add_attempt o) (wrong_code-next e d o found ∙ rw t refl) ws
                (ground (arith, t)) (omega (arith, enough))
        ])

  -- Lockout, in runs without faults: if the stored code has been tried less than five times, and wrong
  -- codes are tried before it expires until the tries are five or more, then any code after them, the
  -- right one too, is refused as invalid.
  pub guesses_lock :
      (gs : List (Env × Text)) (d : Db) (o : Otp) (e : Env) (code : Text)
      → first (otp_of email) d.otp_codes ≡ some o
      → All (IsWrong o) gs
      → o.attempts < 5
      → 5 ≤ o.attempts + length gs
      → (check_code x c e email code [] (guess_all gs d)).0 ≡ err (api otp_invalid)
  guesses_lock gs d o e code found wrong room enough =
      rw
        (check_code-missing e code (guess_all gs d)
          (guess_all-exhausts gs d o found wrong room enough))
        refl
