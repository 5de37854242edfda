-- ===== src/Auth/Email.antt =====
-- internal/auth/dto.go: validation of the email and the code, the canonical email and the Russian
-- domains.
pub mod Canonical
use meetgo_dating_server.Prelude.{
  ℕ, Text, codes, text_eq, byte_len, trim_space, contains_rune, remove_rune, before_rune,
  split_last, has_suffix, ltb, leb, ◌==◌, if◌then◌else◌, Bool, true, false, ◌&&◌, ◌||◌, not, Option,
  none, some, List, [], ◌∷◌, ◌++◌, map, length,
}
use meetgo_dating_server.Http.{ApiError, api, Result, ok, err, validation_error}
use meetgo_dating_server.Auth.External.{External}

abbrev pub invalid_email : ApiError
invalid_email = validation_error (("email", "invalid email") ∷ [])

-- strings.ContainsAny(s, "\r\n\x00")
unfoldable pub has_control : Text → Bool
unfolding contains_rune
has_control s = contains_rune 13 s || contains_rune 10 s || contains_rune 0 s

module _ (x : External) where
  -- the test on the parsed address
  unfoldable pub accept_address : Option (Text × Text) → Result Text
  accept_address none = err (api invalid_email)
  accept_address (some (name, address)) =
      let norm = map x.lower_rune address in
      if not (text_eq name [])
      then err (api invalid_email)
      else if ltb 254 (byte_len norm) || has_control norm
      then err (api invalid_email)
      else ok norm

  unfoldable pub validate_email : Text → Result Text
  unfolding accept_address
  validate_email email =
      let s = trim_space email in
      if has_control s then err (api invalid_email) else accept_address (x.parse_address s)

abbrev pub at_sign : ℕ
at_sign = b'@'

unfoldable pub is_gmail : Text → Bool
is_gmail domain = text_eq domain (codes "gmail.com") || text_eq domain (codes "googlemail.com")

-- `if i := strings.IndexByte(local, '+'); i > 0`: a plus in front stays
unfoldable pub strip_plus : Text → Text
strip_plus [] = []
strip_plus (c ∷ s) = if c == b'+' then c ∷ s else c ∷ before_rune b'+' s

unfoldable pub canonical_parts : Option (Text × Text) → Text → Text
unfolding strip_plus is_gmail
canonical_parts none email = email
canonical_parts (some (local, domain)) email =
    if is_gmail domain
    then strip_plus (remove_rune b'.' local) ++ at_sign ∷ codes "gmail.com"
    else strip_plus local ++ at_sign ∷ domain

unfoldable pub canonical_email : Text → Text
unfolding canonical_parts
canonical_email email = canonical_parts (split_last at_sign email) email

abbrev pub russian_email_tlds : List Text
russian_email_tlds = codes ".ru" ∷ codes ".su" ∷ codes ".рф" ∷ codes ".xn--p1ai" ∷ []

unfoldable pub has_any_suffix : Text → List Text → Bool
has_any_suffix s [] = false
has_any_suffix s (t ∷ ts) = has_suffix s t || has_any_suffix s ts

unfoldable pub is_russian_email : Text → Bool
unfolding has_any_suffix
is_russian_email email = elim (split_last at_sign email) [
  | none ↦ false
  | some (local, domain) ↦ has_any_suffix domain russian_email_tlds
]

unfoldable pub all_digits : Text → Bool
all_digits [] = true
all_digits (c ∷ s) = (leb b'0' c && leb c b'9') && all_digits s

-- `^\d{6}$`
unfoldable pub validate_code : Text → Result (Unit {0})
unfolding all_digits
validate_code code =
    if length code == 6 && all_digits code
    then ok tt
    else err (api (validation_error (("code", "must be 6 digits") ∷ [])))
