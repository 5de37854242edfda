-- ===== src/Auth/Token.antt =====
-- internal/auth/token.go and middleware.go
use meetgo_dating_server.Prelude.{
  ℕ, ◌+◌, Text, codes, byte_len, trim_space, text_eq, leb, ◌==◌, if◌then◌else◌, ◌&&◌, Option, none,
  some, List, [], ◌∷◌, ◌++◌,
}
use meetgo_dating_server.Http.{api, internal, Result, ok, err}
use meetgo_dating_server.Schema.{Uuid, Time}
use meetgo_dating_server.Auth.Errors.{unauthorized}
use meetgo_dating_server.Auth.External.{External, SigningMethod, hmac, other_method}

pub record TokenService : Type 0 where
  pub secret : Text
  pub access_ttl : ℕ

module _ (x : External) where
  unfoldable pub issue_access : TokenService → Uuid → Time → Result Text
  issue_access s user_id now =
      elim (x.sign_jwt s.secret (x.uuid_string user_id) now (now + s.access_ttl)) [
        | none ↦ err internal
        | some signed ↦ ok signed
      ]

  -- the key function of ParseWithClaims: only HMAC methods get the secret
  unfoldable pub key_for : TokenService → SigningMethod → Option Text
  key_for s hmac = some s.secret
  key_for s other_method = none

  unfoldable pub parse_access : TokenService → Text → Time → Option Uuid
  unfolding key_for
  parse_access s raw now = elim (x.parse_with_claims raw (key_for s) now) [
    | none ↦ none
    | some subject ↦ x.parse_uuid subject
  ]

  unfoldable pub hash_token : Text → Text
  hash_token token = x.sha256 token

  -- `email + "\x00" + code`
  unfoldable pub hash_otp : Text → Text → Text
  hash_otp email code = x.sha256 (email ++ 0 ∷ code)

  -- NewRefreshToken: the 32 bytes of crypto/rand, or its failure, are an argument
  unfoldable pub new_refresh_token : Option (List ℕ) → Result (Text × Text)
  unfolding hash_token
  new_refresh_token none = err internal
  new_refresh_token (some buf) = let token = x.base64url buf in ok (token, hash_token token)

abbrev lower_ascii : ℕ → ℕ
lower_ascii c = if leb b'A' c && leb c b'Z' then c + 32 else c

drop_prefix : Text → Text → Option Text
drop_prefix [] s = some s
drop_prefix (c ∷ t) [] = none
drop_prefix (c ∷ t) (d ∷ s) =
    let rest = drop_prefix t s in if lower_ascii d == c then rest else none

-- bearerToken, on the value of the Authorization header
unfoldable pub bearer_token : Text → Option Text
unfolding drop_prefix
bearer_token h = if leb (byte_len h) 7 then none else elim (drop_prefix (codes "bearer ") h) [
  | none ↦ none
  | some rest ↦ let token = trim_space rest in if text_eq token [] then none else some token
]

-- Middleware: the user id that the next handler finds in the context, or 401
unfoldable pub authenticate : External → TokenService → Text → Time → Result Uuid
unfolding bearer_token parse_access
authenticate x s header now = elim (bearer_token header) [
  | none ↦ err (api unauthorized)
  | some raw ↦ elim (parse_access x s raw now) [
    | none ↦ err (api unauthorized)
    | some user_id ↦ ok user_id
  ]
]
