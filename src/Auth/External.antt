-- ===== src/Auth/External.antt =====
-- The libraries that internal/auth calls, as parameters: crypto/sha256, encoding/base64,
-- golang-jwt, google/uuid, net/mail and the case table of unicode.
use meetgo_dating_server.Prelude.{ℕ, Text, Option, List}
use meetgo_dating_server.Schema.{Uuid, Time}

pub data SigningMethod : Type 0 where
  hmac other_method : SigningMethod

pub record External : Type 0 where
  pub sha256 : Text → Text
  pub base64url : List ℕ → Text
  -- secret, subject, iat, exp
  pub sign_jwt : Text → Text → Time → Time → Option Text
  -- raw token, key function, now: the subject of a valid token
  pub parse_with_claims : Text → (SigningMethod → Option Text) → Time → Option Text
  pub parse_uuid : Text → Option Uuid
  pub uuid_string : Uuid → Text
  -- mail.ParseAddress: the display name and the address
  pub parse_address : Text → Option (Text × Text)
  -- unicode.ToLower
  pub lower_rune : ℕ → ℕ
