-- ===== src/Http.antt =====
-- internal/platform/httpx: the transport error, its constructors, and how an error is rendered.
use meetgo_dating_server.Prelude.{ℕ, String, Option, none, some, List, [], ◌∷◌}

-- errors.go, APIError; the details are a map from field names to messages.
pub record ApiError : Type 0 where
  pub status : ℕ
  pub code : String
  pub message : String
  pub details : List (String × String)

-- A Go `error`: an *APIError, or any other error (`fmt.Errorf`), of which only that is observed.
pub data Failure : Type 0 where
  api : ApiError → Failure
  internal : Failure

pub data Result {ℓ} (A : Type ℓ) : Type ℓ where
  ok : A → Result A
  err : Failure → Result A

abbrev pub new_error : ℕ → String → String → ApiError
new_error status code message = record {
  status = status;
  code = code;
  message = message;
  details = [];
}

abbrev pub validation_error : List (String × String) → ApiError
validation_error details = record {
  status = 422;
  code = "VALIDATION_ERROR";
  message = "validation failed";
  details = details;
}

-- response.go: what a handler writes. The error envelope has the code, message and details.
pub data Response {ℓ} (A : Type ℓ) : Type ℓ where
  json : ℕ → A → Response A
  empty_body : ℕ → Response A
  error_envelope : ℕ → String → String → List (String × String) → Response A

-- WriteError: any error that is no *APIError becomes a generic 500.
abbrev pub write_error {ℓ} : {A : Type ℓ} → Failure → Response A
write_error (api e) = error_envelope e.status e.code e.message e.details
write_error internal = error_envelope 500 "INTERNAL" "internal error" []

abbrev pub no_content {ℓ} : {A : Type ℓ} → Response A
no_content = empty_body 204

-- The end of every handler: WriteError on an error, otherwise the answer.
abbrev pub respond {ℓ κ} : {A : Type ℓ} {B : Type κ} → (A → Response B) → Result A → Response B
respond answer (ok a) = answer a
respond answer (err e) = write_error e

abbrev pub status_of {ℓ} : {A : Type ℓ} → Response A → ℕ
status_of (json s a) = s
status_of (empty_body s) = s
status_of (error_envelope s c m d) = s

-- DecodeJSON: the decoder is encoding/json's, so its verdict on the body is an argument, `none` where
-- it refuses the body (which is not the end of the input).
abbrev pub decode_json {ℓ} : {A : Type ℓ} → Option A → Result A
decode_json (some a) = ok a
decode_json none = err (api (validation_error (("body", "invalid JSON") ∷ [])))
