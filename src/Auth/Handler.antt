-- ===== src/Auth/Handler.antt =====
-- internal/auth/handler.go. The body of a request is what encoding/json makes of it, `none` where it is
-- refused; `caller` is the user id that the middleware left in the context.
use meetgo_dating_server.Prelude.{
  Text, text_eq, if◌then◌else◌, Bool, ◌&&◌, not, Option, none, some, [],
}
use meetgo_dating_server.Http.{json, no_content, decode_json}
use meetgo_dating_server.Schema.{Uuid}
use meetgo_dating_server.Exec.{Handler, answer, lift, or_throw, throw_if, ◌>>=◌, ◌>>◌}
use meetgo_dating_server.Auth.Errors.{invalid_refresh, unauthorized}
use meetgo_dating_server.Auth.External.{External}
use meetgo_dating_server.Auth.Email.{validate_email, validate_code}
use meetgo_dating_server.Auth.Service.{
  Service, Env, SendCodeResponse, TokenResponse, MeResponse, send_code, check_code, refresh_tokens,
  logout, me,
}

-- What the handlers read of a request besides its body: RemoteAddr, the host that
-- net.SplitHostPort finds in it, and the header X-Debug-Country with its upper case.
pub record Request : Type 0 where
  pub remote_addr : Text
  pub remote_host : Option Text
  pub debug_country : Text
  pub debug_country_upper : Text

-- clientIP
unfoldable pub client_ip : Request → Text
client_ip r = elim r.remote_host [ none ↦ r.remote_addr | some host ↦ host ]

-- resolveCountry; `geo` is the GeoResolver, which may be nil
unfoldable pub resolve_country : Bool → Option (Text → Text) → Request → Text
unfolding client_ip
resolve_country dev_mode geo r =
    if dev_mode && not (text_eq r.debug_country [])
    then r.debug_country_upper
    else elim geo [ none ↦ [] | some country ↦ country (client_ip r) ]

pub record CheckCodeRequest : Type 0 where
  pub email : Text
  pub code : Text

module _ (x : External) (c : Service) (e : Env) where
  unfoldable pub handle_send_code :
      Option (Text → Text) → Request → Option Text → Handler SendCodeResponse
  handle_send_code geo r body = answer (json 200) (do
    raw ← lift (decode_json body)
    email ← lift (validate_email x raw)
    send_code x c e email (client_ip r) (resolve_country c.dev_mode geo r))

  unfoldable pub handle_check_code : Option CheckCodeRequest → Handler TokenResponse
  handle_check_code body = answer (json 200) (do
    req ← lift (decode_json body)
    email ← lift (validate_email x req.email)
    lift (validate_code req.code)
    check_code x c e email req.code)

  unfoldable pub handle_refresh : Option Text → Handler TokenResponse
  handle_refresh body = answer (json 200) (do
    token ← lift (decode_json body)
    throw_if (text_eq token []) invalid_refresh
    refresh_tokens x c e token)

unfoldable pub handle_logout : Env → Option Uuid → Handler (Unit {0})
handle_logout e caller =
    answer (λ _. no_content) (do user_id ← or_throw caller unauthorized; logout e user_id)

unfoldable pub handle_me : Option Uuid → Handler MeResponse
handle_me caller = answer (json 200) (do user_id ← or_throw caller unauthorized; me user_id)
