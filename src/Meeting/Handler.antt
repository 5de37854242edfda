-- ===== src/Meeting/Handler.antt =====
-- internal/meeting/handler.go and candidate_handler.go. `caller` is the user id that the middleware left
-- in the context, `body` what encoding/json makes of the body, `param` the id in the URL.
use meetgo_dating_server.Prelude.{Text, Option, List}
use meetgo_dating_server.Http.{json, empty_body, no_content, decode_json}
use meetgo_dating_server.Schema.{Uuid, Clock, RefItem}
use meetgo_dating_server.Exec.{Handler, answer, lift, or_throw, ◌>>=◌}
use meetgo_dating_server.Auth.Errors.{unauthorized}
use meetgo_dating_server.Meeting.Errors.{ad_not_found, like_not_found}
use meetgo_dating_server.Meeting.Repository.{list_tags}
use meetgo_dating_server.Meeting.Service.{
  AdRequest, AdResponse, create, get_mine, get_by_id, update_mine, delete_mine,
}
use meetgo_dating_server.Meeting.Candidates.{LikeResponse, like, list_likes, accept, reject}

unfoldable pub handle_list_tags : Handler (List RefItem)
handle_list_tags = answer (json 200) list_tags

module _ (parse_uuid : Text → Option Uuid) (clock : Clock) (caller : Option Uuid) where
  unfoldable pub handle_create : Uuid → Option AdRequest → Handler AdResponse
  handle_create new_id body = answer (json 201) (do
    user_id ← or_throw caller unauthorized
    req ← lift (decode_json body)
    create parse_uuid clock new_id user_id req)

  unfoldable pub handle_update_mine : Option AdRequest → Handler AdResponse
  handle_update_mine body = answer (json 200) (do
    user_id ← or_throw caller unauthorized
    req ← lift (decode_json body)
    update_mine parse_uuid clock user_id req)

  unfoldable pub handle_get_by_id : Text → Handler AdResponse
  handle_get_by_id param = answer (json 200) (do
    or_throw caller unauthorized >>= λ _. do
      ad_id ← or_throw (parse_uuid param) ad_not_found
      get_by_id clock ad_id)

  -- 201 with no body
  unfoldable pub handle_like : Uuid → Text → Handler (Unit {0})
  handle_like new_id param =
      answer (λ _. empty_body 201)
        (do
          user_id ← or_throw caller unauthorized
          ad_id ← or_throw (parse_uuid param) ad_not_found
          like clock new_id user_id ad_id)

  unfoldable pub handle_accept_like : Uuid → Text → Handler Uuid
  handle_accept_like chat_id param = answer (json 200) (do
    user_id ← or_throw caller unauthorized
    id ← or_throw (parse_uuid param) like_not_found
    accept chat_id user_id id)

  unfoldable pub handle_reject_like : Text → Handler (Unit {0})
  handle_reject_like param =
      answer (λ _. no_content)
        (do
          user_id ← or_throw caller unauthorized
          id ← or_throw (parse_uuid param) like_not_found
          reject user_id id)

module _ (clock : Clock) (caller : Option Uuid) where
  unfoldable pub handle_get_mine : Handler AdResponse
  handle_get_mine =
      answer (json 200) (do user_id ← or_throw caller unauthorized; get_mine clock user_id)

  unfoldable pub handle_delete_mine : Handler (Unit {0})
  handle_delete_mine =
      answer (λ _. no_content)
        (do user_id ← or_throw caller unauthorized; delete_mine clock user_id)

  unfoldable pub handle_list_likes : Handler (List LikeResponse)
  handle_list_likes =
      answer (json 200) (do user_id ← or_throw caller unauthorized; list_likes clock user_id)
