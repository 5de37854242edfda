-- ===== src/Meeting/Service.antt =====
-- internal/meeting/dto.go and service.go
use meetgo_dating_server.Prelude.{
  Text, trim_space, length, ltb, ◌==◌, if◌then◌else◌, not, true, false, ◌&&◌, Option, none, some,
  List, ◌++◌,
}
use meetgo_dating_server.Http.{Result}
use meetgo_dating_server.Schema.{Uuid, Time, Clock, RefItem, Ad, AdStatus, expired}
use meetgo_dating_server.Exec.{Exec, pure, lift, or_throw, throw_if, ◌>>=◌, ◌>>◌}
use meetgo_dating_server.Profile.Ids.{parse_tag_ids}
use meetgo_dating_server.Profile.Validate.{
  detail, bad_description, ids_details, ids_value, unless_details,
}
use meetgo_dating_server.Meeting.Errors.{
  profile_required, active_ad_exists, no_active_ad, ad_not_found, unknown_tag,
}
use meetgo_dating_server.Meeting.Repository.{
  count_tags, tags_by_ad_id, profile_for_user, is_active_status, expire_stale, active_ad_by_profile,
  ad_by_id, create_ad, update_active_ad, close_active_ad, set_status,
}

pub record AdRequest : Type 0 where
  pub description : Text
  pub tag_ids : List Text

pub record AdResponse : Type 0 where
  pub id : Uuid
  pub author_profile_id : Uuid
  pub description : Text
  pub tags : List RefItem
  pub status : AdStatus
  pub created_at : Time
  pub expires_at : Time

unfoldable pub to_ad_response : Ad → List RefItem → AdResponse
to_ad_response a tags = record {
  id = a.id;
  author_profile_id = a.author_profile_id;
  description = a.description;
  tags = tags;
  status = a.status;
  created_at = a.created_at;
  expires_at = a.expires_at;
}

-- the description, trimmed, and the tag ids
unfoldable pub ad_value : Text → Option (List Uuid) → Option (Text × List Uuid)
ad_value desc none = none
ad_value desc (some ids) = some (trim_space desc, ids)

unfoldable pub validate_ad : (Text → Option Uuid) → AdRequest → Result (Text × List Uuid)
unfolding ad_value
validate_ad parse_uuid req =
    let ids = parse_tag_ids parse_uuid req.tag_ids in
    unless_details
      (detail (bad_description 30 500 req.description) "description" "must be 30–500 chars"
        ++ ids_details "tagIds" ids)
      (ad_value req.description (ids_value ids))

unfoldable pub require_tags_exist : List Uuid → Exec (Unit {0})
require_tags_exist ids = do n ← count_tags ids; throw_if (not (n == length ids)) unknown_tag

unfoldable pub with_tags : Ad → Exec AdResponse
unfolding to_ad_response
with_tags row = do tags ← tags_by_ad_id row.id; pure (to_ad_response row tags)

-- `parse_uuid` is uuid.Parse, `new_id` is gen_random_uuid()'s
unfoldable pub create : (Text → Option Uuid) → Clock → Uuid → Uuid → AdRequest → Exec AdResponse
unfolding require_tags_exist with_tags
create parse_uuid clock new_id user_id req = do
  (desc, tag_ids) ← lift (validate_ad parse_uuid req)
  found ← profile_for_user user_id
  (profile_id, created) ← or_throw found profile_required
  throw_if (not created) profile_required
  expire_stale clock.db profile_id
  current ← active_ad_by_profile profile_id
  throw_if (elim current [ none ↦ false | some _ ↦ true ]) active_ad_exists
  require_tags_exist tag_ids
  row ← create_ad clock.db new_id profile_id desc tag_ids
  with_tags row

unfoldable pub get_mine : Clock → Uuid → Exec AdResponse
unfolding with_tags
get_mine clock user_id = do
  found ← profile_for_user user_id
  (profile_id, created) ← or_throw found no_active_ad
  expire_stale clock.db profile_id
  current ← active_ad_by_profile profile_id
  row ← or_throw current no_active_ad
  with_tags row

-- the ad as it is shown: overdue active ads are shown as expired
unfoldable pub shown : Time → Ad → Ad
shown now a = if is_active_status a.status && ltb a.expires_at now then set_status expired a else a

unfoldable pub get_by_id : Clock → Uuid → Exec AdResponse
unfolding shown with_tags
get_by_id clock ad_id = do
  found ← ad_by_id ad_id
  ad ← or_throw found ad_not_found
  with_tags (shown clock.app ad)

unfoldable pub update_mine : (Text → Option Uuid) → Clock → Uuid → AdRequest → Exec AdResponse
unfolding require_tags_exist with_tags
update_mine parse_uuid clock user_id req = do
  (desc, tag_ids) ← lift (validate_ad parse_uuid req)
  found ← profile_for_user user_id
  (profile_id, created) ← or_throw found no_active_ad
  expire_stale clock.db profile_id
  require_tags_exist tag_ids
  updated ← update_active_ad profile_id desc tag_ids
  row ← or_throw updated no_active_ad
  with_tags row

unfoldable pub delete_mine : Clock → Uuid → Exec (Unit {0})
delete_mine clock user_id = do
  found ← profile_for_user user_id
  (profile_id, created) ← or_throw found no_active_ad
  expire_stale clock.db profile_id
  closed_one ← close_active_ad profile_id
  throw_if (not closed_one) no_active_ad
