-- ===== src/Meeting/Requests.antt =====
-- internal/meeting/service.go and candidate_service.go: the requests that change the database.
mod Ads
mod Likes
use meetgo_dating_server.Prelude.{
  Text, Option, none, some, List, [], ◌∷◌, ◌||◌, not, exists, inl, inr, Option-cases, Bool-cases,
  first, Bool,
}
use meetgo_dating_server.Exec.{Faults, statement}
use meetgo_dating_server.Exec.Keeps.{
  Keeps, Keeps-execute, Keeps-statement, Keeps-pure, Keeps-then, keeps_rules,
}
use meetgo_dating_server.Exec.Runs.{run_all, run_all-Keeps}
use meetgo_dating_server.Exec.Triples.{Keeps-tx}
use meetgo_dating_server.Schema.{Uuid, Clock, Ad, Db, Time, Chat, LikeStatus}
use meetgo_dating_server.Profile.Repository.{same_link, has_item_id}
use meetgo_dating_server.Meeting.Repository.{
  active_ad_of, expire_stale, ad_conflict, insert_ad, insert_ad_tag, insert_ad_tags, create_ad,
  update_description, clear_ad_tags, replace_tags, update_active_ad, close_active_ad,
  profile_for_user, active_ad_by_profile, ad_by_id, count_tags, tags_by_ad_id,
}
use meetgo_dating_server.Meeting.Service.{AdRequest, create, get_mine, update_mine, delete_mine}
use meetgo_dating_server.Meeting.Candidates.{
  like, list_likes, accept, reject, likes_of, list_likes_for, pending_likes_for_ad,
  create_candidate, insert_candidate, response_to, has_candidate_id, accept_candidate,
  reject_candidate, decide_like, insert_chat, chat_conflict, pending_named, candidate_for_author,
  require_own_candidate,
}
use meetgo_dating_server.Meeting.OneActive.{
  IsOneActive, expire_stale-IsOneActive, create-IsOneActive, get_mine-IsOneActive,
  update_mine-IsOneActive, delete_mine-IsOneActive,
}
use meetgo_dating_server.Meeting.Chats.{
  ChatsMatch, like-ChatsMatch, accept-ChatsMatch, reject-ChatsMatch,
}
use meetgo_dating_server.Meeting.Requests.Ads.{
  like-IsOneActive, list_likes-IsOneActive, accept-IsOneActive, reject-IsOneActive,
}
use meetgo_dating_server.Meeting.Requests.Likes.{
  create-ChatsMatch, get_mine-ChatsMatch, update_mine-ChatsMatch, delete_mine-ChatsMatch,
  list_likes-ChatsMatch,
}

pub data MeetingCall : Type 0 where
  create_call : Clock → Uuid → Uuid → AdRequest → MeetingCall
  mine_call : Clock → Uuid → MeetingCall
  update_call : Clock → Uuid → AdRequest → MeetingCall
  delete_call : Clock → Uuid → MeetingCall
  like_call : Clock → Uuid → Uuid → Uuid → MeetingCall
  likes_call : Clock → Uuid → MeetingCall
  accept_call : Uuid → Uuid → Uuid → MeetingCall
  reject_call : Uuid → Uuid → MeetingCall

module _ (parse_uuid : Text → Option Uuid) where
  unfoldable pub request : MeetingCall → Faults → Db → Db
  request (create_call clock id user_id req) fs d = (create parse_uuid clock id user_id req fs d).1
  request (mine_call clock user_id) fs d = (get_mine clock user_id fs d).1
  request (update_call clock user_id req) fs d = (update_mine parse_uuid clock user_id req fs d).1
  request (delete_call clock user_id) fs d = (delete_mine clock user_id fs d).1
  request (like_call clock id user_id ad_id) fs d = (like clock id user_id ad_id fs d).1
  request (likes_call clock user_id) fs d = (list_likes clock user_id fs d).1
  request (accept_call chat_id user_id id) fs d = (accept chat_id user_id id fs d).1
  request (reject_call user_id id) fs d = (reject user_id id fs d).1

module _ (parse_uuid : Text → Option Uuid) where
  request-IsOneActive :
      (c : MeetingCall) (fs : Faults) (d : Db)
      → IsOneActive d
      → IsOneActive (request parse_uuid c fs d)
  unfolding request
  request-IsOneActive (create_call clock id u req) fs d h =
      (create-IsOneActive parse_uuid clock id u req).at fs d h
  request-IsOneActive (mine_call clock u) fs d h = (get_mine-IsOneActive clock u).at fs d h
  request-IsOneActive (update_call clock u req) fs d h =
      (update_mine-IsOneActive parse_uuid clock u req).at fs d h
  request-IsOneActive (delete_call clock u) fs d h = (delete_mine-IsOneActive clock u).at fs d h
  request-IsOneActive (like_call clock id u ad) fs d h = (like-IsOneActive clock id u ad).at fs d h
  request-IsOneActive (likes_call clock u) fs d h = (list_likes-IsOneActive clock u).at fs d h
  request-IsOneActive (accept_call chat u id) fs d h = (accept-IsOneActive chat u id).at fs d h
  request-IsOneActive (reject_call u id) fs d h = (reject-IsOneActive u id).at fs d h

  request-ChatsMatch :
      (c : MeetingCall) (fs : Faults) (d : Db)
      → ChatsMatch d
      → ChatsMatch (request parse_uuid c fs d)
  unfolding request
  request-ChatsMatch (create_call clock id u req) fs d h =
      (create-ChatsMatch parse_uuid clock id u req).at fs d h
  request-ChatsMatch (mine_call clock u) fs d h = (get_mine-ChatsMatch clock u).at fs d h
  request-ChatsMatch (update_call clock u req) fs d h =
      (update_mine-ChatsMatch parse_uuid clock u req).at fs d h
  request-ChatsMatch (delete_call clock u) fs d h = (delete_mine-ChatsMatch clock u).at fs d h
  request-ChatsMatch (like_call clock id u ad) fs d h = (like-ChatsMatch clock id u ad).at fs d h
  request-ChatsMatch (likes_call clock u) fs d h = (list_likes-ChatsMatch clock u).at fs d h
  request-ChatsMatch (accept_call chat u id) fs d h = (accept-ChatsMatch chat u id).at fs d h
  request-ChatsMatch (reject_call u id) fs d h = (reject-ChatsMatch u id).at fs d h

  -- Whatever requests on ads and likes come, in any order and with any faults: if before them every
  -- profile has at most one active ad, then so it is after them.
  pub requests-IsOneActive :
      (cs : List (MeetingCall × Faults)) (d : Db)
      → IsOneActive d
      → IsOneActive (run_all (request parse_uuid) cs d)
  requests-IsOneActive = run_all-Keeps (request parse_uuid) IsOneActive request-IsOneActive

  -- Whatever requests on ads and likes come, in any order and with any faults: if before them the ids of
  -- likes are unique and each like has one chat if it is accepted and none otherwise, then so it is
  -- after them.
  pub requests-ChatsMatch :
      (cs : List (MeetingCall × Faults)) (d : Db)
      → ChatsMatch d
      → ChatsMatch (run_all (request parse_uuid) cs d)
  requests-ChatsMatch = run_all-Keeps (request parse_uuid) ChatsMatch request-ChatsMatch
