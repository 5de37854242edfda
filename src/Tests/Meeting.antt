-- ===== src/Tests/Meeting.antt =====
-- internal/meeting at concrete requests.
use meetgo_dating_server.Profile.Ids.{parse_tag_ids}
use meetgo_dating_server.Profile.Validate.{bad_description}
use meetgo_dating_server.Profile.Repository.{has_item_id, count_items, items_for, of_user}
use meetgo_dating_server.Auth.Repository.{has_user_id}
use meetgo_dating_server.Prelude.{
  update_rows, select_rows, trim_space, ℕ, ◌+◌, codes, first, count, true, false, List, [], ◌∷◌,
  ◌≡◌, refl, arith,
}
use meetgo_dating_server.Http.{ok, err, api}
use meetgo_dating_server.Schema.{Uuid, Clock, Ad, active, Candidate, pending, done, Db, empty_db}
use meetgo_dating_server.Exec.{◌>>◌, ◌>>=◌, Faults}
use meetgo_dating_server.Exec.Runs.{run_all}
use meetgo_dating_server.Meeting.Errors.{like_not_pending}
use meetgo_dating_server.Meeting.Repository.{
  expire_stale, active_ad_by_profile, count_tags, create_ad, insert_ad, ad_conflict, insert_ad_tags,
  insert_ad_tag, tags_by_ad_id, ad_by_id, profile_for_user, ad_ttl, active_ad_of, has_ad_id,
}
use meetgo_dating_server.Meeting.Service.{
  with_tags, AdRequest, AdResponse, create, get_mine, validate_ad,
}
use meetgo_dating_server.Meeting.Candidates.{
  accept_candidate, candidate_for_author, create_candidate, has_candidate_id, chat_of, like, accept,
}
use meetgo_dating_server.Meeting.OneActive.{IsOneActive}
use meetgo_dating_server.Meeting.Chats.{ChatsMatch, accepted_named}
use meetgo_dating_server.Meeting.Requests.{
  MeetingCall, create_call, mine_call, delete_call, like_call, accept_call, request,
  requests-IsOneActive, requests-ChatsMatch,
}
use meetgo_dating_server.Meeting.Likes.{MayLike, liked, like-MayLike}
use meetgo_dating_server.Meeting.Acceptance.{MayAccept, accepted_db, accept_once, accept-MayAccept}
use meetgo_dating_server.Meeting.Publishing.{create-get_mine}
use meetgo_dating_server.Meeting.Rules.{IsAd, validate_ad-IsAd}
use meetgo_dating_server.Tests.Fixtures.{libs, user_at, profile_of}

abbrev at : ℕ → Clock
at t = record { app = t; db = t }

abbrev anns_ad : Ad
anns_ad = record {
  id = 30;
  author_profile_id = 5;
  description = codes "Coffee";
  status = active;
  created_at = 0;
  expires_at = 1000;
}

-- Ann (user 1, profile 5) has an active ad; user 2 has profile 6.
abbrev town : Db
town = record empty_db {
  users = user_at done true ∷ record (user_at done true) { id = 2; email = codes "b@b.ru" } ∷ [];
  profiles = profile_of 5 1 ∷ profile_of 6 2 ∷ [];
  meeting_tags = record { id = 3; value = codes "walk" } ∷ [];
  meeting_ads = anns_ad ∷ [];
}

abbrev like_of_2 : Candidate
like_of_2 = record {
  id = 40;
  meeting_ad_id = 30;
  profile_id = 6;
  status = pending;
  created_at = 10;
}

abbrev liked_town : Db
liked_town = record town { meeting_candidates = like_of_2 ∷ [] }

liked_town-IsOneActive : IsOneActive liked_town
unfolding count active_ad_of
liked_town-IsOneActive p = ground arith

liked_town-ChatsMatch : ChatsMatch liked_town
unfolding count has_candidate_id chat_of accepted_named
liked_town-ChatsMatch = record { one_row = λ id. ground arith; chats = λ id. ground arith }

abbrev walk : AdRequest
walk = record { description = codes "A long walk along the river tonight"; tag_ids = (3 ∷ []) ∷ [] }

abbrev calls : List (MeetingCall × Faults)
calls =
    (accept_call 70 1 40, false ∷ false ∷ false ∷ false ∷ true ∷ [])
    ∷ (accept_call 70 1 40, [])
    ∷ (create_call (at 20) 31 1 walk, [])
    ∷ (create_call (at 2000) 32 1 walk, [])
    ∷ (like_call (at 2001) 41 2 32, [])
    ∷ (mine_call (at 2002) 1, [])
    ∷ (delete_call (at 2003) 1, [])
    ∷ []

requests-IsOneActive_example : IsOneActive (run_all (request libs.parse_uuid) calls liked_town)
requests-IsOneActive_example =
    requests-IsOneActive libs.parse_uuid calls liked_town liked_town-IsOneActive

requests-ChatsMatch_example : ChatsMatch (run_all (request libs.parse_uuid) calls liked_town)
requests-ChatsMatch_example =
    requests-ChatsMatch libs.parse_uuid calls liked_town liked_town-ChatsMatch

like_returns : (like (at 10) 40 2 30 [] town).0 ≡ ok tt
unfolding like ◌>>=◌ profile_for_user first has_user_id of_user ◌>>◌ ad_by_id has_ad_id
    create_candidate count
like_returns = refl

like-MayLike_example :
    (viewer : Uuid) × MayLike (at 10) 40 2 30 viewer town
    × ((like (at 10) 40 2 30 [] town).1 ≡ liked (at 10) 40 2 30 viewer town)
like-MayLike_example = like-MayLike (at 10) 40 2 30 [] town tt like_returns

accept_returns : (accept 70 1 40 [] liked_town).0 ≡ ok 70
unfolding accept ◌>>=◌ profile_for_user first has_user_id of_user candidate_for_author count ◌>>◌
    accept_candidate
accept_returns = refl

accept_once_example :
    (accept 71 1 40 [] (accept 70 1 40 [] liked_town).1).0 ≡ err (api like_not_pending)
accept_once_example = accept_once 1 40 70 71 [] liked_town 70 accept_returns

accept-MayAccept_example :
    MayAccept 1 40 liked_town × ((accept 70 1 40 [] liked_town).1 ≡ accepted_db 70 40 liked_town)
accept-MayAccept_example = accept-MayAccept 1 40 70 [] liked_town 70 accept_returns

abbrev published : AdResponse
published = record {
  id = 31;
  author_profile_id = 5;
  description = walk.description;
  tags = record { id = 3; value = codes "walk" } ∷ [];
  status = active;
  created_at = 2000;
  expires_at = 2000 + ad_ttl;
}

create_returns : (create libs.parse_uuid (at 2000) 31 1 walk [] town).0 ≡ ok published
unfolding create ◌>>=◌ ◌>>◌ validate_ad bad_description trim_space parse_tag_ids profile_for_user
    first has_user_id of_user expire_stale active_ad_by_profile update_rows count_tags count_items
    count create_ad active_ad_of insert_ad ad_conflict insert_ad_tags insert_ad_tag with_tags
    tags_by_ad_id items_for select_rows has_item_id
create_returns = refl

create-get_mine_example :
    (get_mine (at 3000) 1 [] (create libs.parse_uuid (at 2000) 31 1 walk [] town).1).0
    ≡ ok published
create-get_mine_example =
    create-get_mine libs.parse_uuid (at 2000) 31 1 walk (at 3000) [] town published create_returns
      (omega arith)

walk_valid : validate_ad libs.parse_uuid walk ≡ ok (walk.description, 3 ∷ [])
unfolding validate_ad bad_description trim_space parse_tag_ids
walk_valid = refl

validate_ad-IsAd_example : IsAd libs.parse_uuid walk walk.description (3 ∷ [])
validate_ad-IsAd_example =
    validate_ad-IsAd libs.parse_uuid walk walk.description (3 ∷ []) walk_valid
