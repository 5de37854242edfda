-- ===== src/Meeting/Requests/Ads.antt =====
-- internal/meeting/candidate_service.go: what the requests on likes do to the ads.
use meetgo_dating_server.Prelude.{Option, none, some, exists, inl, inr, Bool-cases, Bool}
use meetgo_dating_server.Exec.{statement}
use meetgo_dating_server.Exec.Keeps.{Keeps, Keeps-statement, keeps_rules}
use meetgo_dating_server.Exec.Triples.{Keeps-tx}
use meetgo_dating_server.Schema.{Uuid, Clock, Ad, Time, Chat, LikeStatus}
use meetgo_dating_server.Meeting.Repository.{profile_for_user, active_ad_by_profile, ad_by_id}
use meetgo_dating_server.Meeting.Candidates.{
  like, list_likes, accept, reject, likes_of, list_likes_for, pending_likes_for_ad,
  create_candidate, insert_candidate, response_to, has_candidate_id, accept_candidate,
  reject_candidate, decide_like, insert_chat, chat_conflict, pending_named, candidate_for_author,
  require_own_candidate,
}
use meetgo_dating_server.Meeting.OneActive.{IsOneActive, expire_stale-IsOneActive}
use meetgo_dating_server.Meeting.Chats.{}

-- What likes leave alone.
create_candidate-IsOneActive :
    (now : Time) (id ad_id profile_id : Uuid)
    → Keeps IsOneActive (create_candidate now id ad_id profile_id)
unfolding create_candidate insert_candidate
create_candidate-IsOneActive now id ad_id profile_id = Keeps-statement _ λ d h.
    elim (Bool-cases (exists (response_to ad_id profile_id) d.meeting_candidates)) [
      | inl e ↦ rw e h
      | inr e ↦ rw e (elim (Bool-cases (exists (has_candidate_id id) d.meeting_candidates)) [
        | inl t ↦ rw t h
        | inr t ↦ rw t h
      ])
    ]

decide_like-IsOneActive :
    (id : Uuid) (s : LikeStatus) → Keeps IsOneActive (statement (decide_like id s))
unfolding decide_like
decide_like-IsOneActive id s = Keeps-statement _ λ d h.
    elim (Bool-cases (exists (pending_named id) d.meeting_candidates)) [
      | inl e ↦ rw e h
      | inr e ↦ rw e h
    ]

insert_chat-IsOneActive : (c : Chat) → Keeps IsOneActive (statement (insert_chat c))
unfolding insert_chat
insert_chat-IsOneActive c =
    Keeps-statement _ λ d h. elim (Bool-cases (exists (chat_conflict c) d.chats)) [
      | inl e ↦ rw e h
      | inr e ↦ rw e h
    ]

ruleset ad_row_rules = (
  keeps_rules, Keeps-tx, expire_stale-IsOneActive, create_candidate-IsOneActive,
  decide_like-IsOneActive, insert_chat-IsOneActive,
)

pub like-IsOneActive :
    (clock : Clock) (id user_id ad_id : Uuid) → Keeps IsOneActive (like clock id user_id ad_id)
unfolding like profile_for_user ad_by_id
like-IsOneActive clock id user_id ad_id = search ad_row_rules depth 16

likes_of-IsOneActive : (a : Option Ad) → Keeps IsOneActive (likes_of a)
unfolding likes_of pending_likes_for_ad
likes_of-IsOneActive none = search ad_row_rules
likes_of-IsOneActive (some a) = search ad_row_rules

pub list_likes-IsOneActive :
    (clock : Clock) (user_id : Uuid) → Keeps IsOneActive (list_likes clock user_id)
unfolding list_likes profile_for_user list_likes_for active_ad_by_profile
list_likes-IsOneActive clock user_id = search (ad_row_rules, for_profile) depth 8
  where
    for_profile : (p : Option (Uuid × Bool)) → Keeps IsOneActive (list_likes_for clock p)
    for_profile none = search ad_row_rules
    for_profile (some (p, c)) = search (ad_row_rules, likes_of-IsOneActive) depth 8

own-IsOneActive : (user_id id : Uuid) → Keeps IsOneActive (require_own_candidate user_id id)
unfolding require_own_candidate profile_for_user candidate_for_author
own-IsOneActive user_id id = search ad_row_rules depth 8

pub accept-IsOneActive : (chat_id user_id id : Uuid) → Keeps IsOneActive (accept chat_id user_id id)
unfolding accept accept_candidate
accept-IsOneActive chat_id user_id id = search (ad_row_rules, own-IsOneActive) depth 10

pub reject-IsOneActive : (user_id id : Uuid) → Keeps IsOneActive (reject user_id id)
unfolding reject reject_candidate
reject-IsOneActive user_id id = search (ad_row_rules, own-IsOneActive) depth 10
