-- ===== src/Meeting/Requests/Likes.antt =====
-- internal/meeting/service.go: what the requests on ads do to the likes and the chats.
use meetgo_dating_server.Prelude.{
  Text, Option, none, some, List, [], ◌∷◌, ◌||◌, not, exists, inl, inr, Option-cases, Bool-cases,
  first, Bool,
}
use meetgo_dating_server.Exec.{statement}
use meetgo_dating_server.Exec.Keeps.{
  Keeps, Keeps-execute, Keeps-statement, Keeps-pure, Keeps-then, keeps_rules,
}
use meetgo_dating_server.Exec.Triples.{Keeps-tx}
use meetgo_dating_server.Schema.{Uuid, Clock, Ad, Time}
use meetgo_dating_server.Profile.Repository.{same_link, has_item_id}
use meetgo_dating_server.Meeting.Repository.{
  active_ad_of, expire_stale, ad_conflict, insert_ad, insert_ad_tag, insert_ad_tags, create_ad,
  update_description, clear_ad_tags, replace_tags, update_active_ad, close_active_ad,
  profile_for_user, active_ad_by_profile, count_tags, tags_by_ad_id,
}
use meetgo_dating_server.Meeting.Service.{AdRequest, create, get_mine, update_mine, delete_mine}
use meetgo_dating_server.Meeting.Candidates.{
  list_likes, likes_of, list_likes_for, pending_likes_for_ad,
}
use meetgo_dating_server.Meeting.OneActive.{}
use meetgo_dating_server.Meeting.Chats.{ChatsMatch}

-- What ads leave alone.
expire_stale-ChatsMatch : (now : Time) (p : Uuid) → Keeps ChatsMatch (expire_stale now p)
unfolding expire_stale
expire_stale-ChatsMatch now p =
    Keeps-execute _ λ d h. record { one_row = h.one_row; chats = h.chats }

close_active_ad-ChatsMatch : (p : Uuid) → Keeps ChatsMatch (close_active_ad p)
unfolding close_active_ad
close_active_ad-ChatsMatch p =
    Keeps-statement _ λ d h. record { one_row = h.one_row; chats = h.chats }

clear_ad_tags-ChatsMatch : (ad : Uuid) → Keeps ChatsMatch (clear_ad_tags ad)
unfolding clear_ad_tags
clear_ad_tags-ChatsMatch ad = Keeps-execute _ λ d h. record { one_row = h.one_row; chats = h.chats }

insert_ad-ChatsMatch : (a : Ad) → Keeps ChatsMatch (statement (insert_ad a))
unfolding insert_ad
insert_ad-ChatsMatch a = Keeps-statement _ λ d h.
    elim (Bool-cases (exists (ad_conflict a) d.meeting_ads)) [
      | inl e ↦ rw e h
      | inr e ↦ rw e (record { one_row = h.one_row; chats = h.chats })
    ]

update_description-ChatsMatch :
    (p : Uuid) (desc : Text) → Keeps ChatsMatch (statement (update_description p desc))
unfolding update_description
update_description-ChatsMatch p desc = Keeps-statement _ λ d h.
    elim (Option-cases (first (active_ad_of p) d.meeting_ads)) [
      | inl e ↦ rw (e, update_description) h
      | inr (a, e) ↦ rw (e, update_description) (record { one_row = h.one_row; chats = h.chats })
    ]

insert_ad_tags-ChatsMatch : (ad : Uuid) (ids : List Uuid) → Keeps ChatsMatch (insert_ad_tags ad ids)
unfolding insert_ad_tags insert_ad_tag
insert_ad_tags-ChatsMatch ad [] = Keeps-pure tt
insert_ad_tags-ChatsMatch ad (id ∷ ids) =
    Keeps-then _ _
      (Keeps-statement _ λ d h.
        elim (Bool-cases (
          exists (same_link ad id) d.meeting_ad_tags
          || not (exists (has_item_id id) d.meeting_tags))) [
            | inl e ↦ rw e h
            | inr e ↦ rw e (record { one_row = h.one_row; chats = h.chats })
          ])
      (insert_ad_tags-ChatsMatch ad ids)

ruleset chat_row_rules = (
  keeps_rules, Keeps-tx, expire_stale-ChatsMatch, close_active_ad-ChatsMatch,
  clear_ad_tags-ChatsMatch, insert_ad-ChatsMatch, update_description-ChatsMatch,
  insert_ad_tags-ChatsMatch,
)

pub create-ChatsMatch :
    (parse_uuid : Text → Option Uuid) (clock : Clock) (id user_id : Uuid) (req : AdRequest)
    → Keeps ChatsMatch (create parse_uuid clock id user_id req)
unfolding create profile_for_user active_ad_by_profile count_tags tags_by_ad_id create_ad
create-ChatsMatch parse_uuid clock id user_id req = search chat_row_rules depth 30

pub get_mine-ChatsMatch :
    (clock : Clock) (user_id : Uuid) → Keeps ChatsMatch (get_mine clock user_id)
unfolding get_mine profile_for_user active_ad_by_profile tags_by_ad_id
get_mine-ChatsMatch clock user_id = search chat_row_rules depth 12

replace_tags-ChatsMatch : (ids : List Uuid) (a : Option Ad) → Keeps ChatsMatch (replace_tags ids a)
unfolding replace_tags
replace_tags-ChatsMatch ids none = search chat_row_rules
replace_tags-ChatsMatch ids (some a) = search chat_row_rules depth 8

pub update_mine-ChatsMatch :
    (parse_uuid : Text → Option Uuid) (clock : Clock) (user_id : Uuid) (req : AdRequest)
    → Keeps ChatsMatch (update_mine parse_uuid clock user_id req)
unfolding update_mine profile_for_user count_tags tags_by_ad_id update_active_ad
update_mine-ChatsMatch parse_uuid clock user_id req =
    search (chat_row_rules, replace_tags-ChatsMatch) depth 24

pub delete_mine-ChatsMatch :
    (clock : Clock) (user_id : Uuid) → Keeps ChatsMatch (delete_mine clock user_id)
unfolding delete_mine profile_for_user
delete_mine-ChatsMatch clock user_id = search chat_row_rules depth 12

likes_of-ChatsMatch : (a : Option Ad) → Keeps ChatsMatch (likes_of a)
unfolding likes_of pending_likes_for_ad
likes_of-ChatsMatch none = search chat_row_rules
likes_of-ChatsMatch (some a) = search chat_row_rules

pub list_likes-ChatsMatch :
    (clock : Clock) (user_id : Uuid) → Keeps ChatsMatch (list_likes clock user_id)
unfolding list_likes profile_for_user list_likes_for active_ad_by_profile
list_likes-ChatsMatch clock user_id = search (chat_row_rules, for_profile) depth 8
  where
    for_profile : (p : Option (Uuid × Bool)) → Keeps ChatsMatch (list_likes_for clock p)
    for_profile none = search chat_row_rules
    for_profile (some (p, c)) = search (chat_row_rules, likes_of-ChatsMatch) depth 8
