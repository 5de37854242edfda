-- ===== src/Meeting/OneActive.antt =====
-- internal/meeting/service.go and repository.go: the active ads of a profile.
use native.Mathlib.Nat.{le_trans}
use meetgo_dating_server.Prelude.{
  ◌+◌, ◌≤◌, Text, first, count, exists, ==_iff, ◌==◌, if◌then◌else◌, Bool-cases, Option-cases,
  false, ◌||◌, not, Option, none, some, List, [], ◌∷◌, ◌≡◌, sym, inl, inr, arith, count-append,
  count_one, count-update_eq, count-update_le, count_mono,
}
use meetgo_dating_server.Schema.{Uuid, Time, Clock, Ad, expired, closed, Db}
use meetgo_dating_server.Exec.{statement}
use meetgo_dating_server.Exec.Keeps.{
  Keeps, Keeps-execute, Keeps-statement, Keeps-pure, Keeps-then, keeps_rules,
}
use meetgo_dating_server.Exec.Triples.{Keeps-tx}
use meetgo_dating_server.Profile.Repository.{same_link, has_item_id}
use meetgo_dating_server.Meeting.Repository.{
  active_ad_of, stale_ad_of, set_status, set_description, expire_stale, new_ad, ad_conflict,
  insert_ad, insert_ad_tag, insert_ad_tags, create_ad, update_description, clear_ad_tags,
  replace_tags, update_active_ad, close_active_ad, profile_for_user, active_ad_by_profile, ad_by_id,
  count_tags, tags_by_ad_id,
}
use meetgo_dating_server.Meeting.Service.{
  AdRequest, create, get_mine, get_by_id, update_mine, delete_mine,
}

abbrev pub IsOneActive : Db → Type 0
IsOneActive d = (p : Uuid) → count (active_ad_of p) d.meeting_ads ≤ 1

pub expire_stale-IsOneActive : (now : Time) (p : Uuid) → Keeps IsOneActive (expire_stale now p)
unfolding expire_stale active_ad_of
expire_stale-IsOneActive now p = Keeps-execute _ λ d h q.
    le_trans
      (count-update_le (active_ad_of q) (stale_ad_of p now) (set_status expired) d.meeting_ads
        (λ a. ground arith))
      (h q)

insert_ad-IsOneActive :
    (now : Time) (id p : Uuid) (desc : Text)
    → Keeps IsOneActive (statement (insert_ad (new_ad now id p desc)))
unfolding insert_ad active_ad_of ad_conflict
insert_ad-IsOneActive now id p desc = Keeps-statement _ λ d h.
    elim (Bool-cases (exists (ad_conflict (new_ad now id p desc)) d.meeting_ads)) [
      | inl e ↦ rw e h
      | inr e ↦
          rw e (λ q. rw (count-append (active_ad_of q), count_one) (added q d.meeting_ads (h q) e))
    ]
  where
    added :
        (q : Uuid) (ads : List Ad)
        → count (active_ad_of q) ads ≤ 1
        → exists (ad_conflict (new_ad now id p desc)) ads ≡ false
        → count (active_ad_of q) ads + (if active_ad_of q (new_ad now id p desc) then 1 else 0) ≤ 1
    added q ads h e = elim (Bool-cases (p == q)) [
      | inl t ↦ rw (sym ((==_iff p q).0 t)) (
          ground (
            arith,
            e,
            count_mono (active_ad_of p) (ad_conflict (new_ad now id p desc)) ads
                (λ a. ground arith),
          ))
      | inr t ↦ ground (arith, t, h)
    ]

close_active_ad-IsOneActive : (p : Uuid) → Keeps IsOneActive (close_active_ad p)
unfolding close_active_ad active_ad_of
close_active_ad-IsOneActive p = Keeps-statement _ λ d h q.
    le_trans
      (count-update_le (active_ad_of q) (active_ad_of p) (set_status closed) d.meeting_ads
        (λ a. ground arith))
      (h q)

update_description-IsOneActive :
    (p : Uuid) (desc : Text) → Keeps IsOneActive (statement (update_description p desc))
unfolding update_description
update_description-IsOneActive p desc = Keeps-statement _ λ d h.
    elim (Option-cases (first (active_ad_of p) d.meeting_ads)) [
      | inl e ↦ rw (e, update_description) h
      | inr (a, e) ↦
          rw (e, update_description)
            (λ q.
              rw
                (count-update_eq (active_ad_of q) (active_ad_of p) (set_description desc)
                  d.meeting_ads (λ a. unfold active_ad_of in ground arith))
                (h q))
    ]

insert_ad_tag-Keeps : (ad id : Uuid) → Keeps IsOneActive (statement (insert_ad_tag ad id))
unfolding insert_ad_tag
insert_ad_tag-Keeps ad id = Keeps-statement _ λ d h.
    elim (Bool-cases (
      exists (same_link ad id) d.meeting_ad_tags || not (exists (has_item_id id) d.meeting_tags))) [
        | inl e ↦ rw e h
        | inr e ↦ rw e h
      ]

insert_ad_tags-Keeps : (ad : Uuid) (ids : List Uuid) → Keeps IsOneActive (insert_ad_tags ad ids)
unfolding insert_ad_tags
insert_ad_tags-Keeps ad [] = Keeps-pure tt
insert_ad_tags-Keeps ad (id ∷ ids) =
    Keeps-then _ _ (insert_ad_tag-Keeps ad id) (insert_ad_tags-Keeps ad ids)

clear_ad_tags-Keeps : (ad : Uuid) → Keeps IsOneActive (clear_ad_tags ad)
unfolding clear_ad_tags
clear_ad_tags-Keeps ad = Keeps-execute _ (λ d h. h)

ruleset ad_rules = (
  keeps_rules, Keeps-tx, expire_stale-IsOneActive, insert_ad-IsOneActive,
  close_active_ad-IsOneActive, update_description-IsOneActive, insert_ad_tags-Keeps,
  clear_ad_tags-Keeps,
)

create_ad-Keeps :
    (now : Time) (id p : Uuid) (desc : Text) (ids : List Uuid)
    → Keeps IsOneActive (create_ad now id p desc ids)
unfolding create_ad
create_ad-Keeps now id p desc ids = search ad_rules depth 8

replace_tags-Keeps : (ids : List Uuid) (a : Option Ad) → Keeps IsOneActive (replace_tags ids a)
unfolding replace_tags
replace_tags-Keeps ids none = search ad_rules
replace_tags-Keeps ids (some a) = search ad_rules depth 8

update_active_ad-Keeps :
    (p : Uuid) (desc : Text) (ids : List Uuid) → Keeps IsOneActive (update_active_ad p desc ids)
unfolding update_active_ad
update_active_ad-Keeps p desc ids = search (ad_rules, replace_tags-Keeps) depth 8

pub create-IsOneActive :
    (parse_uuid : Text → Option Uuid) (clock : Clock) (id user_id : Uuid) (req : AdRequest)
    → Keeps IsOneActive (create parse_uuid clock id user_id req)
unfolding create profile_for_user active_ad_by_profile count_tags tags_by_ad_id
create-IsOneActive parse_uuid clock id user_id req = search (ad_rules, create_ad-Keeps) depth 24

pub get_mine-IsOneActive :
    (clock : Clock) (user_id : Uuid) → Keeps IsOneActive (get_mine clock user_id)
unfolding get_mine profile_for_user active_ad_by_profile tags_by_ad_id
get_mine-IsOneActive clock user_id = search ad_rules depth 12

pub get_by_id-IsOneActive : (clock : Clock) (id : Uuid) → Keeps IsOneActive (get_by_id clock id)
unfolding get_by_id ad_by_id tags_by_ad_id
get_by_id-IsOneActive clock id = search ad_rules depth 8

pub update_mine-IsOneActive :
    (parse_uuid : Text → Option Uuid) (clock : Clock) (user_id : Uuid) (req : AdRequest)
    → Keeps IsOneActive (update_mine parse_uuid clock user_id req)
unfolding update_mine profile_for_user count_tags tags_by_ad_id
update_mine-IsOneActive parse_uuid clock user_id req =
    search (ad_rules, update_active_ad-Keeps) depth 20

pub delete_mine-IsOneActive :
    (clock : Clock) (user_id : Uuid) → Keeps IsOneActive (delete_mine clock user_id)
unfolding delete_mine profile_for_user
delete_mine-IsOneActive clock user_id = search ad_rules depth 12
