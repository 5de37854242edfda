-- ===== src/Meeting/Repository.antt =====
-- internal/meeting/repository.go
use meetgo_dating_server.Prelude.{
  ℕ, ◌+◌, ◌*◌, Text, first, exists, update_rows, delete_rows, leb, ◌==◌, if◌then◌else◌, Bool, true,
  false, ◌&&◌, ◌||◌, not, Option, none, some, List, [], ◌∷◌, ◌++◌,
}
use meetgo_dating_server.Http.{internal, Result, ok, err}
use meetgo_dating_server.Schema.{
  Uuid, Time, User, Profile, RefItem, Ad, AdStatus, active, expired, closed, Db,
}
use meetgo_dating_server.Exec.{Exec, pure, statement, query, execute, in_tx, ◌>>=◌, ◌>>◌}
use meetgo_dating_server.Auth.Repository.{has_user_id}
use meetgo_dating_server.Profile.Repository.{
  of_user, has_item_id, count_items, items_for, same_link, link_of,
}

-- 24 hours
abbrev pub ad_ttl : ℕ
ad_ttl = 86400 * 1000000000

-- listTags: ORDER BY value, the order in which the table is kept
unfoldable pub list_tags : Exec (List RefItem)
list_tags = query (λ d. d.meeting_tags)

unfoldable pub count_tags : List Uuid → Exec ℕ
count_tags ids = query (λ d. count_items ids d.meeting_tags)

unfoldable pub tags_by_ad_id : Uuid → Exec (List RefItem)
tags_by_ad_id ad_id = query (λ d. items_for d.meeting_ad_tags d.meeting_tags ad_id)

-- users JOIN profiles: the profile's id, and whether onboarding is done
abbrev join_profile : Option User → Option Profile → Option (Uuid × Bool)
join_profile (some u) (some p) = some (p.id, u.is_created_profile)
join_profile (some u) none = none
join_profile none p = none

unfoldable pub profile_of_user : Uuid → Db → Option (Uuid × Bool)
profile_of_user user_id d =
    join_profile (first (has_user_id user_id) d.users) (first (of_user user_id) d.profiles)

unfoldable pub profile_for_user : Uuid → Exec (Option (Uuid × Bool))
unfolding profile_of_user
profile_for_user user_id = query (profile_of_user user_id)

abbrev pub is_active_status : AdStatus → Bool
is_active_status active = true
is_active_status expired = false
is_active_status closed = false

unfoldable pub active_ad_of : Uuid → Ad → Bool
active_ad_of profile_id a = a.author_profile_id == profile_id && is_active_status a.status

unfoldable pub has_ad_id : Uuid → Ad → Bool
has_ad_id id a = a.id == id

-- expires_at <= now()
unfoldable pub stale_ad_of : Uuid → Time → Ad → Bool
unfolding active_ad_of
stale_ad_of profile_id db_now a = active_ad_of profile_id a && leb a.expires_at db_now

abbrev pub set_status : AdStatus → Ad → Ad
set_status status a = record a { status = status }

unfoldable pub expire_stale : Time → Uuid → Exec (Unit {0})
unfolding stale_ad_of
expire_stale db_now profile_id = execute (λ d. record d {
  meeting_ads = update_rows (stale_ad_of profile_id db_now) (set_status expired) d.meeting_ads;
})

unfoldable pub active_ad_by_profile : Uuid → Exec (Option Ad)
active_ad_by_profile profile_id = query (λ d. first (active_ad_of profile_id) d.meeting_ads)

unfoldable pub ad_by_id : Uuid → Exec (Option Ad)
ad_by_id id = query (λ d. first (has_ad_id id) d.meeting_ads)

-- one row of meeting_ad_tags: its primary key, and the foreign key to meeting_tags
unfoldable pub insert_ad_tag : Uuid → Uuid → Db → Result (Unit {0}) × Db
insert_ad_tag ad_id id d =
    if exists (same_link ad_id id) d.meeting_ad_tags || not (exists (has_item_id id) d.meeting_tags)
    then (err internal, d)
    else (ok tt, record d { meeting_ad_tags = d.meeting_ad_tags ++ (ad_id, id) ∷ [] })

unfoldable pub insert_ad_tags : Uuid → List Uuid → Exec (Unit {0})
unfolding insert_ad_tag
insert_ad_tags ad_id [] = pure tt
insert_ad_tags ad_id (id ∷ ids) = do statement (insert_ad_tag ad_id id); insert_ad_tags ad_id ids

-- the defaults of the table, and `expires_at = now() + adTTL`
abbrev pub new_ad : Time → Uuid → Uuid → Text → Ad
new_ad db_now id profile_id desc = record {
  id = id;
  author_profile_id = profile_id;
  description = desc;
  status = active;
  created_at = db_now;
  expires_at = db_now + ad_ttl;
}

-- the primary key, and the partial unique index of active ads
unfoldable pub ad_conflict : Ad → Ad → Bool
unfolding active_ad_of
ad_conflict b a = a.id == b.id || active_ad_of b.author_profile_id a

unfoldable pub insert_ad : Ad → Db → Result Ad × Db
unfolding ad_conflict
insert_ad a d =
    if exists (ad_conflict a) d.meeting_ads
    then (err internal, d)
    else (ok a, record d { meeting_ads = d.meeting_ads ++ a ∷ [] })

-- `id` is gen_random_uuid()'s
unfoldable pub create_ad : Time → Uuid → Uuid → Text → List Uuid → Exec Ad
unfolding insert_ad insert_ad_tags
create_ad db_now id profile_id desc tag_ids = in_tx (do
  row ← statement (insert_ad (new_ad db_now id profile_id desc))
  insert_ad_tags row.id tag_ids
  pure row)

abbrev pub set_description : Text → Ad → Ad
set_description desc a = record a { description = desc }

-- UPDATE … RETURNING
unfoldable pub update_description : Uuid → Text → Db → Result (Option Ad) × Db
update_description profile_id desc d = elim (first (active_ad_of profile_id) d.meeting_ads) [
  | none ↦ (ok none, d)
  | some a ↦ (
    ok (some (set_description desc a)),
    record d {
      meeting_ads = update_rows (active_ad_of profile_id) (set_description desc) d.meeting_ads;
    },
  )
]

unfoldable pub clear_ad_tags : Uuid → Exec (Unit {0})
clear_ad_tags ad_id =
    execute (λ d. record d { meeting_ad_tags = delete_rows (link_of ad_id) d.meeting_ad_tags })

unfoldable pub replace_tags : List Uuid → Option Ad → Exec (Option Ad)
unfolding clear_ad_tags insert_ad_tags
replace_tags tag_ids none = pure none
replace_tags tag_ids (some row) = do
  clear_ad_tags row.id
  insert_ad_tags row.id tag_ids
  pure (some row)

unfoldable pub update_active_ad : Uuid → Text → List Uuid → Exec (Option Ad)
unfolding update_description replace_tags
update_active_ad profile_id desc tag_ids =
    in_tx (do row ← statement (update_description profile_id desc); replace_tags tag_ids row)

-- RowsAffected() > 0
unfoldable pub close_active_ad : Uuid → Exec Bool
close_active_ad profile_id = statement λ d. (
  ok (exists (active_ad_of profile_id) d.meeting_ads),
  record d {
    meeting_ads = update_rows (active_ad_of profile_id) (set_status closed) d.meeting_ads;
  },
)
