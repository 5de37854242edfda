-- ===== src/Meeting/Candidates.antt =====
-- internal/meeting/candidate_repository.go, candidate_dto.go and candidate_service.go: likes on ads,
-- and the chats that accepted likes open.
use meetgo_dating_server.Prelude.{
  Text, first, exists, select_rows, update_rows, ltb, leb, ◌==◌, if◌then◌else◌, Bool, true, false,
  ◌&&◌, ◌||◌, not, Option, none, some, List, [], ◌∷◌, ◌++◌,
}
use meetgo_dating_server.Http.{internal, api, Result, ok, err}
use meetgo_dating_server.Schema.{
  Uuid, Time, Clock, Profile, Photo, Ad, Candidate, LikeStatus, pending, accepted, rejected, Chat,
  Db,
}
use meetgo_dating_server.Exec.{Exec, pure, statement, query, in_tx, or_throw, throw_if, ◌>>=◌, ◌>>◌}
use meetgo_dating_server.Profile.Repository.{has_profile_id}
use meetgo_dating_server.Profile.Photos.{photo_at}
use meetgo_dating_server.Meeting.Errors.{
  profile_required, ad_not_found, ad_not_active, cannot_like_own, already_responded, like_not_found,
  like_not_pending,
}
use meetgo_dating_server.Meeting.Repository.{
  profile_for_user, is_active_status, expire_stale, active_ad_by_profile, ad_by_id,
}

abbrev pub is_pending : LikeStatus → Bool
is_pending pending = true
is_pending accepted = false
is_pending rejected = false

unfoldable pub has_candidate_id : Uuid → Candidate → Bool
has_candidate_id id c = c.id == id

unfoldable pub response_to : Uuid → Uuid → Candidate → Bool
response_to ad_id profile_id c = c.meeting_ad_id == ad_id && c.profile_id == profile_id

abbrev pub new_candidate : Time → Uuid → Uuid → Uuid → Candidate
new_candidate db_now id ad_id profile_id = record {
  id = id;
  meeting_ad_id = ad_id;
  profile_id = profile_id;
  status = pending;
  created_at = db_now;
}

-- ON CONFLICT (meeting_ad_id, profile_id) DO NOTHING; the primary key
unfoldable pub insert_candidate : Candidate → Db → Result Bool × Db
insert_candidate c d =
    if exists (response_to c.meeting_ad_id c.profile_id) d.meeting_candidates
    then (ok false, d)
    else if exists (has_candidate_id c.id) d.meeting_candidates
    then (err internal, d)
    else (ok true, record d { meeting_candidates = d.meeting_candidates ++ c ∷ [] })

-- `id` is gen_random_uuid()'s
unfoldable pub create_candidate : Time → Uuid → Uuid → Uuid → Exec Bool
unfolding insert_candidate
create_candidate db_now id ad_id profile_id =
    statement (insert_candidate (new_candidate db_now id ad_id profile_id))

pub record LikeProfile : Type 0 where
  pub id : Uuid
  pub name : Text
  pub avatar_url : Option Text

pub record LikeResponse : Type 0 where
  pub id : Uuid
  pub created_at : Time
  pub profile : LikeProfile

unfoldable pub pending_for : Uuid → Candidate → Bool
pending_for ad_id c = c.meeting_ad_id == ad_id && is_pending c.status

-- ORDER BY created_at DESC
unfoldable pub insert_newest : Candidate → List Candidate → List Candidate
insert_newest c [] = c ∷ []
insert_newest c (b ∷ bs) =
    let rest = insert_newest c bs in if leb b.created_at c.created_at then c ∷ b ∷ bs else b ∷ rest

unfoldable pub newest_first : List Candidate → List Candidate
unfolding insert_newest
newest_first [] = []
newest_first (c ∷ cs) = insert_newest c (newest_first cs)

-- LEFT JOIN photos at position 0
unfoldable pub avatar_of : Uuid → List Photo → Option Text
avatar_of profile_id photos = elim (first (photo_at profile_id 0) photos) [
  | none ↦ none
  | some p ↦ some p.url
]

abbrev pub to_like_response : Candidate → Profile → Option Text → LikeResponse
to_like_response c p avatar = record {
  id = c.id;
  created_at = c.created_at;
  profile = record { id = p.id; name = p.name; avatar_url = avatar };
}

-- JOIN profiles
unfoldable pub like_rows : List Profile → List Photo → List Candidate → List LikeResponse
unfolding avatar_of
like_rows profiles photos [] = []
like_rows profiles photos (c ∷ cs) =
    let rest = like_rows profiles photos cs in
    elim (first (has_profile_id c.profile_id) profiles) [
      | none ↦ rest
      | some p ↦ to_like_response c p (avatar_of p.id photos) ∷ rest
    ]

unfoldable pub pending_likes_for_ad : Uuid → Exec (List LikeResponse)
unfolding like_rows newest_first
pending_likes_for_ad ad_id = query λ d.
    like_rows d.profiles d.photos
      (newest_first (select_rows (pending_for ad_id) d.meeting_candidates))

-- the JOIN with the ads of the author
unfoldable pub authored_by : Uuid → List Ad → Candidate → Bool
authored_by profile_id ads c =
    exists (λ a. a.id == c.meeting_ad_id && a.author_profile_id == profile_id) ads

unfoldable pub candidate_for_author : Uuid → Uuid → Exec (Option Candidate)
unfolding authored_by
candidate_for_author id profile_id =
    query
      λ d. first (λ c. c.id == id && authored_by profile_id d.meeting_ads c) d.meeting_candidates

unfoldable pub pending_named : Uuid → Candidate → Bool
pending_named id c = c.id == id && is_pending c.status

abbrev pub set_like : LikeStatus → Candidate → Candidate
set_like status c = record c { status = status }

-- UPDATE … WHERE id = $1 AND status = 'PENDING', and the test of RowsAffected() == 0
unfoldable pub decide_like : Uuid → LikeStatus → Db → Result (Unit {0}) × Db
unfolding pending_named
decide_like id status d =
    if exists (pending_named id) d.meeting_candidates
    then (
      ok tt,
      record d {
        meeting_candidates = update_rows (pending_named id) (set_like status) d.meeting_candidates;
      },
    )
    else (err (api like_not_pending), d)

unfoldable pub chat_of : Uuid → Chat → Bool
chat_of candidate_id c = c.meeting_candidate_id == candidate_id

-- the primary key and the unique candidate of chats
unfoldable pub chat_conflict : Chat → Chat → Bool
unfolding chat_of
chat_conflict b c = c.id == b.id || chat_of b.meeting_candidate_id c

unfoldable pub insert_chat : Chat → Db → Result Uuid × Db
unfolding chat_conflict
insert_chat c d =
    if exists (chat_conflict c) d.chats
    then (err internal, d)
    else (ok c.id, record d { chats = d.chats ++ c ∷ [] })

-- `chat_id` is gen_random_uuid()'s
unfoldable pub accept_candidate : Uuid → Uuid → Exec Uuid
unfolding decide_like insert_chat
accept_candidate chat_id id = in_tx (do
  statement (decide_like id accepted)
  statement (insert_chat (record { id = chat_id; meeting_candidate_id = id })))

unfoldable pub reject_candidate : Uuid → Exec (Unit {0})
unfolding decide_like
reject_candidate id = statement (decide_like id rejected)

-- the two conditions under which an ad takes no likes: its status, and its time by the server's clock
unfoldable pub takes_no_likes : Time → Ad → Bool
takes_no_likes now a = not (is_active_status a.status) || ltb a.expires_at now

unfoldable pub like : Clock → Uuid → Uuid → Uuid → Exec (Unit {0})
unfolding takes_no_likes
like clock new_id user_id ad_id = do
  found ← profile_for_user user_id
  (viewer_profile_id, created) ← or_throw found profile_required
  throw_if (not created) profile_required
  found_ad ← ad_by_id ad_id
  ad ← or_throw found_ad ad_not_found
  throw_if (takes_no_likes clock.app ad) ad_not_active
  throw_if (ad.author_profile_id == viewer_profile_id) cannot_like_own
  created_like ← create_candidate clock.db new_id ad_id viewer_profile_id
  throw_if (not created_like) already_responded

-- the likes of the active ad, or none
unfoldable pub likes_of : Option Ad → Exec (List LikeResponse)
likes_of none = pure []
likes_of (some ad) = pending_likes_for_ad ad.id

unfoldable pub list_likes_for : Clock → Option (Uuid × Bool) → Exec (List LikeResponse)
unfolding likes_of
list_likes_for clock none = pure []
list_likes_for clock (some (profile_id, created)) = do
  expire_stale clock.db profile_id
  current ← active_ad_by_profile profile_id
  likes_of current

unfoldable pub list_likes : Clock → Uuid → Exec (List LikeResponse)
unfolding list_likes_for
list_likes clock user_id = do found ← profile_for_user user_id; list_likes_for clock found

unfoldable pub require_own_candidate : Uuid → Uuid → Exec Candidate
require_own_candidate user_id candidate_id = do
  found ← profile_for_user user_id
  (profile_id, created) ← or_throw found like_not_found
  cand ← candidate_for_author candidate_id profile_id
  or_throw cand like_not_found

-- the chat's id
unfoldable pub accept : Uuid → Uuid → Uuid → Exec Uuid
unfolding require_own_candidate
accept chat_id user_id candidate_id = do
  cand ← require_own_candidate user_id candidate_id
  throw_if (not (is_pending cand.status)) like_not_pending
  accept_candidate chat_id candidate_id

unfoldable pub reject : Uuid → Uuid → Exec (Unit {0})
unfolding require_own_candidate
reject user_id candidate_id = do
  cand ← require_own_candidate user_id candidate_id
  reject_candidate candidate_id
