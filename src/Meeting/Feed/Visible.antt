-- ===== src/Meeting/Feed/Visible.antt =====
-- internal/meeting/feed_service.go: which ads a page of the feed may hold.
use meetgo_dating_server.Prelude.{
  ℕ, ◌≤◌, ◌<◌, ◌+◌, ◌≡◌, ◌≢◌, refl, subst, ap, arith, &&_elim, All, All-take, length,
  length-take_le, first, count-zero_first, exists, select_rows, select-All, take, join-All_of, ltb,
  ◌==◌, not, Bool, true, false, Option, none, some, List,
}
use mathlib.Core.List.{Memᴰ}
use meetgo_dating_server.Http.{Result, ok, err}
use meetgo_dating_server.Schema.{Uuid, Profile, Ad, AdStatus, active, expired, closed, Db}
use meetgo_dating_server.Schema.Dates.{younger_than}
use meetgo_dating_server.Profile.Repository.{has_profile_id}
use meetgo_dating_server.Meeting.Repository.{is_active_status}
use meetgo_dating_server.Meeting.Candidates.{response_to}
use meetgo_dating_server.Meeting.Feed.Filters.{FeedFilters}
use meetgo_dating_server.Meeting.Feed.Cursor.{Codec, FeedCursor}
use meetgo_dating_server.Meeting.Feed.Rows.{
  Geography, DbNow, FeedRow, FeedQuery, Position, after_position, position_of, page_after, page_of,
  order_rows, candidate_rows, row_of, matches_text, age_between, matches_tags, is_shown,
}
use meetgo_dating_server.Meeting.Feed.Service.{FeedStart, to_query}
use meetgo_dating_server.Meeting.Feed.Sorted.{order-All, row_key}
use meetgo_dating_server.Meeting.Feed.Candidates.{Shows, row_of-Shows}

-- The ad `id` may be shown to the profile `viewer` with the filters `f`.
pub record IsOffered (now : DbNow) (d : Db) (viewer : Uuid) (f : FeedFilters) (id : Uuid)
    : Type 0 where
  pub ad : Ad
  pub author : Profile
  pub listed : Memᴰ ad d.meeting_ads
  pub named : id ≡ ad.id
  pub is_active : ad.status ≡ active
  pub unexpired : now.time < ad.expires_at
  pub not_own : ad.author_profile_id ≢ viewer
  pub unanswered : first (response_to ad.id viewer) d.meeting_candidates ≡ none
  pub has_author : first (has_profile_id ad.author_profile_id) d.profiles ≡ some author
  pub of_gender : matches_text f.gender (some author.gender) ≡ true
  pub of_goal : matches_text f.goal author.dating_goal ≡ true
  pub old_enough : younger_than f.age_min author.birth_date now.date ≡ false
  pub young_enough : younger_than (f.age_max + 1) author.birth_date now.date ≡ true
  pub tagged : matches_tags f.tag_ids d.meeting_ad_tags ad.id ≡ true

abbrev pub Offers : DbNow → Db → Uuid → FeedFilters → List FeedRow → Type 0
Offers now d viewer f rows =
    All (λ r. IsOffered now d viewer f r.ad_id) rows × (length rows ≤ f.limit)

active_only : (s : AdStatus) → is_active_status s ≡ true → s ≡ active
active_only active h = refl
active_only expired h = absurd (cc h)
active_only closed h = absurd (cc h)

refuted : (b : Bool) → not b ≡ true → b ≡ false
refuted true h = absurd (cc h)
refuted false h = refl

earlier : (a b : ℕ) → ltb a b ≡ true → a < b
earlier a b h = ground arith

differs : (a b : ℕ) → not (a == b) ≡ true → a ≢ b
differs a b h e = ground arith

no_row : {A : Type 0} (p : A → Bool) (xs : List A) → not (exists p xs) ≡ true → first p xs ≡ none
no_row p xs h = count-zero_first p xs (ground arith)

module _ (geography : Geography) (now : DbNow) (d : Db) (viewer : Uuid) (f : FeedFilters)
    (s : FeedStart) where
  abbrev q : FeedQuery
  q = to_query viewer f s

  Shows-IsOffered :
      (a : Ad) (r : FeedRow)
      → Memᴰ a d.meeting_ads
      → Shows geography q now d a r
      → IsOffered now d viewer f r.ad_id
  unfolding is_shown age_between
  Shows-IsOffered a r m h =
      let (h8, mode) = &&_elim _ _ h.passes in
      let (h7, tags) = &&_elim _ _ h8 in
      let (h6, age) = &&_elim _ _ h7 in
      let (h5, goal) = &&_elim _ _ h6 in
      let (h4, gender) = &&_elim _ _ h5 in
      let (h3, first_answer) = &&_elim _ _ h4 in
      let (h2, other) = &&_elim _ _ h3 in
      let (is_on, later) = &&_elim _ _ h2 in
      let (old, young) = &&_elim _ _ age in
      record {
        ad = a;
        author = h.author;
        listed = m;
        named = ap row_key h.is_row;
        is_active = active_only a.status is_on;
        unexpired = earlier now.time a.expires_at later;
        not_own = differs a.author_profile_id viewer other;
        unanswered = no_row (response_to a.id viewer) d.meeting_candidates first_answer;
        has_author = h.has_author;
        of_gender = gender;
        of_goal = goal;
        old_enough = refuted _ old;
        young_enough = young;
        tagged = tags;
      }

  candidate_rows-IsOffered :
      All (λ r. IsOffered now d viewer f r.ad_id) (candidate_rows geography q now d)
  unfolding candidate_rows
  candidate_rows-IsOffered =
      join-All_of (row_of geography q now d) _ d.meeting_ads
        (λ a m r e. Shows-IsOffered a r m (row_of-Shows geography q now d a r e))

  limited :
      (rows : List FeedRow)
      → All (λ r. IsOffered now d viewer f r.ad_id) rows
      → Offers now d viewer f (take f.limit (order_rows q.sort rows))
  limited rows h = (
    All-take _ f.limit _ (order-All q.sort _ rows h),
    length-take_le f.limit (order_rows q.sort rows),
  )

  page_after-Offers :
      (x : Codec) (p : Result Position) (rows : List FeedRow)
      → page_after x geography q now p d ≡ ok rows
      → Offers now d viewer f rows
  unfolding page_after
  page_after-Offers x (err e) rows h = absurd (cc h)
  page_after-Offers x (ok p) rows h =
      let same : take f.limit
            (order_rows q.sort (select_rows (after_position p) (candidate_rows geography q now d)))
          ≡ rows =
        cc h in
      subst (Offers now d viewer f) same
        (limited _ (select-All (after_position p) _ _ candidate_rows-IsOffered))

  -- Whatever the cursor, the rows of a page may be shown, and are no more than the limit.
  pub page_of-Offers :
      (x : Codec) (c : Option FeedCursor) (rows : List FeedRow)
      → page_of x geography q now c d ≡ ok rows
      → Offers now d viewer f rows
  unfolding page_of
  page_of-Offers x none rows h =
      let same : take f.limit (order_rows q.sort (candidate_rows geography q now d)) ≡ rows =
        cc h in
      subst (Offers now d viewer f) same (limited _ candidate_rows-IsOffered)
  page_of-Offers x (some c) rows h = page_after-Offers x (position_of x q.sort c) rows h
