-- ===== src/Meeting/Feed/Complete.antt =====
-- internal/meeting/feed_service.go: scrolling through the whole feed.
use meetgo_dating_server.Prelude.{
  ℕ, ◌≤◌, ◌<◌, ◌≡◌, refl, sym, ◌∙◌, ap, AreKeyed, Bool-cases, inl, inr, length, map, Bool, true,
  false, Option, none, some, List, [], ◌++◌, zero, suc, join-nothing,
}
use meetgo_dating_server.Http.{ok}
use meetgo_dating_server.Schema.{Uuid, Point, Db, UserGeo}
use meetgo_dating_server.Schema.Dates.{Date}
use meetgo_dating_server.Exec.{◌>>=◌, pure, query, statement}
use meetgo_dating_server.Meeting.Repository.{profile_of_user, profile_for_user}
use meetgo_dating_server.Meeting.Feed.Filters.{FeedSort, by_distance, by_date, FeedFilters}
use meetgo_dating_server.Meeting.Feed.Cursor.{Codec, IsFaithful}
use meetgo_dating_server.Meeting.Feed.Rows.{
  Geography, DbNow, FeedQuery, FeedMode, radius_mode, city_mode, in_mode, row_of, candidate_rows,
  order_rows, viewer_effective_point,
}
use meetgo_dating_server.Meeting.Feed.Service.{
  first_sort, mode_of, is_lost, feed_start, feed_from, feed_for, feed, empty_feed, FeedItem,
}
use meetgo_dating_server.Meeting.Feed.Candidates.{ad_key, row_of-Shows, Shows-in_mode}
use meetgo_dating_server.Meeting.Feed.Pages.{HasOrigin, whole_feed}
use meetgo_dating_server.Meeting.Feed.Answers.{item_of}
use meetgo_dating_server.Meeting.Feed.Scroll.{
  request, items_of, cursor_of, scroll, origin, feed_query, scroll_rest, first_page,
}

first_sort-HasOrigin : (sort : FeedSort) (v : Option Point) → HasOrigin (first_sort sort v) v
first_sort-HasOrigin sort none = tt
first_sort-HasOrigin by_date (some v) = tt
first_sort-HasOrigin by_distance (some v) = (v, refl)

in_mode-is_lost :
    (geography : Geography) (q : FeedQuery) (mode : FeedMode) (g : UserGeo) (p : Point)
    (v : Option Point)
    → q.viewer ≡ v
    → in_mode geography q mode g p ≡ true
    → is_lost mode v ≡ false
unfolding in_mode
in_mode-is_lost geography q (city_mode id) g p v e h = refl
in_mode-is_lost geography q (radius_mode r) g p (some v) e h = refl
in_mode-is_lost geography q (radius_mode r) g p none e h =
    let off : in_mode geography q (radius_mode r) g p ≡ false =
      ap (λ o. elim o as (λ _. Bool) [ none ↦ false | some v ↦ geography.within v p r ]) e in
    absurd (cc (h, off))

-- Without a point, the radius mode has no rows.
lost-whole_feed :
    (geography : Geography) (q : FeedQuery) (now : DbNow) (d : Db)
    → is_lost q.mode q.viewer ≡ true
    → whole_feed geography q now d ≡ []
unfolding candidate_rows order_rows
lost-whole_feed geography q now d h = ap (order_rows q.sort) (
    join-nothing (row_of geography q now d) d.meeting_ads (λ a r e.
      let s = row_of-Shows geography q now d a r e in
      let found =
        in_mode-is_lost geography q q.mode s.place s.point q.viewer refl
          (Shows-in_mode geography q now d a r s) in
      absurd (cc (h, found))))

module _ (x : Codec) (geography : Geography) (now : DbNow) (today : Date) (user_id : Uuid)
    (f : FeedFilters) (d : Db) where
  request_lost :
      (profile_id : Uuid)
      → profile_of_user user_id d ≡ some (profile_id, true)
      → is_lost (mode_of f) (origin x geography now today user_id f d) ≡ true
      → request x geography now today user_id f d [] ≡ ok empty_feed
  unfolding feed feed_for feed_start feed_from viewer_effective_point ◌>>=◌ query statement pure
      profile_for_user
  request_lost profile_id onboarded h =
      ap (λ o. (feed_for x geography now today user_id (record f { cursor_raw = [] }) o [] d).0)
        onboarded
      ∙ rw (h, feed_from) refl

  lost_scroll :
      (profile_id : Uuid) (n : ℕ)
      → profile_of_user user_id d ≡ some (profile_id, true)
      → is_lost (mode_of f) (origin x geography now today user_id f d) ≡ true
      → scroll x geography now today user_id f d n [] ≡ []
  unfolding scroll
  lost_scroll profile_id zero onboarded h = refl
  lost_scroll profile_id (suc n) onboarded h =
      ap
        (λ r.
          items_of x geography now today user_id f d r
          ++ elim (cursor_of x geography now today user_id f d r) as (λ _. List FeedItem) [
            | none ↦ []
            | some c ↦ scroll x geography now today user_id f d n c
          ])
        (request_lost profile_id onboarded h)

  -- While neither the database nor the clocks change, with a faithful codec, ads of different ids, a
  -- viewer whose profile is complete, a limit of at least one and more requests than there are rows:
  -- following the cursors from the first page gives the items of the whole feed in its order, each
  -- once.
  pub scroll_whole :
      (profile_id : Uuid) (n : ℕ)
      → IsFaithful x
      → AreKeyed ad_key d.meeting_ads
      → profile_of_user user_id d ≡ some (profile_id, true)
      → 1 ≤ f.limit
      → length
          (whole_feed geography (feed_query x geography now today user_id f d profile_id) now d)
        < n
      → scroll x geography now today user_id f d n []
        ≡ map
            (item_of today d)
            (whole_feed geography (feed_query x geography now today user_id f d profile_id) now d)
  scroll_whole profile_id n faithful keyed onboarded some_limit enough =
      elim (Bool-cases (is_lost (mode_of f) (origin x geography now today user_id f d))) [
        | inl t ↦
            lost_scroll profile_id n onboarded t
            ∙ ap (map (item_of today d)) (
                sym (
                  lost-whole_feed geography
                    (feed_query x geography now today user_id f d profile_id) now d t))
        | inr t ↦
            let placed = first_sort-HasOrigin f.sort (origin x geography now today user_id f d) in
            scroll_rest x geography now today user_id f d profile_id onboarded faithful keyed placed
              t n [] [] _ _ some_limit refl enough
              (first_page x geography now today user_id f d profile_id onboarded faithful keyed
                placed t)
              refl
      ]
