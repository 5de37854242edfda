-- ===== src/Meeting/Feed/Answers.antt =====
-- internal/meeting/feed_service.go: the response that is made from the rows of a page.
use meetgo_dating_server.Prelude.{
  ◌≡◌, refl, ap, arith, ==_refl, ◌==◌, ℕ, length, last_of, map, All, All-mono, if◌then◌else◌, true,
  Option, none, some, List, [], ◌∷◌, Text,
}
use meetgo_dating_server.Http.{ok}
use meetgo_dating_server.Schema.{Uuid, Point, Db}
use meetgo_dating_server.Schema.Dates.{Date}
use meetgo_dating_server.Exec.{◌>>=◌, pure, query, statement}
use meetgo_dating_server.Profile.Ids.{member}
use meetgo_dating_server.Profile.Repository.{items_for}
use meetgo_dating_server.Meeting.Feed.Filters.{FeedSort}
use meetgo_dating_server.Meeting.Feed.Cursor.{Codec}
use meetgo_dating_server.Meeting.Feed.Rows.{Geography, DbNow, FeedRow, tags_for, tags_by_ad_ids}
use meetgo_dating_server.Meeting.Feed.Service.{
  FeedStart, FeedItem, FeedResponse, row_id, to_feed_item, next_cursor, feed_response,
}

module _ (today : Date) (d : Db) where
  -- the item of a row, with all its tags
  abbrev pub item_of : FeedRow → FeedItem
  item_of = to_feed_item today (items_for d.meeting_ad_tags d.meeting_tags)

  all_members : (rows : List FeedRow) → All (λ u. member u.ad_id (map row_id rows) ≡ true) rows
  unfolding member
  all_members [] = tt
  all_members (r ∷ rows) =
      (ground (arith, ==_refl r.ad_id), All-mono rows (λ u h. ground (arith, h)) (all_members rows))

  items_with :
      (ids : List Uuid) (rows : List FeedRow)
      → All (λ u. member u.ad_id ids ≡ true) rows
      → map (to_feed_item today (tags_for ids d)) rows ≡ map item_of rows
  unfolding tags_for to_feed_item
  items_with ids [] h = refl
  items_with ids (r ∷ rows) h =
      rw (h.0, to_feed_item) (ap (λ items. item_of r ∷ items) (items_with ids rows h.1))

  module _ (x : Codec) (sort : FeedSort) (viewer : Option Point) (limit : ℕ) where
    abbrev pub next_of : List FeedRow → Option Text
    next_of [] = none
    next_of (r ∷ rows) =
        if length (r ∷ rows) == limit
        then some (next_cursor x sort (last_of r rows) viewer)
        else none

    abbrev pub response_of : List FeedRow → FeedResponse
    response_of rows = record { items = map item_of rows; next_cursor = next_of rows }

module _ (x : Codec) (geography : Geography) (now : DbNow) (today : Date) (s : FeedStart)
    (limit : ℕ) (d : Db) where
  pub feed_response_runs :
      (rows : List FeedRow)
      → (feed_response x geography now today s limit rows [] d).0
        ≡ ok (response_of today d x s.sort s.viewer limit rows)
  unfolding feed_response ◌>>=◌ pure query statement tags_by_ad_ids
  feed_response_runs [] = refl
  feed_response_runs (r ∷ rows) =
      ap
        (λ items. ok (record {
          items = items;
          next_cursor = next_of today d x s.sort s.viewer limit (r ∷ rows);
        }))
        (items_with today d (map row_id (r ∷ rows)) (r ∷ rows) (all_members today d (r ∷ rows)))
