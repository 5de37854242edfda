-- ===== src/Meeting/Feed/RoundTrip.antt =====
-- internal/meeting/feed_dto.go and feed_service.go: the cursor that a page hands out, read back.
use meetgo_dating_server.Prelude.{
  ℕ, ap, ◌≡◌, refl, text_eq, false, Option, none, some, [], ◌∷◌, Text,
}
use meetgo_dating_server.Http.{ok}
use meetgo_dating_server.Schema.{Uuid, Point, Db}
use meetgo_dating_server.Schema.Dates.{Date}
use meetgo_dating_server.Exec.{◌>>=◌}
use meetgo_dating_server.Meeting.Feed.Filters.{FeedSort, by_distance, by_date}
use meetgo_dating_server.Meeting.Feed.Cursor.{
  FeedCursor, Codec, IsFaithful, encode_cursor, check_cursor, decode_cursor,
}
use meetgo_dating_server.Meeting.Feed.Rows.{
  Geography, DbNow, FeedRow, Position, at_date, at_distance, position_of, cursor_time, deref_dist,
}
use meetgo_dating_server.Meeting.Feed.Service.{cursor_at, start_at, next_cursor, feed_start}

module _ (x : Codec) (faithful : IsFaithful x) (r : FeedRow) where
  check_cursor-at :
      (sort : FeedSort) (viewer : Option Point)
      → check_cursor x (cursor_at x sort r viewer) ≡ ok (cursor_at x sort r viewer)
  unfolding check_cursor text_eq
  check_cursor-at by_distance viewer = rw (faithful.named r.ad_id, check_cursor) refl
  check_cursor-at by_date viewer = rw (faithful.named r.ad_id, check_cursor) refl

  pub decode_cursor-next_cursor :
      (sort : FeedSort) (viewer : Option Point)
      → decode_cursor x (next_cursor x sort r viewer) ≡ ok (cursor_at x sort r viewer)
  unfolding decode_cursor next_cursor encode_cursor
  decode_cursor-next_cursor sort viewer =
      rw (faithful.marshalled (cursor_at x sort r viewer), decode_cursor)
        (check_cursor-at sort viewer)

  -- The page after it starts with the same sort and point.
  pub start_at-cursor :
      (sort : FeedSort) (viewer : Option Point)
      → start_at (cursor_at x sort r viewer)
        ≡ record { sort = sort; viewer = viewer; cursor = some (cursor_at x sort r viewer) }
  unfolding text_eq
  start_at-cursor by_distance none = refl
  start_at-cursor by_distance (some v) = refl
  start_at-cursor by_date none = refl
  start_at-cursor by_date (some v) = refl

-- Where the page after a row begins: its time and id, or its distance and id.
abbrev pub IsPositionOf : FeedSort → FeedRow → Position → Type 0
IsPositionOf by_date r p = p ≡ at_date r.created_at r.ad_id
IsPositionOf by_distance r p = (y : ℕ) → r.dist_km ≡ some y → p ≡ at_distance y r.ad_id

module _ (x : Codec) (faithful : IsFaithful x) (r : FeedRow) where
  -- What a cursor gives back: the sort, the viewer's point, and the position of the row.
  pub record IsReadBack (sort : FeedSort) (viewer : Option Point) (c : FeedCursor) : Type 0 where
    pub position : Position
    pub same_sort : (start_at c).sort ≡ sort
    pub same_viewer : (start_at c).viewer ≡ viewer
    pub read : position_of x sort c ≡ ok position
    pub is_position : IsPositionOf sort r position

  cursor_at-IsReadBack :
      (sort : FeedSort) (viewer : Option Point) → IsReadBack sort viewer (cursor_at x sort r viewer)
  unfolding position_of cursor_time
  cursor_at-IsReadBack by_date viewer = record {
    position = at_date r.created_at r.ad_id;
    same_sort = ap (λ s. s.sort) (start_at-cursor x faithful r by_date viewer);
    same_viewer = ap (λ s. s.viewer) (start_at-cursor x faithful r by_date viewer);
    read = rw (faithful.named r.ad_id, position_of) (rw (faithful.timed r.created_at) refl);
    is_position = refl;
  }
  cursor_at-IsReadBack by_distance viewer = record {
    position = at_distance (deref_dist r.dist_km) r.ad_id;
    same_sort = ap (λ s. s.sort) (start_at-cursor x faithful r by_distance viewer);
    same_viewer = ap (λ s. s.viewer) (start_at-cursor x faithful r by_distance viewer);
    read = rw (faithful.named r.ad_id, position_of) refl;
    is_position = λ y h. rw h refl;
  }

  -- With a faithful codec, for every row, sort and viewer's point: the cursor that a page hands out after
  -- the row decodes to one from which the next request takes the same sort, the same viewer's
  -- point, and the position of the row: its time of creation and id in the order by date, and its
  -- distance, where it has one, and id in the order by distance.
  pub next_cursor-IsReadBack :
      (sort : FeedSort) (viewer : Option Point)
      → (c : FeedCursor) × (decode_cursor x (next_cursor x sort r viewer) ≡ ok c)
        × IsReadBack sort viewer c
  next_cursor-IsReadBack sort viewer = (
    cursor_at x sort r viewer,
    decode_cursor-next_cursor x faithful r sort viewer,
    cursor_at-IsReadBack sort viewer,
  )

module _ (x : Codec) (geography : Geography) (now : DbNow) (today : Date) where
  -- A text that is not empty is read as a cursor.
  pub feed_start-cursor :
      (user_id : Uuid) (sort : FeedSort) (raw : Text) (c : FeedCursor) (d : Db)
      → text_eq raw [] ≡ false
      → decode_cursor x raw ≡ ok c
      → feed_start x geography now today user_id sort raw [] d ≡ (ok (start_at c), d, [])
  unfolding text_eq feed_start ◌>>=◌
  feed_start-cursor user_id sort [] c d h e = absurd (cc h)
  feed_start-cursor user_id sort (ch ∷ raw) c d h e = rw e refl
