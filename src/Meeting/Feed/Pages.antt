-- ===== src/Meeting/Feed/Pages.antt =====
-- internal/meeting/feed_repository.go: a page after a cursor, against the list of all rows.
use meetgo_dating_server.Prelude.{
  ℕ, ◌≡◌, refl, subst, ◌∙◌, ap, arith, All, AreKeyed, All-middle, All-append_right, join-All,
  select_rows, select-split, take, Bool, true, false, Option, some, List, [], ◌∷◌, ◌++◌,
}
use meetgo_dating_server.Http.{ok}
use meetgo_dating_server.Schema.{Ad, Point, Db}
use meetgo_dating_server.Meeting.Feed.Filters.{FeedSort, by_distance, by_date}
use meetgo_dating_server.Meeting.Feed.Cursor.{Codec, IsFaithful}
use meetgo_dating_server.Meeting.Feed.Rows.{
  Geography, DbNow, FeedQuery, FeedRow, row_before, order_rows, candidate_rows, row_of,
  after_position, cursor_time, deref_dist, position_at, position_of, page_after, page_of,
}
use meetgo_dating_server.Meeting.Feed.Service.{cursor_at}
use meetgo_dating_server.Meeting.Feed.Order.{row_before_asym, row_before_irrefl}
use meetgo_dating_server.Meeting.Feed.Sorted.{
  Leads, Sorted, Sorted-append_right, order-Sorted, order-select, order-All,
}
use meetgo_dating_server.Meeting.Feed.Candidates.{
  Shows, row_of-Shows, ad_key, candidate_rows-AreDistinct,
}

-- A row that the order can place: with a distance, where the distance is the order.
abbrev pub Located : FeedSort → FeedRow → Type 0
Located by_date r = Unit
Located by_distance r = (y : ℕ) × (r.dist_km ≡ some y)

-- A viewer that has a point, where the distance is the order.
abbrev pub HasOrigin : FeedSort → Option Point → Type 0
HasOrigin by_date v = Unit
HasOrigin by_distance v = (p : Point) × (v ≡ some p)

module _ (x : Codec) (faithful : IsFaithful x) where
  -- The test on the rows after a cursor is the order itself.
  after_position-row_before :
      (sort : FeedSort) (r s : FeedRow) (viewer : Option Point)
      → Located sort r
      → Located sort s
      → after_position (position_at x sort (cursor_at x sort r viewer) r.ad_id) s
        ≡ row_before sort r s
  unfolding after_position row_before cursor_time
  after_position-row_before by_date r s viewer hr hs =
      rw (faithful.timed r.created_at) (ground arith)
  after_position-row_before by_distance r s viewer (y, hr) (z, hs) =
      let e : deref_dist r.dist_km ≡ y = ap deref_dist hr in rw (hr, hs) (ground (arith, e))

  position_of-cursor :
      (sort : FeedSort) (r : FeedRow) (viewer : Option Point)
      → position_of x sort (cursor_at x sort r viewer)
        ≡ ok (position_at x sort (cursor_at x sort r viewer) r.ad_id)
  unfolding position_of
  position_of-cursor sort r viewer = rw (faithful.named r.ad_id, position_of) refl

  module _ (sort : FeedSort) (viewer : Option Point) (r : FeedRow) where
    is_after : FeedRow → Bool
    is_after = after_position (position_at x sort (cursor_at x sort r viewer) r.ad_id)

    sees_not :
        (u : FeedRow)
        → Located sort r
        → Located sort u
        → row_before sort u r ≡ true
        → is_after u ≡ false
    unfolding is_after
    sees_not u hr hu h =
        after_position-row_before sort r u viewer hr hu ∙ row_before_asym sort u r h

    -- the rows before `r` are not seen again
    front :
        (xs ys : List FeedRow)
        → Sorted sort (xs ++ r ∷ ys)
        → All (Located sort) (xs ++ r ∷ ys)
        → All (λ u. is_after u ≡ false) xs
    front [] ys h k = tt
    front (u ∷ xs) ys h k =
        let hr = All-middle (Located sort) xs r ys k.1 in
        (sees_not u hr k.0 (All-middle _ xs r ys h.0), front xs ys h.1 k.1)

    -- the rows after it are
    back :
        (ys : List FeedRow)
        → Located sort r
        → Leads sort r ys
        → All (Located sort) ys
        → All (λ u. is_after u ≡ true) ys
    unfolding is_after
    back [] hr h k = tt
    back (u ∷ ys) hr h k =
        (after_position-row_before sort r u viewer hr k.0 ∙ h.0, back ys hr h.1 k.1)

    select-rest :
        (xs ys : List FeedRow)
        → Sorted sort (xs ++ r ∷ ys)
        → All (Located sort) (xs ++ r ∷ ys)
        → select_rows is_after (xs ++ r ∷ ys) ≡ ys
    unfolding is_after
    select-rest xs ys h k =
        let rest = Sorted-append_right sort xs (r ∷ ys) h in
        let placed = All-append_right (Located sort) xs (r ∷ ys) k in
        let self =
          after_position-row_before sort r r viewer placed.0 placed.0 ∙ row_before_irrefl sort r in
        select-split is_after xs r ys (front xs ys h k) self (back ys placed.0 rest.0 placed.1)

candidate_rows-Located :
    (geography : Geography) (q : FeedQuery) (now : DbNow) (d : Db)
    → HasOrigin q.sort q.viewer
    → All (Located q.sort) (candidate_rows geography q now d)
unfolding candidate_rows
candidate_rows-Located geography q now d h =
    join-All (row_of geography q now d) (Located q.sort) d.meeting_ads
      (λ a r e. go q.sort h a r (row_of-Shows geography q now d a r e))
  where
    go :
        (sort : FeedSort)
        → HasOrigin sort q.viewer
        → (a : Ad) (r : FeedRow) → Shows geography q now d a r
        → Located sort r
    go by_date h a r s = tt
    go by_distance (v, h) a r s = (geography.distance v s.point, rw (s.is_row, h) refl)

-- All rows of a query, in its order: what a reader who scrolls to the end should see.
abbrev pub whole_feed : Geography → FeedQuery → DbNow → Db → List FeedRow
whole_feed geography q now d = order_rows q.sort (candidate_rows geography q now d)

-- With the ids of the ads different, the codec faithful, and a viewer's point where the order is by
-- distance: the page after the cursor of a row of the whole feed is the first `limit` of the rows
-- that follow it in the whole feed.
pub page_of-rest :
    (x : Codec) (geography : Geography) (q : FeedQuery) (now : DbNow) (d : Db) (xs : List FeedRow)
    (r : FeedRow) (ys : List FeedRow)
    → IsFaithful x
    → AreKeyed ad_key d.meeting_ads
    → HasOrigin q.sort q.viewer
    → whole_feed geography q now d ≡ xs ++ r ∷ ys
    → page_of x geography q now (some (cursor_at x q.sort r q.viewer)) d ≡ ok (take q.limit ys)
unfolding page_of page_after is_after
page_of-rest x geography q now d xs r ys faithful keyed origin split =
    let rows = candidate_rows geography q now d in
    let distinct = candidate_rows-AreDistinct geography q now d keyed in
    let sorted = subst (Sorted q.sort) split (order-Sorted q.sort rows distinct) in
    let located =
      subst (All (Located q.sort)) split
        (order-All q.sort _ rows (candidate_rows-Located geography q now d origin)) in
    let rest =
      order-select q.sort (is_after x faithful q.sort q.viewer r) rows distinct
      ∙ ap (select_rows (is_after x faithful q.sort q.viewer r)) split
      ∙ select-rest x faithful q.sort q.viewer r xs ys sorted located in
    ap (λ p. page_after x geography q now p d) (position_of-cursor x faithful q.sort r q.viewer)
    ∙ ap (λ rows. ok (take q.limit rows)) rest
