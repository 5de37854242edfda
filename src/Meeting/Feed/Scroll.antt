-- ===== src/Meeting/Feed/Scroll.antt =====
-- internal/meeting/feed_service.go: a reader that follows the cursors to the end of the feed.
use meetgo_dating_server.Prelude.{
  ℕ, zero, suc, ◌≤◌, ◌<◌, ◌≡◌, refl, sym, ◌∙◌, ap, arith, AreKeyed, Bool-cases, inl, inr, first,
  take, drop, take-drop, take_short, init_of, init-last, last_of, length, length-append, map,
  map-append, append_assoc, append-nil, ==_iff, ◌==◌, true, false, Option, none, some, List, [],
  ◌∷◌, ◌++◌, Text,
}
use meetgo_dating_server.Http.{Result, ok, err}
use meetgo_dating_server.Schema.{Uuid, Point, Db}
use meetgo_dating_server.Schema.Dates.{Date}
use meetgo_dating_server.Exec.{continue, ◌>>=◌, pure, query, statement}
use meetgo_dating_server.Meeting.Repository.{profile_of_user, profile_for_user}
use meetgo_dating_server.Meeting.Feed.Filters.{FeedSort, FeedFilters}
use meetgo_dating_server.Meeting.Feed.Cursor.{Codec, IsFaithful, encode_cursor}
use meetgo_dating_server.Meeting.Feed.Rows.{
  Geography, DbNow, FeedRow, FeedQuery, geo_of, point_of, viewer_effective_point, page_of,
  feed_page, candidate_rows,
}
use meetgo_dating_server.Meeting.Feed.Service.{
  FeedStart, FeedItem, FeedResponse, start_first, first_sort, cursor_at, mode_of, to_query, is_lost,
  next_cursor, feed_start, feed_from, feed_for, feed,
}
use meetgo_dating_server.Meeting.Feed.Candidates.{ad_key}
use meetgo_dating_server.Meeting.Feed.Pages.{HasOrigin, whole_feed, page_of-rest}
use meetgo_dating_server.Meeting.Feed.RoundTrip.{
  decode_cursor-next_cursor, start_at-cursor, feed_start-cursor,
}
use meetgo_dating_server.Meeting.Feed.Answers.{item_of, next_of, response_of, feed_response_runs}

module _ (x : Codec) (geography : Geography) (now : DbNow) (today : Date) (user_id : Uuid)
    (f : FeedFilters) (d : Db) where
  -- the request for the page at a cursor, the empty one for the first page
  abbrev pub request : Text → Result FeedResponse
  request raw = (feed x geography now today user_id (record f { cursor_raw = raw }) [] d).0

  abbrev pub items_of : Result FeedResponse → List FeedItem
  items_of (ok p) = p.items
  items_of (err e) = []

  abbrev pub cursor_of : Result FeedResponse → Option Text
  cursor_of (ok p) = p.next_cursor
  cursor_of (err e) = none

  -- at most so many requests, each at the cursor of the one before
  unfoldable pub scroll : ℕ → Text → List FeedItem
  scroll zero raw = []
  scroll (suc n) raw =
      items_of (request raw) ++ elim (cursor_of (request raw)) [ none ↦ [] | some c ↦ scroll n c ]

  -- the viewer's point, and the sort that it leaves
  abbrev pub origin : Option Point
  origin = point_of (first (geo_of user_id) d.user_geo)

  abbrev pub real_sort : FeedSort
  real_sort = first_sort f.sort origin

  abbrev pub feed_query : Uuid → FeedQuery
  feed_query profile_id = to_query profile_id f (start_first f.sort origin)

  module _ (profile_id : Uuid)
      (onboarded : profile_of_user user_id d ≡ some (profile_id, true)) where
    feed_from_runs :
        (s : FeedStart) (rows : List FeedRow)
        → is_lost (mode_of f) s.viewer ≡ false
        → page_of x geography (to_query profile_id f s) now s.cursor d ≡ ok rows
        → (feed_from x geography now today profile_id f s [] d).0
          ≡ ok (response_of today d x s.sort s.viewer f.limit rows)
    unfolding feed_from feed_page ◌>>=◌ statement
    feed_from_runs s rows found h =
        rw found (rw (h, feed_page) (feed_response_runs x geography now today s f.limit d rows))

    request_runs :
        (raw : Text) (s : FeedStart) (rows : List FeedRow)
        → feed_start x geography now today user_id f.sort raw [] d ≡ (ok s, d, [])
        → is_lost (mode_of f) s.viewer ≡ false
        → page_of x geography (to_query profile_id f s) now s.cursor d ≡ ok rows
        → request raw ≡ ok (response_of today d x s.sort s.viewer f.limit rows)
    unfolding feed feed_for ◌>>=◌ query statement profile_for_user
    request_runs raw s rows start found h =
        ap (λ o. (feed_for x geography now today user_id (record f { cursor_raw = raw }) o [] d).0)
          onboarded
        ∙ ap
            (λ r.
              (continue r.0
                (feed_from x geography now today profile_id (record f { cursor_raw = raw })) r.2
                r.1).0)
            start
        ∙ feed_from_runs s rows found h

    module _ (faithful : IsFaithful x) (keyed : AreKeyed ad_key d.meeting_ads)
        (placed : HasOrigin real_sort origin) (found : is_lost (mode_of f) origin ≡ false) where
      abbrev pub rows_all : List FeedRow
      rows_all = whole_feed geography (feed_query profile_id) now d

      -- the answer of a request with the rows `ys` still to come
      abbrev pub Serves : Text → List FeedRow → Type 0
      Serves raw ys =
          request raw ≡ ok (response_of today d x real_sort origin f.limit (take f.limit ys))

      pub first_page : Serves [] rows_all
      unfolding feed_start ◌>>=◌ pure query statement viewer_effective_point page_of
      first_page =
          request_runs [] (start_first f.sort origin) (take f.limit rows_all) refl found refl

      later_page :
          (xs : List FeedRow) (r : FeedRow) (ys : List FeedRow)
          → rows_all ≡ xs ++ r ∷ ys
          → Serves (next_cursor x real_sort r origin) ys
      unfolding next_cursor encode_cursor candidate_rows
      later_page xs r ys split =
          let c = cursor_at x real_sort r origin in
          let s : FeedStart = record { sort = real_sort; viewer = origin; cursor = some c } in
          let start =
            feed_start-cursor x geography now today user_id f.sort
              (next_cursor x real_sort r origin) c d (faithful.not_empty c)
              (decode_cursor-next_cursor x faithful r real_sort origin)
            ∙ ap (λ s. (ok s, d, [])) (start_at-cursor x faithful r real_sort origin) in
          request_runs _ s (take f.limit ys) start found (
            page_of-rest x geography (to_query profile_id f s) now d xs r ys faithful keyed placed
              split)

      abbrev continue_at : ℕ → Option Text → List FeedItem
      continue_at n next = elim next [ none ↦ [] | some c ↦ scroll n c ]

      scroll_step :
          (n : ℕ) (raw : Text) (rows ys : List FeedRow)
          → Serves raw ys
          → take f.limit ys ≡ rows
          → scroll (suc n) raw
            ≡ map (item_of today d) rows
              ++ continue_at n (next_of today d x real_sort origin f.limit rows)
      unfolding scroll
      scroll_step n raw rows ys served e =
          ap (λ r. items_of r ++ continue_at n (cursor_of r))
            (served ∙ ap (λ us. ok (response_of today d x real_sort origin f.limit us)) e)

      rejoin : (rows ys : List FeedRow) → take f.limit ys ≡ rows → ys ≡ rows ++ drop f.limit ys
      rejoin rows ys e = sym (take-drop f.limit ys) ∙ ap (λ us. us ++ drop f.limit ys) e

      split_page :
          (xs ys : List FeedRow) (r : FeedRow) (rows : List FeedRow)
          → rows_all ≡ xs ++ ys
          → take f.limit ys ≡ r ∷ rows
          → rows_all ≡ (xs ++ init_of r rows) ++ last_of r rows ∷ drop f.limit ys
      split_page xs ys r rows split e =
          split
          ∙ ap (λ us. xs ++ us)
              (rejoin (r ∷ rows) ys e
                ∙ ap (λ us. us ++ drop f.limit ys) (sym (init-last r rows))
                ∙ append_assoc (init_of r rows) (last_of r rows ∷ []) (drop f.limit ys))
          ∙ sym (append_assoc xs (init_of r rows) (last_of r rows ∷ drop f.limit ys))

      pub scroll_rest :
          (n : ℕ) (raw : Text) (xs ys rows : List FeedRow)
          → 1 ≤ f.limit
          → rows_all ≡ xs ++ ys
          → length ys < n
          → Serves raw ys
          → take f.limit ys ≡ rows
          → scroll n raw ≡ map (item_of today d) ys
      scroll_rest zero raw xs ys rows some_limit split enough served e =
          absurd (omega (arith, enough))
      scroll_rest (suc n) raw xs ys [] some_limit split enough served e =
          let short =
            take_short f.limit ys (λ h. absurd (omega (arith, h, ap length e, some_limit))) in
          scroll_step n raw [] ys served e ∙ ap (map (item_of today d)) (sym e ∙ short)
      scroll_rest (suc n) raw xs ys (r ∷ rows) some_limit split enough served e =
          let item = item_of today d in
          let step = scroll_step n raw (r ∷ rows) ys served e in
          elim (Bool-cases (length (r ∷ rows) == f.limit)) [
            | inl t ↦
                let later =
                  later_page _ (last_of r rows) (drop f.limit ys)
                    (split_page xs ys r rows split e) in
                let cut =
                  ap length (rejoin (r ∷ rows) ys e) ∙ length-append (r ∷ rows) (drop f.limit ys) in
                let fewer : length (drop f.limit ys) < n = omega (arith, enough, cut) in
                let resplit =
                  split
                  ∙ ap (λ us. xs ++ us) (rejoin (r ∷ rows) ys e)
                  ∙ sym (append_assoc xs (r ∷ rows) _) in
                let rest =
                  scroll_rest n _ (xs ++ (r ∷ rows)) (drop f.limit ys) _ some_limit resplit fewer
                    later refl in
                step
                ∙ rw t (ap (λ items. map item (r ∷ rows) ++ items) rest)
                ∙ sym (map-append item (r ∷ rows) (drop f.limit ys))
                ∙ ap (map item) (sym (rejoin (r ∷ rows) ys e))
            | inr t ↦
                let short =
                  take_short f.limit ys
                    (λ h. absurd (cc (t, (==_iff _ _).1 (sym (ap length e) ∙ h)))) in
                step ∙ rw t (append-nil (map item (r ∷ rows))) ∙ ap (map item) (sym e ∙ short)
          ]
