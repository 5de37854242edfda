-- ===== src/Meeting/Feed/Offered.antt =====
-- internal/meeting/feed_service.go: what Feed answers, whatever the cursor, the database and the
-- faults.
use meetgo_dating_server.Prelude.{
  ◌≤◌, ◌≡◌, refl, sym, subst, ◌∙◌, ap, arith, All, All-mono, All-of_map, length, length-map, map,
  Bool, true, false, Option, none, some, List, [], ◌∷◌, Text,
}
use meetgo_dating_server.Http.{Result, ok, err}
use meetgo_dating_server.Schema.{Uuid, Db, RefItem}
use meetgo_dating_server.Schema.Dates.{Date}
use meetgo_dating_server.Exec.{Faults, pure}
use meetgo_dating_server.Exec.Triples.{
  Triple, Triple-ok, Triple-pure, Triple-if, Triple-bind, Triple-query, Triple-lift,
  Triple-statement, Triple-given, Ends,
}
use meetgo_dating_server.Meeting.Repository.{profile_of_user, profile_for_user}
use meetgo_dating_server.Meeting.Feed.Filters.{FeedSort, FeedFilters}
use meetgo_dating_server.Meeting.Feed.Cursor.{Codec, decode_cursor}
use meetgo_dating_server.Meeting.Feed.Rows.{
  Geography, DbNow, FeedRow, page_of, feed_page, viewer_effective_point, tags_by_ad_ids,
}
use meetgo_dating_server.Meeting.Feed.Service.{
  FeedStart, FeedItem, FeedResponse, empty_feed, to_query, to_feed_item, feed_start, feed_response,
  feed_from, feed_for, feed,
}
use meetgo_dating_server.Meeting.Feed.Visible.{IsOffered, Offers, page_of-Offers}

module _ (x : Codec) (geography : Geography) (now : DbNow) (today : Date) (user_id : Uuid)
    (f : FeedFilters) (d : Db) where
  -- the ad of an item may be shown to the profile of the caller, which is complete
  pub record MayShow (item : FeedItem) : Type 0 where
    pub viewer : Uuid
    pub onboarded : profile_of_user user_id d ≡ some (viewer, true)
    pub offered : IsOffered now d viewer f item.id

  abbrev pub IsSafe : List FeedItem → Type 0
  IsSafe items = All MayShow items × (length items ≤ f.limit)

  abbrev Same : Db → Type 0
  Same d' = d' ≡ d

  abbrev Anything : Db → Type 0
  Anything d' = Unit

  abbrev Safe : FeedResponse → Db → Type 0
  Safe p d' = (d' ≡ d) × IsSafe p.items

  empty-Safe : Triple Same Safe Anything (pure empty_feed)
  empty-Safe = Triple-pure empty_feed (λ d' h. (h, (tt, omega arith)))

  feed_start-Same :
      (sort : FeedSort) (raw : Text)
      → Triple Same (λ _. Same) Anything (feed_start x geography now today user_id sort raw)
  unfolding feed_start viewer_effective_point
  feed_start-Same sort [] =
      Triple-bind _ _ (Triple-query _ (λ d' h. tt)) (λ v. Triple-pure _ (λ d' h. h.0))
  feed_start-Same sort (ch ∷ raw) =
      Triple-bind _ _ (Triple-lift (decode_cursor x (ch ∷ raw)) (λ d' h. tt))
        (λ c. Triple-pure _ (λ d' h. h.0))

  module _ (viewer : Uuid) (onboarded : profile_of_user user_id d ≡ some (viewer, true)) where
    items-IsSafe :
        (tags : Uuid → List RefItem) (rows : List FeedRow)
        → Offers now d viewer f rows
        → IsSafe (map (to_feed_item today tags) rows)
    unfolding to_feed_item
    items-IsSafe tags rows h = (
      All-of_map MayShow _ rows (
          All-mono rows (λ r o. record { viewer = viewer; onboarded = onboarded; offered = o })
            h.0),
      subst (λ n. n ≤ f.limit) (sym (length-map rows (to_feed_item today tags))) h.1,
    )

    feed_response-Safe :
        (s : FeedStart) (rows : List FeedRow)
        → Offers now d viewer f rows
        → Triple Same Safe Anything (feed_response x geography now today s f.limit rows)
    unfolding feed_response tags_by_ad_ids
    feed_response-Safe s [] h = empty-Safe
    feed_response-Safe s (r ∷ rows) h =
        Triple-bind _ _ (Triple-query _ (λ d' k. tt))
          (λ tags. Triple-pure _ (λ d' k. (k.0, items-IsSafe tags (r ∷ rows) h)))

    feed_from-Safe :
        (s : FeedStart) → Triple Same Safe Anything (feed_from x geography now today viewer f s)
    unfolding feed_from feed_page
    feed_from-Safe s =
        Triple-if _ _ _ (λ lost. empty-Safe)
          (λ found. Triple-bind _ _ page (λ rows. Triple-given _ (feed_response-Safe s rows)))
      where
        at_db :
            (d' : Db) (k : d' ≡ d) (r : Result (List FeedRow))
            → page_of x geography (to_query viewer f s) now s.cursor d' ≡ r
            → Ends (λ rows d'. Same d' × Offers now d viewer f rows) Anything (r, d', [])
        at_db d' k (err e) h = tt
        at_db d' k (ok rows) h = (
          k,
          page_of-Offers geography now d viewer f s x s.cursor rows
              (ap (λ d. page_of x geography (to_query viewer f s) now s.cursor d) (sym k) ∙ h),
        )

        page :
            Triple Same
              (λ rows d'. Same d' × Offers now d viewer f rows)
              Anything
              (feed_page x geography (to_query viewer f s) now)
        page =
            Triple-statement _ (λ d' k. tt)
              (λ d' k. at_db d' k (page_of x geography (to_query viewer f s) now s.cursor d') refl)

  feed_for-Safe :
      (found : Option (Uuid × Bool))
      → profile_of_user user_id d ≡ found
      → Triple Same Safe Anything (feed_for x geography now today user_id f found)
  unfolding feed_for
  feed_for-Safe none e = empty-Safe
  feed_for-Safe (some (viewer, false)) e = empty-Safe
  feed_for-Safe (some (viewer, true)) e =
      Triple-bind _ _ (feed_start-Same f.sort f.cursor_raw) (feed_from-Safe viewer e)

  feed-Safe : Triple Same Safe Anything (feed x geography now today user_id f)
  unfolding feed profile_for_user
  feed-Safe = Triple-bind _ _ (Triple-query _ (λ d' h. tt)) (λ found. record {
    at = λ fs d' h.
        (feed_for-Safe found (ap (profile_of_user user_id) (sym h.0) ∙ sym h.1)).at fs d' h.0;
  })

  -- Whatever the cursor, the database and the failures of statements: when Feed returns, it has not
  -- changed the database, it returns at most `limit` items, and each of them is an ad that is active,
  -- not expired, not the caller's and not answered by the caller, whose author and tags match the
  -- filters; and the caller's profile is complete, if there is any item.
  pub feed-IsSafe :
      (fs : Faults) (p : FeedResponse)
      → (feed x geography now today user_id f fs d).0 ≡ ok p
      → ((feed x geography now today user_id f fs d).1 ≡ d) × IsSafe p.items
  feed-IsSafe fs p h = Triple-ok _ feed-Safe fs d p refl h
