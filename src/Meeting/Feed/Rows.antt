-- ===== src/Meeting/Feed/Rows.antt =====
-- internal/meeting/feed_repository.go. PostGIS is a parameter; distances are in millionths of a
-- kilometre, which are millimetres.
use meetgo_dating_server.Prelude.{
  ℕ, ◌+◌, Text, text_eq, first, exists, join_rows, select_rows, take, length, ltb, ◌==◌,
  if◌then◌else◌, Bool, true, false, ◌&&◌, ◌||◌, not, Option, none, some, List, [], ◌∷◌,
}
use meetgo_dating_server.Http.{internal, Result, ok, err}
use meetgo_dating_server.Schema.{Uuid, Time, RefItem, Profile, Ad, City, Point, UserGeo, Db}
use meetgo_dating_server.Schema.Dates.{Date, younger_than}
use meetgo_dating_server.Exec.{Exec, pure, statement, query}
use meetgo_dating_server.Profile.Ids.{member}
use meetgo_dating_server.Profile.Repository.{has_profile_id, items_for}
use meetgo_dating_server.Meeting.Repository.{is_active_status}
use meetgo_dating_server.Meeting.Candidates.{response_to, avatar_of}
use meetgo_dating_server.Meeting.Feed.Filters.{FeedSort, by_distance, by_date, Float}
use meetgo_dating_server.Meeting.Feed.Cursor.{FeedCursor, Codec}

-- ST_Distance, and ST_DWithin for a radius in kilometres
pub record Geography : Type 0 where
  pub distance : Point → Point → ℕ
  pub within : Point → Point → Float → Bool

-- PostgreSQL's now() and current_date
pub record DbNow : Type 0 where
  pub time : Time
  pub date : Date

unfoldable pub geo_of : Uuid → UserGeo → Bool
geo_of user_id g = g.user_id == user_id

-- `none` for no row, and for a row without an effective point
abbrev pub point_of : Option UserGeo → Option Point
point_of none = none
point_of (some g) = g.effective_point

unfoldable pub viewer_effective_point : Uuid → Exec (Option Point)
unfolding geo_of
viewer_effective_point user_id = query (λ d. point_of (first (geo_of user_id) d.user_geo))

pub data FeedMode : Type 0 where
  radius_mode : Float → FeedMode
  city_mode : Uuid → FeedMode

pub record FeedQuery : Type 0 where
  pub viewer_profile_id : Uuid
  -- the viewer's point, if there is one
  pub viewer : Option Point
  pub mode : FeedMode
  pub gender : Option Text
  pub goal : Option Text
  pub age_min : ℕ
  pub age_max : ℕ
  pub tag_ids : List Uuid
  pub sort : FeedSort
  pub cursor : Option FeedCursor
  pub limit : ℕ

pub record FeedRow : Type 0 where
  pub ad_id : Uuid
  pub description : Text
  pub created_at : Time
  pub author_profile_id : Uuid
  pub name : Text
  pub birth_date : Date
  pub gender : Text
  pub avatar_url : Option Text
  pub city : Option City
  pub dist_km : Option ℕ

-- `$5 IS NULL OR p.gender = $5`
unfoldable pub matches_text : Option Text → Option Text → Bool
matches_text none value = true
matches_text (some wanted) none = false
matches_text (some wanted) (some value) = text_eq value wanted

-- date_part('year', age(birth)) BETWEEN lo AND hi
unfoldable pub age_between : ℕ → ℕ → Date → Date → Bool
age_between lo hi birth today =
    not (younger_than lo birth today) && younger_than (hi + 1) birth today

unfoldable pub has_tag_of : Uuid → List Uuid → Uuid × Uuid → Bool
unfolding member
has_tag_of ad_id tag_ids link = link.0 == ad_id && member link.1 tag_ids

unfoldable pub matches_tags : List Uuid → List (Uuid × Uuid) → Uuid → Bool
unfolding has_tag_of
matches_tags tag_ids links ad_id = length tag_ids == 0 || exists (has_tag_of ad_id tag_ids) links

-- LEFT JOIN cities
unfoldable pub city_of : UserGeo → List City → Option City
city_of g cities = elim g.resolved_city_id [
  | none ↦ none
  | some id ↦ first (λ c. c.id == id) cities
]

module _ (geography : Geography) (q : FeedQuery) where
  unfoldable pub in_mode : FeedMode → UserGeo → Point → Bool
  in_mode (radius_mode r) g point = elim q.viewer [
    | none ↦ false
    | some v ↦ geography.within v point r
  ]
  in_mode (city_mode id) g point = elim g.resolved_city_id [ none ↦ false | some c ↦ c == id ]

  -- the WHERE of `cand`, for an ad, its author, and the author's location
  unfoldable pub is_shown : DbNow → Db → Ad → Profile → UserGeo → Point → Bool
  unfolding matches_text age_between matches_tags in_mode
  is_shown now d a p g point =
      is_active_status a.status
      && ltb now.time a.expires_at
      && not (a.author_profile_id == q.viewer_profile_id)
      && not (exists (response_to a.id q.viewer_profile_id) d.meeting_candidates)
      && matches_text q.gender (some p.gender)
      && matches_text q.goal p.dating_goal
      && age_between q.age_min q.age_max p.birth_date now.date
      && matches_tags q.tag_ids d.meeting_ad_tags a.id
      && in_mode q.mode g point

  abbrev pub distance_to : Point → Option ℕ
  distance_to point = elim q.viewer [ none ↦ none | some v ↦ some (geography.distance v point) ]

  abbrev pub to_row : Db → Ad → Profile → UserGeo → Point → FeedRow
  to_row d a p g point = record {
    ad_id = a.id;
    description = a.description;
    created_at = a.created_at;
    author_profile_id = p.id;
    name = p.name;
    birth_date = p.birth_date;
    gender = p.gender;
    avatar_url = avatar_of p.id d.photos;
    city = city_of g d.cities;
    dist_km = distance_to point;
  }

  abbrev pub row_at : DbNow → Db → Ad → Profile → UserGeo → Option Point → Option FeedRow
  row_at now d a p g none = none
  row_at now d a p g (some point) =
      if is_shown now d a p g point then some (to_row d a p g point) else none

  abbrev pub row_by : DbNow → Db → Ad → Profile → Option UserGeo → Option FeedRow
  row_by now d a p none = none
  row_by now d a p (some g) = row_at now d a p g g.effective_point

  abbrev pub row_of_author : DbNow → Db → Ad → Option Profile → Option FeedRow
  row_of_author now d a none = none
  row_of_author now d a (some p) = row_by now d a p (first (geo_of p.user_id) d.user_geo)

  -- the row of `cand` for an ad, if it is shown
  unfoldable pub row_of : DbNow → Db → Ad → Option FeedRow
  unfolding is_shown city_of avatar_of
  row_of now d a = row_of_author now d a (first (has_profile_id a.author_profile_id) d.profiles)

  unfoldable pub candidate_rows : DbNow → Db → List FeedRow
  unfolding row_of
  candidate_rows now d = join_rows (row_of now d) d.meeting_ads

-- ORDER BY: a row comes before another one; a missing distance comes last
abbrev pub dist_before : Option ℕ → Option ℕ → Bool → Bool
dist_before none none tie = tie
dist_before none (some y) tie = false
dist_before (some x) none tie = true
dist_before (some x) (some y) tie = ltb x y || (x == y && tie)

unfoldable pub row_before : FeedSort → FeedRow → FeedRow → Bool
row_before by_date r s =
    ltb s.created_at r.created_at || (r.created_at == s.created_at && ltb s.ad_id r.ad_id)
row_before by_distance r s = dist_before r.dist_km s.dist_km (ltb r.ad_id s.ad_id)

unfoldable pub insert_row : FeedSort → FeedRow → List FeedRow → List FeedRow
insert_row sort r [] = r ∷ []
insert_row sort r (s ∷ rows) =
    let rest = insert_row sort r rows in if row_before sort r s then r ∷ s ∷ rows else s ∷ rest

unfoldable pub order_rows : FeedSort → List FeedRow → List FeedRow
unfolding insert_row
order_rows sort [] = []
order_rows sort (r ∷ rows) = insert_row sort r (order_rows sort rows)

-- The last position of the page before, as the query gets it: the time or the distance, and the id.
pub data Position : Type 0 where
  at_date : Time → Uuid → Position
  at_distance : ℕ → Uuid → Position

-- `dist_km > $13 OR (dist_km = $13 AND id > $14)`, which is not true of a missing distance
unfoldable pub after_position : Position → FeedRow → Bool
after_position (at_date t id) r = ltb r.created_at t || (r.created_at == t && ltb r.ad_id id)
after_position (at_distance x id) r = elim r.dist_km [
  | none ↦ false
  | some y ↦ ltb x y || (y == x && ltb id r.ad_id)
]

-- derefF64
abbrev pub deref_dist : Option ℕ → ℕ
deref_dist none = 0
deref_dist (some y) = y

module _ (x : Codec) where
  -- derefStr and time.Parse, whose error is dropped: the zero time is 0
  unfoldable pub cursor_time : Option Text → Time
  cursor_time none = elim (x.parse_time []) [ none ↦ 0 | some t ↦ t ]
  cursor_time (some s) = elim (x.parse_time s) [ none ↦ 0 | some t ↦ t ]

  abbrev pub position_at : FeedSort → FeedCursor → Uuid → Position
  position_at by_date c id = at_date (cursor_time c.ts) id
  position_at by_distance c id = at_distance (deref_dist c.dist) id

  -- uuid.MustParse panics on a bad id, which the server recovers from with a 500
  unfoldable pub position_of : FeedSort → FeedCursor → Result Position
  unfolding cursor_time
  position_of sort c = elim (x.parse_uuid c.id) [
    | none ↦ err internal
    | some id ↦ ok (position_at sort c id)
  ]

  unfoldable pub page_after :
      Geography → FeedQuery → DbNow → Result Position → Db → Result (List FeedRow)
  unfolding candidate_rows order_rows after_position
  page_after geography q now (err e) d = err e
  page_after geography q now (ok p) d = ok (
      take q.limit
        (order_rows q.sort (select_rows (after_position p) (candidate_rows geography q now d))))

  unfoldable pub page_of :
      Geography → FeedQuery → DbNow → Option FeedCursor → Db → Result (List FeedRow)
  unfolding page_after position_of
  page_of geography q now none d =
      ok (take q.limit (order_rows q.sort (candidate_rows geography q now d)))
  page_of geography q now (some c) d = page_after geography q now (position_of q.sort c) d

  unfoldable pub feed_page : Geography → FeedQuery → DbNow → Exec (List FeedRow)
  unfolding page_of
  feed_page geography q now = statement (λ d. (page_of geography q now q.cursor d, d))

-- ORDER BY t.value, the order in which the table is kept; only the ids that were asked for
unfoldable pub tags_for : List Uuid → Db → Uuid → List RefItem
unfolding items_for member
tags_for ad_ids d ad_id =
    if member ad_id ad_ids then items_for d.meeting_ad_tags d.meeting_tags ad_id else []

unfoldable pub tags_by_ad_ids : List Uuid → Exec (Uuid → List RefItem)
unfolding tags_for
tags_by_ad_ids [] = pure (λ _. [])
tags_by_ad_ids (id ∷ ids) = query (tags_for (id ∷ ids))
