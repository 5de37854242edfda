-- ===== src/Meeting/Feed/Service.antt =====
-- internal/meeting/feed_service.go, and Feed of feed_handler.go.
use meetgo_dating_server.Prelude.{
  ℕ, ◌+◌, ◌/◌, Text, ℤ, sub_ℕ, int_pred, length, last_of, map, ltb, ◌==◌, if◌then◌else◌, Bool, true,
  false, Option, none, some, List, [], ◌∷◌,
}
use meetgo_dating_server.Http.{json}
use meetgo_dating_server.Schema.{Uuid, RefItem, City, Point}
use meetgo_dating_server.Schema.Decimals.{plus}
use meetgo_dating_server.Schema.Dates.{Date, birthday_ahead}
use meetgo_dating_server.Exec.{Exec, Handler, answer, pure, lift, or_throw, ◌>>=◌}
use meetgo_dating_server.Auth.Errors.{unauthorized}
use meetgo_dating_server.Profile.Repository.{CityRef, city_name}
use meetgo_dating_server.Meeting.Repository.{profile_for_user}
use meetgo_dating_server.Meeting.Feed.Cursor.{
  FeedCursor, Codec, sort_name, encode_cursor, decode_cursor,
}
use meetgo_dating_server.Meeting.Feed.Filters.{
  FeedSort, by_distance, by_date, FeedFilters, FeedParams, Parsers, parse_feed_filters, sort_named,
}
use meetgo_dating_server.Meeting.Feed.Rows.{
  Geography, DbNow, FeedMode, radius_mode, city_mode, FeedQuery, FeedRow, viewer_effective_point,
  feed_page, tags_by_ad_ids,
}

pub record FeedAuthor : Type 0 where
  pub id : Uuid
  pub name : Text
  pub age : ℤ
  pub gender : Text
  pub avatar_url : Option Text

pub record FeedItem : Type 0 where
  pub id : Uuid
  pub description : Text
  pub tags : List RefItem
  pub city : Option CityRef
  pub distance_km : Option ℕ
  pub author : FeedAuthor

pub record FeedResponse : Type 0 where
  pub items : List FeedItem
  pub next_cursor : Option Text

-- 0 below 1 km, otherwise `int(km + 0.5)`, for a distance in millionths
unfoldable pub distance_in_km : ℕ → ℕ
distance_in_km n = if ltb n 1000000 then 0 else (n + 500000) / 1000000

unfoldable pub age_from_birth : Date → Date → ℤ
age_from_birth birth now =
    let y = sub_ℕ now.year birth.year in if birthday_ahead birth now then int_pred y else y

abbrev pub city_ref : Option City → Option CityRef
city_ref none = none
city_ref (some c) = some (record { id = c.id; name = city_name c })

abbrev pub shown_distance : Option ℕ → Option ℕ
shown_distance none = none
shown_distance (some n) = some (distance_in_km n)

unfoldable pub to_feed_item : Date → (Uuid → List RefItem) → FeedRow → FeedItem
unfolding distance_in_km age_from_birth
to_feed_item today tags r = record {
  id = r.ad_id;
  description = r.description;
  tags = tags r.ad_id;
  city = city_ref r.city;
  distance_km = shown_distance r.dist_km;
  author = record {
    id = r.author_profile_id;
    name = r.name;
    age = age_from_birth r.birth_date today;
    gender = r.gender;
    avatar_url = r.avatar_url;
  };
}

abbrev pub empty_feed : FeedResponse
empty_feed = record { items = []; next_cursor = none }

abbrev pub row_id : FeedRow → Uuid
row_id r = r.ad_id

-- Where a page starts: the sort, the viewer's point, and the cursor.
pub record FeedStart : Type 0 where
  pub sort : FeedSort
  pub viewer : Option Point
  pub cursor : Option FeedCursor

abbrev pub null_island : Point
null_island = record { lat = plus 0; lng = plus 0 }

abbrev pub cursor_viewer : FeedCursor → Option Point
cursor_viewer c = if c.has_point then some c.origin else none

-- without an origin there is no sorting by distance
abbrev pub first_sort : FeedSort → Option Point → FeedSort
first_sort sort none = by_date
first_sort sort (some v) = sort

abbrev pub known_sort : Option FeedSort → FeedSort
known_sort none = by_distance
known_sort (some s) = s

-- c.Sort, which decodeCursor has tested
abbrev pub start_at : FeedCursor → FeedStart
start_at c = record {
  sort = known_sort (sort_named c.sort);
  viewer = cursor_viewer c;
  cursor = some c;
}

abbrev pub start_first : FeedSort → Option Point → FeedStart
start_first sort v = record { sort = first_sort sort v; viewer = v; cursor = none }

abbrev pub mode_of : FeedFilters → FeedMode
mode_of f = elim f.city_id [ none ↦ radius_mode f.radius | some id ↦ city_mode id ]

abbrev pub to_query : Uuid → FeedFilters → FeedStart → FeedQuery
to_query profile_id f s = record {
  viewer_profile_id = profile_id;
  viewer = s.viewer;
  mode = mode_of f;
  gender = f.gender;
  goal = f.goal;
  age_min = f.age_min;
  age_max = f.age_max;
  tag_ids = f.tag_ids;
  sort = s.sort;
  cursor = s.cursor;
  limit = f.limit;
}

-- the radius mode without a point finds nothing
abbrev pub is_lost : FeedMode → Option Point → Bool
is_lost (radius_mode r) none = true
is_lost (radius_mode r) (some v) = false
is_lost (city_mode id) v = false

module _ (x : Codec) where
  abbrev pub cursor_ts : FeedSort → FeedRow → Option Text
  cursor_ts by_date r = some (x.format_time r.created_at)
  cursor_ts by_distance r = none

  abbrev pub cursor_dist : FeedSort → FeedRow → Option ℕ
  cursor_dist by_date r = none
  cursor_dist by_distance r = r.dist_km

  abbrev pub cursor_at : FeedSort → FeedRow → Option Point → FeedCursor
  cursor_at sort r viewer = record {
    sort = sort_name sort;
    dist = cursor_dist sort r;
    ts = cursor_ts sort r;
    id = x.uuid_string r.ad_id;
    origin = elim viewer [ none ↦ null_island | some v ↦ v ];
    has_point = elim viewer [ none ↦ false | some v ↦ true ];
  }

  unfoldable pub next_cursor : FeedSort → FeedRow → Option Point → Text
  unfolding encode_cursor
  next_cursor sort r viewer = encode_cursor x (cursor_at sort r viewer)

module _ (x : Codec) (geography : Geography) (now : DbNow) (today : Date) where
  -- the sort and the origin: from the cursor, or from the database
  unfoldable pub feed_start : Uuid → FeedSort → Text → Exec FeedStart
  unfolding decode_cursor viewer_effective_point
  feed_start user_id sort [] = do v ← viewer_effective_point user_id; pure (start_first sort v)
  feed_start user_id sort (ch ∷ raw) = do c ← lift (decode_cursor x (ch ∷ raw)); pure (start_at c)

  unfoldable pub feed_response : FeedStart → ℕ → List FeedRow → Exec FeedResponse
  unfolding tags_by_ad_ids to_feed_item next_cursor
  feed_response s limit [] = pure empty_feed
  feed_response s limit (r ∷ rows) = do
    tags ← tags_by_ad_ids (map row_id (r ∷ rows))
    pure (record {
      items = map (to_feed_item today tags) (r ∷ rows);
      next_cursor =
          if length (r ∷ rows) == limit
          then some (next_cursor x s.sort (last_of r rows) s.viewer)
          else none;
    })

  unfoldable pub feed_from : Uuid → FeedFilters → FeedStart → Exec FeedResponse
  unfolding feed_page feed_response
  feed_from profile_id f s = if is_lost (mode_of f) s.viewer then pure empty_feed else (do
    rows ← feed_page x geography (to_query profile_id f s) now
    feed_response s f.limit rows)

  unfoldable pub feed_for : Uuid → FeedFilters → Option (Uuid × Bool) → Exec FeedResponse
  unfolding feed_start feed_from
  feed_for user_id f none = pure empty_feed
  feed_for user_id f (some (profile_id, false)) = pure empty_feed
  feed_for user_id f (some (profile_id, true)) = do
    s ← feed_start user_id f.sort f.cursor_raw
    feed_from profile_id f s

  unfoldable pub feed : Uuid → FeedFilters → Exec FeedResponse
  unfolding feed_for
  feed user_id f = do found ← profile_for_user user_id; feed_for user_id f found

  unfoldable pub handle_feed : Parsers → Option Uuid → FeedParams → Handler FeedResponse
  unfolding feed
  handle_feed p caller params = answer (json 200) (do
    user_id ← or_throw caller unauthorized
    f ← lift (parse_feed_filters p params)
    feed user_id f)
