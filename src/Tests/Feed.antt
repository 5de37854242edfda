-- ===== src/Tests/Feed.antt =====
-- The feed at concrete tables and queries.
use meetgo_dating_server.Profile.Validate.{valid_gender}
use meetgo_dating_server.Exec.{◌>>=◌}
use meetgo_dating_server.Auth.Repository.{has_user_id}
use meetgo_dating_server.Schema.Dates.{younger_than}
use meetgo_dating_server.Profile.Repository.{of_user, has_profile_id}
use meetgo_dating_server.Prelude.{
  join_rows, AreKeyed, ℕ, ◌<◌, codes, first, true, none, some, [], ◌∷◌, ◌≡◌, refl, arith, map,
  length, pos, text_eq, count,
}
use meetgo_dating_server.Http.{ok}
use meetgo_dating_server.Schema.{Ad, active, auto, done, UserGeo, Db, empty_db}
use meetgo_dating_server.Schema.Decimals.{Decimal, plus, minus}
use meetgo_dating_server.Meeting.Feed.Filters.{
  FeedFilters, FeedParams, Parsers, by_distance, by_date, finite, parse_feed_filters,
}
use meetgo_dating_server.Meeting.Feed.Cursor.{FeedCursor, decode_cursor}
use meetgo_dating_server.Meeting.Feed.Rows.{
  row_before, geo_of, Geography, DbNow, FeedQuery, FeedRow, to_row, candidate_rows, order_rows,
  page_of,
}
use meetgo_dating_server.Meeting.Feed.Service.{cursor_at, next_cursor, feed, FeedResponse}
use meetgo_dating_server.Meeting.Repository.{profile_for_user, profile_of_user}
use meetgo_dating_server.Meeting.Feed.Candidates.{ad_key}
use meetgo_dating_server.Meeting.Feed.Pages.{whole_feed, page_of-rest}
use meetgo_dating_server.Meeting.Feed.RoundTrip.{IsReadBack, next_cursor-IsReadBack}
use meetgo_dating_server.Meeting.Feed.Scroll.{scroll, feed_query}
use meetgo_dating_server.Meeting.Feed.Answers.{item_of}
use meetgo_dating_server.Meeting.Feed.Complete.{scroll_whole}
use meetgo_dating_server.Meeting.Feed.Offered.{IsSafe, feed-IsSafe}
use meetgo_dating_server.Meeting.Feed.Bounds.{AreFilters, parse_feed_filters-AreFilters}
use meetgo_dating_server.Tests.Fixtures.{user_at, profile_of}
use meetgo_dating_server.Tests.Codec.{codec, codec-IsFaithful}

abbrev pub magnitude : Decimal → ℕ
magnitude (plus n) = n
magnitude (minus n) = n

-- distances from a viewer at the latitude 0
abbrev pub meridian : Geography
meridian = record { distance = λ p q. magnitude q.lat; within = λ p q r. true }

abbrev pub noon : DbNow
noon = record { time = 100; date = record { year = 2026; month = 5; day = 1 } }

abbrev place : ℕ → ℕ → UserGeo
place user_id lat = record {
  user_id = user_id;
  mode = auto;
  manual_city_id = none;
  gps = none;
  gps_accuracy = none;
  gps_updated_at = none;
  effective_point = some (record { lat = plus lat; lng = plus 0 });
  resolved_city_id = none;
}

abbrev ad_of : ℕ → ℕ → ℕ → Ad
ad_of id author created = record {
  id = id;
  author_profile_id = author;
  description = codes "Coffee";
  status = active;
  created_at = created;
  expires_at = 1000;
}

-- User 1 looks at the ads of the users 2 and 3.
abbrev square : Db
square = record empty_db {
  users = user_at done true ∷ [];
  profiles = profile_of 5 1 ∷ profile_of 6 2 ∷ profile_of 7 3 ∷ [];
  meeting_ads = ad_of 30 6 10 ∷ ad_of 31 7 20 ∷ ad_of 32 5 30 ∷ ad_of 33 6 20 ∷ [];
  user_geo = place 1 0 ∷ place 2 3000000 ∷ place 3 7000000 ∷ [];
}

abbrev wide : FeedFilters
wide = record {
  sort = by_distance;
  radius = finite (plus 50000000);
  city_id = none;
  gender = none;
  goal = none;
  age_min = 18;
  age_max = 99;
  tag_ids = [];
  limit = 2;
  cursor_raw = [];
}

abbrev query_1 : FeedQuery
query_1 = feed_query codec meridian noon noon.date 1 wide square 5

abbrev row_30 : FeedRow
row_30 =
    to_row meridian query_1 square (ad_of 30 6 10) (profile_of 6 2) (place 2 3000000)
      (record { lat = plus 3000000; lng = plus 0 })

abbrev row_33 : FeedRow
row_33 =
    to_row meridian query_1 square (ad_of 33 6 20) (profile_of 6 2) (place 2 3000000)
      (record { lat = plus 3000000; lng = plus 0 })

abbrev row_31 : FeedRow
row_31 =
    to_row meridian query_1 square (ad_of 31 7 20) (profile_of 7 3) (place 3 7000000)
      (record { lat = plus 7000000; lng = plus 0 })

three_rows : whole_feed meridian query_1 noon square ≡ row_30 ∷ row_33 ∷ row_31 ∷ []
unfolding candidate_rows order_rows join_rows first has_profile_id geo_of count younger_than
    row_before
three_rows = refl

square-AreKeyed : AreKeyed ad_key square.meeting_ads
square-AreKeyed = ground arith

page_of-rest_example :
    page_of codec meridian query_1 noon
      (some (cursor_at codec query_1.sort row_30 query_1.viewer))
      square
    ≡ ok (row_33 ∷ row_31 ∷ [])
unfolding first geo_of
page_of-rest_example =
    page_of-rest codec meridian query_1 noon square [] row_30 (row_33 ∷ row_31 ∷ [])
      codec-IsFaithful square-AreKeyed (record { lat = plus 0; lng = plus 0 }, refl) three_rows

next_cursor-IsReadBack_example :
    (c : FeedCursor) × (decode_cursor codec (next_cursor codec by_distance row_30 none) ≡ ok c)
    × IsReadBack codec codec-IsFaithful row_30 by_distance none c
next_cursor-IsReadBack_example =
    next_cursor-IsReadBack codec codec-IsFaithful row_30 by_distance none

viewer_onboarded : profile_of_user 1 square ≡ some (5, true)
unfolding profile_of_user first has_user_id of_user
viewer_onboarded = refl

enough_requests : length (whole_feed meridian query_1 noon square) < 4
enough_requests = rw three_rows (omega arith)

scroll_whole_example :
    scroll codec meridian noon noon.date 1 wide square 4 []
    ≡ map (item_of noon.date square) (whole_feed meridian query_1 noon square)
scroll_whole_example =
    scroll_whole codec meridian noon noon.date 1 wide square 5 4 codec-IsFaithful square-AreKeyed
      viewer_onboarded (omega arith) enough_requests

abbrev page_1 : FeedResponse
page_1 = record {
  items = map (item_of noon.date square) (row_30 ∷ row_33 ∷ []);
  next_cursor =
      some (next_cursor codec by_distance row_33 (some (record { lat = plus 0; lng = plus 0 })));
}

page_1_read : (feed codec meridian noon noon.date 1 wide [] square).0 ≡ ok page_1
unfolding feed ◌>>=◌ profile_for_user first has_user_id of_user join_rows has_profile_id count
    younger_than row_before
page_1_read = refl

feed-IsSafe_example :
    ((feed codec meridian noon noon.date 1 wide [] square).1 ≡ square)
    × IsSafe codec meridian noon noon.date 1 wide square page_1.items
feed-IsSafe_example = feed-IsSafe codec meridian noon noon.date 1 wide square [] page_1 page_1_read

abbrev pub parsers : Parsers
parsers = record {
  parse_float = λ t. elim t [ [] ↦ none | c ∷ s ↦ some (finite (plus c)) ];
  atoi = λ t. elim t [ [] ↦ none | c ∷ s ↦ some (pos c) ];
  parse_uuid = λ t. elim t [ [] ↦ none | c ∷ s ↦ some c ];
}

abbrev pub params : FeedParams
params = record {
  sort = codes "date";
  radius = 5000000 ∷ [];
  city_id = [];
  gender = codes "MALE";
  goal = [];
  age_min = 20 ∷ [];
  age_max = 30 ∷ [];
  tag_ids = (3 ∷ []) ∷ [];
  limit = 80 ∷ [];
  cursor = [];
}

abbrev parsed : FeedFilters
parsed = record {
  sort = by_date;
  radius = finite (plus 5000000);
  city_id = none;
  gender = some (codes "MALE");
  goal = none;
  age_min = 20;
  age_max = 30;
  tag_ids = 3 ∷ [];
  limit = 50;
  cursor_raw = [];
}

filters_parsed : parse_feed_filters parsers params ≡ ok parsed
unfolding parse_feed_filters text_eq valid_gender
filters_parsed = refl

parse_feed_filters-AreFilters_example : AreFilters params parsed
parse_feed_filters-AreFilters_example =
    parse_feed_filters-AreFilters parsers params parsed filters_parsed
