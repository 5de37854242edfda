-- ===== src/Meeting/Feed/Cursor.antt =====
-- internal/meeting/feed_dto.go: the cursor of the feed. encoding/json with base64, the RFC 3339 form
-- of times, and the text of uuids are parameters.
use meetgo_dating_server.Prelude.{
  ℕ, Text, codes, text_eq, Bool, false, Option, none, some, [], ◌∷◌, ◌≡◌,
}
use meetgo_dating_server.Http.{ApiError, validation_error, api, Result, ok, err}
use meetgo_dating_server.Schema.{Uuid, Time, Point}
use meetgo_dating_server.Meeting.Feed.Filters.{FeedSort, by_distance, by_date, sort_named}

-- `dist` is in millionths of a kilometre; `lat` and `lng` are one point.
pub record FeedCursor : Type 0 where
  pub sort : Text
  pub dist : Option ℕ
  pub ts : Option Text
  pub id : Text
  pub origin : Point
  pub has_point : Bool

pub record Codec : Type 0 where
  -- json.Marshal, then RawURLEncoding.EncodeToString
  pub marshal : FeedCursor → Text
  -- DecodeString, then json.Unmarshal
  pub unmarshal : Text → Option FeedCursor
  -- Format(time.RFC3339Nano) of the time in UTC, and time.Parse
  pub format_time : Time → Text
  pub parse_time : Text → Option Time
  pub uuid_string : Uuid → Text
  pub parse_uuid : Text → Option Uuid

-- What these libraries document: each is read back as it was written, and no encoding is empty.
pub record IsFaithful (x : Codec) : Type 0 where
  pub marshalled : (c : FeedCursor) → x.unmarshal (x.marshal c) ≡ some c
  pub not_empty : (c : FeedCursor) → text_eq (x.marshal c) [] ≡ false
  pub timed : (t : Time) → x.parse_time (x.format_time t) ≡ some t
  pub named : (u : Uuid) → x.parse_uuid (x.uuid_string u) ≡ some u

abbrev pub bad_cursor : ApiError
bad_cursor = validation_error (("cursor", "invalid cursor") ∷ [])

-- sortDistance and sortDate
abbrev pub sort_name : FeedSort → Text
sort_name by_distance = codes "distance"
sort_name by_date = codes "date"

module _ (x : Codec) where
  unfoldable pub encode_cursor : FeedCursor → Text
  encode_cursor c = x.marshal c

  -- the tests on the decoded cursor
  unfoldable pub check_cursor : FeedCursor → Result FeedCursor
  check_cursor c = elim (sort_named c.sort) [
    | none ↦ err (api bad_cursor)
    | some s ↦ elim (x.parse_uuid c.id) [ none ↦ err (api bad_cursor) | some id ↦ ok c ]
  ]

  unfoldable pub decode_cursor : Text → Result FeedCursor
  unfolding check_cursor
  decode_cursor raw = elim (x.unmarshal raw) [
    | none ↦ err (api bad_cursor)
    | some c ↦ check_cursor c
  ]
