-- ===== src/Tests/Codec.antt =====
-- A codec of feed cursors for the tests, in the place of base64, JSON and RFC 3339: texts with their
-- lengths before them, and numbers as code points.
use meetgo_dating_server.Prelude.{
  text_eq, ℕ, zero, suc, Text, length, take, drop, Bool, true, false, Option, none, some, [], ◌∷◌,
  ◌++◌, ◌≡◌, refl, ap, ◌∙◌,
}
use meetgo_dating_server.Schema.Decimals.{Decimal, plus, minus}
use meetgo_dating_server.Meeting.Feed.Cursor.{FeedCursor, Codec, IsFaithful}

take-length : (s rest : Text) → take (length s) (s ++ rest) ≡ s
take-length [] rest = refl
take-length (c ∷ s) rest = ap (λ t. c ∷ t) (take-length s rest)

drop-length : (s rest : Text) → drop (length s) (s ++ rest) ≡ rest
drop-length [] rest = refl
drop-length (c ∷ s) rest = drop-length s rest

abbrev put_text : Text → Text → Text
put_text s rest = length s ∷ s ++ rest

abbrev put_option : Option ℕ → Text → Text
put_option none rest = 0 ∷ rest
put_option (some n) rest = 1 ∷ n ∷ rest

abbrev put_option_text : Option Text → Text → Text
put_option_text none rest = 0 ∷ rest
put_option_text (some s) rest = 1 ∷ put_text s rest

abbrev put_decimal : Decimal → Text → Text
put_decimal (plus n) rest = 0 ∷ n ∷ rest
put_decimal (minus n) rest = 1 ∷ n ∷ rest

abbrev put_bool : Bool → Text
put_bool false = 0 ∷ []
put_bool true = 1 ∷ []

module _ {A : Type 0} where
  abbrev read_text : Text → (Text → Text → Option A) → Option A
  read_text [] k = none
  read_text (n ∷ s) k = k (take n s) (drop n s)

  read-put_text :
      (s rest : Text) (k : Text → Text → Option A) → read_text (put_text s rest) k ≡ k s rest
  read-put_text s rest k =
      ap (λ t. k t (drop (length s) (s ++ rest))) (take-length s rest)
      ∙ ap (k s) (drop-length s rest)

  abbrev read_option : Text → (Option ℕ → Text → Option A) → Option A
  read_option (zero ∷ s) k = k none s
  read_option (suc _ ∷ n ∷ s) k = k (some n) s
  read_option _ k = none

  read-put_option :
      (o : Option ℕ) (rest : Text) (k : Option ℕ → Text → Option A)
      → read_option (put_option o rest) k ≡ k o rest
  read-put_option none rest k = refl
  read-put_option (some n) rest k = refl

  abbrev read_option_text : Text → (Option Text → Text → Option A) → Option A
  read_option_text (zero ∷ s) k = k none s
  read_option_text (suc _ ∷ s) k = read_text s (λ t. k (some t))
  read_option_text [] k = none

  read-put_option_text :
      (o : Option Text) (rest : Text) (k : Option Text → Text → Option A)
      → read_option_text (put_option_text o rest) k ≡ k o rest
  read-put_option_text none rest k = refl
  read-put_option_text (some s) rest k = read-put_text s rest (λ t. k (some t))

  abbrev read_decimal : Text → (Decimal → Text → Option A) → Option A
  read_decimal (zero ∷ n ∷ s) k = k (plus n) s
  read_decimal (suc _ ∷ n ∷ s) k = k (minus n) s
  read_decimal _ k = none

  read-put_decimal :
      (v : Decimal) (rest : Text) (k : Decimal → Text → Option A)
      → read_decimal (put_decimal v rest) k ≡ k v rest
  read-put_decimal (plus n) rest k = refl
  read-put_decimal (minus n) rest k = refl

  abbrev read_bool : Text → (Bool → Option A) → Option A
  read_bool [] k = none
  read_bool (zero ∷ s) k = k false
  read_bool (suc _ ∷ s) k = k true

  read-put_bool : (b : Bool) (k : Bool → Option A) → read_bool (put_bool b) k ≡ k b
  read-put_bool true k = refl
  read-put_bool false k = refl

abbrev put_cursor : FeedCursor → Text
put_cursor c = put_text c.sort (
    put_option c.dist (
      put_option_text c.ts (
        put_text c.id
          (put_decimal c.origin.lat (put_decimal c.origin.lng (put_bool c.has_point))))))

-- what follows each field
abbrev with_lng :
    Text → Option ℕ → Option Text → Text → Decimal → Decimal → Text → Option FeedCursor
with_lng sort dist ts id lat lng s = read_bool s (λ b. some (record {
  sort = sort;
  dist = dist;
  ts = ts;
  id = id;
  origin = record { lat = lat; lng = lng };
  has_point = b;
}))

abbrev with_lat : Text → Option ℕ → Option Text → Text → Decimal → Text → Option FeedCursor
with_lat sort dist ts id lat s = read_decimal s (with_lng sort dist ts id lat)

abbrev with_id : Text → Option ℕ → Option Text → Text → Text → Option FeedCursor
with_id sort dist ts id s = read_decimal s (with_lat sort dist ts id)

abbrev with_ts : Text → Option ℕ → Option Text → Text → Option FeedCursor
with_ts sort dist ts s = read_text s (with_id sort dist ts)

abbrev with_dist : Text → Option ℕ → Text → Option FeedCursor
with_dist sort dist s = read_option_text s (with_ts sort dist)

abbrev with_sort : Text → Text → Option FeedCursor
with_sort sort s = read_option s (with_dist sort)

abbrev read_cursor : Text → Option FeedCursor
read_cursor s = read_text s with_sort

abbrev read_number : Text → Option ℕ
read_number [] = none
read_number (n ∷ s) = some n

abbrev pub codec : Codec
codec = record {
  marshal = put_cursor;
  unmarshal = read_cursor;
  format_time = λ t. t ∷ [];
  parse_time = read_number;
  uuid_string = λ u. u ∷ [];
  parse_uuid = read_number;
}

read-put_cursor : (c : FeedCursor) → read_cursor (put_cursor c) ≡ some c
read-put_cursor c =
    read-put_text c.sort _ with_sort
    ∙ read-put_option c.dist _ (with_dist c.sort)
    ∙ read-put_option_text c.ts _ (with_ts c.sort c.dist)
    ∙ read-put_text c.id _ (with_id c.sort c.dist c.ts)
    ∙ read-put_decimal c.origin.lat _ (with_lat c.sort c.dist c.ts c.id)
    ∙ read-put_decimal c.origin.lng _ (with_lng c.sort c.dist c.ts c.id c.origin.lat)
    ∙ read-put_bool c.has_point _

pub codec-IsFaithful : IsFaithful codec
unfolding text_eq
codec-IsFaithful = record {
  marshalled = read-put_cursor;
  not_empty = λ c. refl;
  timed = λ t. refl;
  named = λ u. refl;
}
