-- ===== src/Meeting/Feed/Order.antt =====
-- The ORDER BY of internal/meeting/feed_repository.go: a strict order on rows of different ads, and
-- what the insertion into a sorted list keeps.
use meetgo_dating_server.Prelude.{
  ℕ, ◌≡◌, ◌≢◌, refl, arith, Bool-cases, inl, inr, ltb, true, false, Option, none, some,
}
use meetgo_dating_server.Meeting.Feed.Filters.{FeedSort, by_distance, by_date}
use meetgo_dating_server.Meeting.Feed.Rows.{FeedRow, dist_before, row_before}

dist_before_trans :
    (a b c : Option ℕ) (i j k : ℕ)
    → dist_before a b (ltb i j) ≡ true
    → dist_before b c (ltb j k) ≡ true
    → dist_before a c (ltb i k) ≡ true
dist_before_trans none none none i j k h l = ground arith
dist_before_trans none none (some c) i j k h l = absurd (cc l)
dist_before_trans none (some b) c i j k h l = absurd (cc h)
dist_before_trans (some a) none none i j k h l = refl
dist_before_trans (some a) none (some c) i j k h l = absurd (cc l)
dist_before_trans (some a) (some b) none i j k h l = refl
dist_before_trans (some a) (some b) (some c) i j k h l = ground arith

dist_before_total :
    (a b : Option ℕ) (i j : ℕ)
    → i ≢ j
    → dist_before a b (ltb i j) ≡ false
    → dist_before b a (ltb j i) ≡ true
dist_before_total none none i j n h = ground arith
dist_before_total none (some b) i j n h = refl
dist_before_total (some a) none i j n h = absurd (cc h)
dist_before_total (some a) (some b) i j n h = ground arith

dist_before_asym :
    (a b : Option ℕ) (i j : ℕ)
    → dist_before a b (ltb i j) ≡ true
    → dist_before b a (ltb j i) ≡ false
dist_before_asym none none i j h = ground arith
dist_before_asym none (some b) i j h = absurd (cc h)
dist_before_asym (some a) none i j h = refl
dist_before_asym (some a) (some b) i j h = ground arith

pub row_before_trans :
    (sort : FeedSort) (r s u : FeedRow)
    → row_before sort r s ≡ true
    → row_before sort s u ≡ true
    → row_before sort r u ≡ true
unfolding row_before
row_before_trans by_date r s u h l = ground arith
row_before_trans by_distance r s u h l =
    dist_before_trans r.dist_km s.dist_km u.dist_km r.ad_id s.ad_id u.ad_id h l

pub row_before_total :
    (sort : FeedSort) (r s : FeedRow)
    → r.ad_id ≢ s.ad_id
    → row_before sort r s ≡ false
    → row_before sort s r ≡ true
unfolding row_before
row_before_total by_date r s n h = ground arith
row_before_total by_distance r s n h = dist_before_total r.dist_km s.dist_km r.ad_id s.ad_id n h

pub row_before_asym :
    (sort : FeedSort) (r s : FeedRow) → row_before sort r s ≡ true → row_before sort s r ≡ false
unfolding row_before
row_before_asym by_date r s h = ground arith
row_before_asym by_distance r s h = dist_before_asym r.dist_km s.dist_km r.ad_id s.ad_id h

pub row_before_irrefl : (sort : FeedSort) (r : FeedRow) → row_before sort r r ≡ false
row_before_irrefl sort r = elim (Bool-cases (row_before sort r r)) [
  | inl t ↦ row_before_asym sort r r t
  | inr t ↦ t
]
