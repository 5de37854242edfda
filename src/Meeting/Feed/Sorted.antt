-- ===== src/Meeting/Feed/Sorted.antt =====
-- The list that ORDER BY gives in internal/meeting/feed_repository.go.
use meetgo_dating_server.Prelude.{
  ◌≡◌, ◌≢◌, refl, arith, All, All-mono, AreKeyed, Bool-cases, inl, inr, select_rows, select-All,
  if◌then◌else◌, Bool, true, List, [], ◌∷◌, ◌++◌,
}
use meetgo_dating_server.Schema.{Uuid}
use meetgo_dating_server.Meeting.Feed.Filters.{FeedSort}
use meetgo_dating_server.Meeting.Feed.Rows.{FeedRow, row_before, insert_row, order_rows}
use meetgo_dating_server.Meeting.Feed.Order.{row_before_trans, row_before_total}

abbrev pub row_key : FeedRow → Uuid
row_key r = r.ad_id

-- The rows of different ads.
abbrev pub AreDistinct : List FeedRow → Type 0
AreDistinct = AreKeyed row_key

module _ (sort : FeedSort) where
  abbrev pub Leads : FeedRow → List FeedRow → Type 0
  Leads r rows = All (λ s. row_before sort r s ≡ true) rows

  abbrev pub Sorted : List FeedRow → Type 0
  Sorted [] = Unit
  Sorted (r ∷ rows) = Leads r rows × Sorted rows

  pub Sorted-append_right : (xs ys : List FeedRow) → Sorted (xs ++ ys) → Sorted ys
  Sorted-append_right [] ys h = h
  Sorted-append_right (r ∷ xs) ys h = Sorted-append_right xs ys h.1

  insert-All :
      (P : FeedRow → Type 0) (r : FeedRow) (rows : List FeedRow)
      → P r
      → All P rows
      → All P (insert_row sort r rows)
  unfolding insert_row
  insert-All P r [] h k = (h, tt)
  insert-All P r (s ∷ rows) h k = elim (Bool-cases (row_before sort r s)) [
    | inl t ↦ rw t (h, k)
    | inr t ↦ rw t (k.0, insert-All P r rows h k.1)
  ]

  pub order-All :
      (P : FeedRow → Type 0) (rows : List FeedRow) → All P rows → All P (order_rows sort rows)
  unfolding order_rows
  order-All P [] h = tt
  order-All P (r ∷ rows) h = insert-All P r (order_rows sort rows) h.0 (order-All P rows h.1)

  Leads-trans :
      (r s : FeedRow) (rows : List FeedRow)
      → row_before sort r s ≡ true
      → Leads s rows
      → Leads r rows
  Leads-trans r s rows h k = All-mono rows (λ u l. row_before_trans sort r s u h l) k

  insert-Sorted :
      (r : FeedRow) (rows : List FeedRow)
      → All (λ s. r.ad_id ≢ s.ad_id) rows
      → Sorted rows
      → Sorted (insert_row sort r rows)
  unfolding insert_row
  insert-Sorted r [] n h = (tt, tt)
  insert-Sorted r (s ∷ rows) n h = elim (Bool-cases (row_before sort r s)) [
    | inl t ↦ rw t ((t, Leads-trans r s rows t h.0), h)
    | inr t ↦
        let back = row_before_total sort r s n.0 t in
        rw t (insert-All _ r rows back h.0, insert-Sorted r rows n.1 h.1)
  ]

  pub order-Sorted : (rows : List FeedRow) → AreDistinct rows → Sorted (order_rows sort rows)
  unfolding order_rows
  order-Sorted [] h = tt
  order-Sorted (r ∷ rows) h =
      insert-Sorted r (order_rows sort rows) (order-All _ rows h.0) (order-Sorted rows h.1)

  insert-Leads :
      (r : FeedRow) (rows : List FeedRow) → Leads r rows → insert_row sort r rows ≡ r ∷ rows
  unfolding insert_row
  insert-Leads r [] h = refl
  insert-Leads r (s ∷ rows) h = rw h.0 refl

  module _ (p : FeedRow → Bool) where
    select-insert :
        (r : FeedRow) (rows : List FeedRow)
        → Sorted rows
        → select_rows p (insert_row sort r rows)
          ≡ (if p r then insert_row sort r (select_rows p rows) else select_rows p rows)
    unfolding insert_row select_rows
    select-insert r [] h = refl
    select-insert r (s ∷ rows) h = elim (Bool-cases (row_before sort r s)) [
      | inl t ↦
          let front =
            insert-Leads r (select_rows p rows)
              (select-All p _ rows (Leads-trans r s rows t h.0)) in
          ground (arith, t, front)
      | inr t ↦ ground (arith, t, select-insert r rows h.1)
    ]

    pub order-select :
        (rows : List FeedRow)
        → AreDistinct rows
        → order_rows sort (select_rows p rows) ≡ select_rows p (order_rows sort rows)
    unfolding order_rows select_rows
    order-select [] h = refl
    order-select (r ∷ rows) h =
        let step = select-insert r (order_rows sort rows) (order-Sorted rows h.1) in
        ground (arith, step, order-select rows h.1)
