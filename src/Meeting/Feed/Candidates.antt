-- ===== src/Meeting/Feed/Candidates.antt =====
-- internal/meeting/feed_repository.go: which ads the query of feedPage takes.
use meetgo_dating_server.Prelude.{
  ◌≡◌, &&_elim, refl, sym, ◌∙◌, ap, arith, first, join-AreKeyed, AreKeyed, Bool-cases, inl, inr,
  true, Option, none, some,
}
use meetgo_dating_server.Schema.{Uuid, Profile, Ad, Point, UserGeo, Db}
use meetgo_dating_server.Profile.Repository.{has_profile_id}
use meetgo_dating_server.Meeting.Feed.Rows.{
  Geography, DbNow, FeedQuery, FeedRow, geo_of, is_shown, to_row, row_at, row_by, row_of_author,
  row_of, candidate_rows, in_mode,
}
use meetgo_dating_server.Meeting.Feed.Sorted.{AreDistinct, row_key}

abbrev pub ad_key : Ad → Uuid
ad_key a = a.id

module _ (geography : Geography) (q : FeedQuery) (now : DbNow) (d : Db) where
  -- The row `r` stands for the ad `a`, whose author and place the joins find.
  pub record Shows (a : Ad) (r : FeedRow) : Type 0 where
    pub author : Profile
    pub place : UserGeo
    pub point : Point
    pub has_author : first (has_profile_id a.author_profile_id) d.profiles ≡ some author
    pub has_place : first (geo_of author.user_id) d.user_geo ≡ some place
    pub has_point : place.effective_point ≡ some point
    pub passes : is_shown geography q now d a author place point ≡ true
    pub is_row : r ≡ to_row geography q d a author place point

  module _ (a : Ad) (r : FeedRow) where
    row_at-Shows :
        (p : Profile) (g : UserGeo) (o : Option Point)
        → first (has_profile_id a.author_profile_id) d.profiles ≡ some p
        → first (geo_of p.user_id) d.user_geo ≡ some g
        → g.effective_point ≡ o
        → row_at geography q now d a p g o ≡ some r
        → Shows a r
    row_at-Shows p g none hp hg ho h = absurd (cc h)
    row_at-Shows p g (some point) hp hg ho h =
        elim (Bool-cases (is_shown geography q now d a p g point)) [
          | inl t ↦
              let same : to_row geography q d a p g point ≡ r = ground (arith, h, t) in
              record {
                author = p;
                place = g;
                point = point;
                has_author = hp;
                has_place = hg;
                has_point = ho;
                passes = t;
                is_row = sym same;
              }
          | inr t ↦ ground (arith, h, t)
        ]

    row_by-Shows :
        (p : Profile) (o : Option UserGeo)
        → first (has_profile_id a.author_profile_id) d.profiles ≡ some p
        → first (geo_of p.user_id) d.user_geo ≡ o
        → row_by geography q now d a p o ≡ some r
        → Shows a r
    row_by-Shows p none hp hg h = absurd (cc h)
    row_by-Shows p (some g) hp hg h = row_at-Shows p g g.effective_point hp hg refl h

    row_of_author-Shows :
        (o : Option Profile)
        → first (has_profile_id a.author_profile_id) d.profiles ≡ o
        → row_of_author geography q now d a o ≡ some r
        → Shows a r
    row_of_author-Shows none hp h = absurd (cc h)
    row_of_author-Shows (some p) hp h =
        row_by-Shows p (first (geo_of p.user_id) d.user_geo) hp refl h

    pub row_of-Shows : row_of geography q now d a ≡ some r → Shows a r
    unfolding row_of
    row_of-Shows h =
        row_of_author-Shows (first (has_profile_id a.author_profile_id) d.profiles) refl h

    row_at-passes :
        (p : Profile) (g : UserGeo) (point : Point)
        → is_shown geography q now d a p g point ≡ true
        → row_at geography q now d a p g (some point) ≡ some (to_row geography q d a p g point)
    row_at-passes p g point h = rw h refl

    pub Shows-row_of : Shows a r → row_of geography q now d a ≡ some r
    unfolding row_of
    Shows-row_of s =
        ap (row_of_author geography q now d a) s.has_author
        ∙ ap (row_by geography q now d a s.author) s.has_place
        ∙ ap (row_at geography q now d a s.author s.place) s.has_point
        ∙ row_at-passes s.author s.place s.point s.passes
        ∙ ap some (sym s.is_row)

  row_of-key : (a : Ad) (r : FeedRow) → row_of geography q now d a ≡ some r → r.ad_id ≡ a.id
  row_of-key a r h = let s = row_of-Shows a r h in ap row_key s.is_row

  pub candidate_rows-AreDistinct :
      AreKeyed ad_key d.meeting_ads → AreDistinct (candidate_rows geography q now d)
  unfolding candidate_rows
  candidate_rows-AreDistinct h =
      join-AreKeyed (row_of geography q now d) ad_key row_key row_of-key d.meeting_ads h

  -- A row that is shown is in the mode of the query.
  pub Shows-in_mode :
      (a : Ad) (r : FeedRow) (s : Shows a r) → in_mode geography q q.mode s.place s.point ≡ true
  unfolding is_shown
  Shows-in_mode a r s = (&&_elim _ _ s.passes).1
