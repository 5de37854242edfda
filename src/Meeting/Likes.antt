-- ===== src/Meeting/Likes.antt =====
-- internal/meeting/candidate_service.go, Like.
use meetgo_dating_server.Prelude.{
  ◌≤◌, ◌≢◌, All, All-mono, Memᴰ, first_is_in, first-some, exists_nothing, ==_iff, first, exists,
  ◌==◌, Bool, Bool-cases, true, false, not, Option, some, [], ◌∷◌, ◌++◌, ◌≡◌, refl, ap, arith, inl,
  inr,
}
use meetgo_dating_server.Http.{ok}
use meetgo_dating_server.Schema.{Uuid, Clock, Ad, active, pending, Db}
use meetgo_dating_server.Exec.{Faults}
use meetgo_dating_server.Exec.Triples.{
  Triple, Triple-ok, Triple-or_throw, Triple-statement, Triple-query, Triple-given, Triple-pre,
  Triple-post, Triple-throw_if, Triple-bind, Triple-then,
}
use meetgo_dating_server.Meeting.Repository.{profile_for_user, profile_of_user, ad_by_id, has_ad_id}
use meetgo_dating_server.Meeting.Rows.{
  IsProfileOf, profile_of_user-IsProfileOf, is_active_status_lem,
}
use meetgo_dating_server.Meeting.Candidates.{
  has_candidate_id, response_to, insert_candidate, create_candidate, takes_no_likes, like,
}

abbrev Any : Db → Type 0
Any d = Unit

module _ (clock : Clock) (id user_id ad_id : Uuid) where
  -- The liker is a user with the mark, whose profile it is; the ad is another's, active and not over,
  -- and has no answer of the profile.
  pub record MayLike (viewer : Uuid) (d : Db) : Type 0 where
    pub ad : Ad
    pub has_profile : IsProfileOf user_id viewer true d
    pub is_ad : Memᴰ ad d.meeting_ads
    pub ad_named : ad.id ≡ ad_id
    pub is_active : ad.status ≡ active
    pub not_over : clock.app ≤ ad.expires_at
    pub not_own : ad.author_profile_id ≢ viewer
    pub first_answer :
        All (λ c. c.meeting_ad_id ≡ ad_id → c.profile_id ≢ viewer) d.meeting_candidates

  -- The new like, pending, at the end of the table; nothing else is changed.
  abbrev pub liked : Uuid → Db → Db
  liked viewer d = record d {
    meeting_candidates =
        d.meeting_candidates
        ++ record {
          id = id;
          meeting_ad_id = ad_id;
          profile_id = viewer;
          status = pending;
          created_at = clock.db;
        }
          ∷ [];
  }

  insert-Liked :
      (viewer : Uuid) (d0 : Db)
      → Triple
          (λ d. d ≡ d0)
          (λ created d.
            created ≡ true
            → (exists (response_to ad_id viewer) d0.meeting_candidates ≡ false)
              × (d ≡ liked viewer d0))
          Any
          (create_candidate clock.db id ad_id viewer)
  unfolding create_candidate insert_candidate
  insert-Liked viewer d0 =
      Triple-statement _ (λ d h. tt)
        λ d h. elim (Bool-cases (exists (response_to ad_id viewer) d.meeting_candidates)) [
          | inl e ↦ rw e (λ t. absurd (cc t))
          | inr e ↦ rw e (elim (Bool-cases (exists (has_candidate_id id) d.meeting_candidates)) [
            | inl t ↦ rw t tt
            | inr t ↦ rw t (λ _. (cc (e, h), ap (liked viewer) h))
          ])
        ]

  facts :
      (d0 d : Db) (found : Option (Uuid × Bool)) (viewer : Uuid) (created : Bool)
      (found_ad : Option Ad) (ad : Ad)
      → d ≡ d0
      → found ≡ profile_of_user user_id d
      → found ≡ some (viewer, created)
      → not created ≡ false
      → found_ad ≡ first (has_ad_id ad_id) d.meeting_ads
      → found_ad ≡ some ad
      → takes_no_likes clock.app ad ≡ false
      → (ad.author_profile_id == viewer) ≡ false
      → (d ≡ d0)
        × ((profile_of_user user_id d0 ≡ some (viewer, true))
            × (first (has_ad_id ad_id) d0.meeting_ads ≡ some ad)
            × (takes_no_likes clock.app ad ≡ false)
            × ((ad.author_profile_id == viewer) ≡ false))
  facts d0 d found viewer created found_ad ad same p f c q g t o =
      let is_created : created ≡ true = ground arith in
      (same, (cc (same, p, f, is_created), cc (same, q, g), t, o))

  may_like :
      (d : Db) (viewer : Uuid) (ad : Ad)
      → profile_of_user user_id d ≡ some (viewer, true)
      → first (has_ad_id ad_id) d.meeting_ads ≡ some ad
      → takes_no_likes clock.app ad ≡ false
      → (ad.author_profile_id == viewer) ≡ false
      → exists (response_to ad_id viewer) d.meeting_candidates ≡ false
      → MayLike viewer d
  unfolding has_ad_id takes_no_likes response_to
  may_like d viewer ad p found takes other fresh = record {
    ad = ad;
    has_profile = profile_of_user-IsProfileOf user_id viewer true d p;
    is_ad = first_is_in (has_ad_id ad_id) d.meeting_ads ad found;
    ad_named = (==_iff _ _).0 (first-some (has_ad_id ad_id) d.meeting_ads ad found).0;
    is_active = is_active_status_lem ad.status (ground (arith, takes));
    not_over = ground (arith, takes);
    not_own = λ e. ground (arith, other, e);
    first_answer =
        All-mono d.meeting_candidates (λ c q e f. ground (arith, q, e, f))
          (exists_nothing (response_to ad_id viewer) d.meeting_candidates fresh);
  }

  like-Post :
      (d0 : Db)
      → Triple
          (λ d. d ≡ d0)
          (λ _ d. (viewer : Uuid) × MayLike viewer d0 × (d ≡ liked viewer d0))
          Any
          (like clock id user_id ad_id)
  unfolding like profile_for_user ad_by_id
  like-Post d0 = Triple-bind _ _ (Triple-query _ (λ d h. tt)) λ found.
      Triple-bind _ _ (Triple-or_throw found _ (λ d h. tt)) λ (viewer, created).
        Triple-then _ _ (Triple-throw_if _ _ (λ d h. tt)) (
          Triple-bind _ _ (Triple-query _ (λ d h. tt)) λ found_ad.
            Triple-bind _ _ (Triple-or_throw found_ad _ (λ d h. tt)) λ ad.
              Triple-then _ _ (Triple-throw_if _ _ (λ d h. tt)) (
                Triple-then _ _ (Triple-throw_if _ _ (λ d h. tt)) (
                  Triple-pre _
                    (λ d (((((((same, p), f), c), q), g), t), o).
                      facts d0 d found viewer created found_ad ad same p f c q g t o)
                    (Triple-given _ λ (has_profile, has_ad, takes, not_own).
                      Triple-bind _ _ (insert-Liked viewer d0) λ new.
                        Triple-post _
                          (λ _ d (h, k).
                            let (first_answer, after) = h (ground (arith, k)) in
                            (
                              viewer,
                              may_like d0 viewer ad has_profile has_ad takes not_own first_answer,
                              after,
                            ))
                          (Triple-throw_if _ _ (λ d h. tt))))))

  -- Whichever round trips fail: a like that returns was by a user with a complete profile, of an ad
  -- with that id that is another's, active and not past its expiry by the clock of the server, and to which
  -- the profile has no like; its one effect is the new like of the profile to the ad, which is
  -- pending and at the time of the database.
  pub like-MayLike :
      (fs : Faults) (d : Db) (r : Unit {0})
      → (like clock id user_id ad_id fs d).0 ≡ ok r
      → (viewer : Uuid) × MayLike viewer d × ((like clock id user_id ad_id fs d).1 ≡ liked viewer d)
  like-MayLike fs d r = Triple-ok _ (like-Post d) fs d r refl
