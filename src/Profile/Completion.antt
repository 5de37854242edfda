-- ===== src/Profile/Completion.antt =====
-- internal/profile/photo_service.go, Complete.
use meetgo_dating_server.Prelude.{
  ℕ, ◌≤◌, first, count, update_rows, ltb, false, Option, none, some, [], ◌≡◌, refl, ap, arith,
}
use meetgo_dating_server.Http.{Result, ok, err}
use meetgo_dating_server.Schema.{Uuid, User, Step, Profile, Db}
use meetgo_dating_server.Exec.{Faults}
use meetgo_dating_server.Exec.Triples.{
  Triple, Ends, Triple-ok, Triple-pure, Triple-or_throw, Triple-statement, Triple-query,
  Triple-throw_if, Triple-execute, Triple-bind, Triple-then,
}
use meetgo_dating_server.Auth.Repository.{has_user_id}
use meetgo_dating_server.Profile.Repository.{
  rank, of_user, profile_by_user_id, onboarding_step, step_of, complete_user, mark_complete,
}
use meetgo_dating_server.Profile.Photos.{photo_of, count_photos}
use meetgo_dating_server.Profile.PhotoService.{CompleteResponse, complete}

abbrev Any : Db → Type 0
Any d = Unit

-- The user has passed the second step, and has a profile with two photos or more.
pub record MayComplete (user_id : Uuid) (d : Db) : Type 0 where
  pub user : User
  pub prof : Profile
  pub has_user : first (has_user_id user_id) d.users ≡ some user
  pub has_profile : first (of_user user_id) d.profiles ≡ some prof
  pub passed : 2 ≤ rank user.onboarding_step
  pub photos : 2 ≤ count (photo_of prof.id) d.photos

abbrev pub completed : Uuid → Db → Db
completed user_id d = record d { users = update_rows (has_user_id user_id) complete_user d.users }

module _ (user_id : Uuid) where
  step_of-found :
      (o : Option User) (step : Step)
      → step_of o ≡ ok step
      → (user : User) × (o ≡ some user) × (user.onboarding_step ≡ step)
  unfolding step_of
  step_of-found none step h = absurd (cc h)
  step_of-found (some u) step h = (u, refl, ground arith)

  read_step :
      (d0 : Db)
      → Triple
          (λ d. d ≡ d0)
          (λ step d. (d ≡ d0) × (step_of (first (has_user_id user_id) d0.users) ≡ ok step))
          Any
          (onboarding_step user_id)
  unfolding onboarding_step
  read_step d0 =
      Triple-statement _ (λ d h. tt)
        λ d h. ended d h (step_of (first (has_user_id user_id) d.users)) refl
    where
      ended :
          (d : Db)
          → d ≡ d0
          → (r : Result Step) → step_of (first (has_user_id user_id) d.users) ≡ r
          → Ends
              (λ step e. (e ≡ d0) × (step_of (first (has_user_id user_id) d0.users) ≡ ok step))
              Any
              (r, d, [])
      ended d h (ok s) e = (h, cc (h, e))
      ended d h (err f) e = tt

  ended :
      (d0 d : Db) (step : Step) (found : Option Profile) (prof : Profile) (n : ℕ)
      → d ≡ d0
      → step_of (first (has_user_id user_id) d0.users) ≡ ok step
      → found ≡ first (of_user user_id) d.profiles
      → found ≡ some prof
      → ltb (rank step) 2 ≡ false
      → n ≡ count (photo_of prof.id) d.photos
      → ltb n 2 ≡ false
      → MayComplete user_id d0 × (completed user_id d ≡ completed user_id d0)
  ended d0 d step found prof n same s p f late c few =
      let (user, has_user, at) = step_of-found (first (has_user_id user_id) d0.users) step s in
      (
        record {
          user = user;
          prof = prof;
          has_user = has_user;
          has_profile = cc (same, p, f);
          passed = ground (arith, at, late);
          photos =
              let n0 : n ≡ count (photo_of prof.id) d0.photos = cc (same, c) in
              ground (arith, n0, few);
        },
        ap (completed user_id) same,
      )

  complete-Post :
      (d0 : Db)
      → Triple
          (λ d. d ≡ d0)
          (λ _ d. MayComplete user_id d0 × (d ≡ completed user_id d0))
          Any
          (complete user_id)
  unfolding complete profile_by_user_id count_photos mark_complete
  complete-Post d0 = Triple-bind _ _ (read_step d0) λ step.
      Triple-bind _ _ (Triple-query _ (λ d h. tt)) λ found.
        Triple-bind _ _ (Triple-or_throw found _ (λ d h. tt)) λ prof.
          Triple-then _ _ (Triple-throw_if _ _ (λ d h. tt)) (
            Triple-bind _ _ (Triple-query _ (λ d h. tt)) λ n.
              Triple-then _ _ (Triple-throw_if _ _ (λ d h. tt)) (
                Triple-then {Mid = λ _ d. MayComplete user_id d0 × (d ≡ completed user_id d0)} _ _
                  (Triple-execute _ (λ d h. tt)
                    λ d ((((((same, s), p), f), late), c), few).
                      ended d0 d step found prof n same s p f late c few)
                  (Triple-pure _ (λ d h. h))))

  -- Whichever round trips fail: a completion that returns was of a user who had passed the second
  -- step and has a profile with at least two photos; it marks that user as created, at the step
  -- DONE, and changes nothing else.
  pub complete-MayComplete :
      (fs : Faults) (d : Db) (r : CompleteResponse)
      → (complete user_id fs d).0 ≡ ok r
      → MayComplete user_id d × ((complete user_id fs d).1 ≡ completed user_id d)
  complete-MayComplete fs d r = Triple-ok _ (complete-Post d) fs d r refl
