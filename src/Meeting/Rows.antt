-- ===== src/Meeting/Rows.antt =====
-- internal/meeting/repository.go: the rows that the reads of profiles, ads and likes find.
use meetgo_dating_server.Prelude.{
  first, ◌==◌, ◌&&◌, &&_elim, ==_iff, Option-cases, Bool, true, some, ◌≡◌, refl, arith, inl, inr,
  Memᴰ, first_is_in, exists_is_in, first-some,
}
use meetgo_dating_server.Schema.{
  Uuid, User, Profile, Ad, AdStatus, active, expired, closed, Candidate, LikeStatus, pending,
  accepted, rejected, Db,
}
use meetgo_dating_server.Auth.Repository.{has_user_id}
use meetgo_dating_server.Profile.Repository.{of_user}
use meetgo_dating_server.Meeting.Repository.{profile_of_user, is_active_status}
use meetgo_dating_server.Meeting.Candidates.{is_pending, authored_by}

-- The profile is a row of the user, who is a row with that mark.
pub record IsProfileOf (user_id profile_id : Uuid) (mark : Bool) (d : Db) : Type 0 where
  pub user : User
  pub prof : Profile
  pub is_user : Memᴰ user d.users
  pub user_named : user.id ≡ user_id
  pub marked : user.is_created_profile ≡ mark
  pub is_prof : Memᴰ prof d.profiles
  pub owned : prof.user_id ≡ user_id
  pub prof_named : prof.id ≡ profile_id

pub profile_of_user-IsProfileOf :
    (user_id profile_id : Uuid) (mark : Bool) (d : Db)
    → profile_of_user user_id d ≡ some (profile_id, mark)
    → IsProfileOf user_id profile_id mark d
unfolding profile_of_user has_user_id of_user
profile_of_user-IsProfileOf user_id profile_id mark d h =
    elim (Option-cases (first (has_user_id user_id) d.users)) [
      | inl e ↦ ground (arith, e, h)
      | inr (user, e) ↦ elim (Option-cases (first (of_user user_id) d.profiles)) [
        | inl q ↦ ground (arith, e, q, h)
        | inr (prof, q) ↦ record {
          user = user;
          prof = prof;
          is_user = first_is_in (has_user_id user_id) d.users user e;
          user_named = (==_iff _ _).0 (first-some (has_user_id user_id) d.users user e).0;
          marked = ground (arith, e, q, h);
          is_prof = first_is_in (of_user user_id) d.profiles prof q;
          owned = (==_iff _ _).0 (first-some (of_user user_id) d.profiles prof q).0;
          prof_named = ground (arith, e, q, h);
        }
      ]
    ]

pub is_active_status_lem : (s : AdStatus) → is_active_status s ≡ true → s ≡ active
is_active_status_lem active h = refl
is_active_status_lem expired h = absurd (cc h)
is_active_status_lem closed h = absurd (cc h)

pub is_pending_lem : (s : LikeStatus) → is_pending s ≡ true → s ≡ pending
is_pending_lem pending h = refl
is_pending_lem accepted h = absurd (cc h)
is_pending_lem rejected h = absurd (cc h)

-- The like is a row with the id, and its ad is a row of the author.
pub record IsLikeOn (author id : Uuid) (cand : Candidate) (d : Db) : Type 0 where
  pub ad : Ad
  pub is_like : Memᴰ cand d.meeting_candidates
  pub like_named : cand.id ≡ id
  pub is_ad : Memᴰ ad d.meeting_ads
  pub ad_named : ad.id ≡ cand.meeting_ad_id
  pub authored : ad.author_profile_id ≡ author

pub first-IsLikeOn :
    (author id : Uuid) (cand : Candidate) (d : Db)
    → first (λ c. c.id == id && authored_by author d.meeting_ads c) d.meeting_candidates ≡ some cand
    → IsLikeOn author id cand d
unfolding authored_by
first-IsLikeOn author id cand d h =
    let p : Candidate → Bool = λ c. c.id == id && authored_by author d.meeting_ads c in
    let (named, own) = &&_elim _ _ (first-some p d.meeting_candidates cand h).0 in
    let (ad, is_ad, both) =
      exists_is_in (λ a. a.id == cand.meeting_ad_id && a.author_profile_id == author) d.meeting_ads
        own in
    let (ad_named, authored) = &&_elim _ _ both in
    record {
      ad = ad;
      is_like = first_is_in p d.meeting_candidates cand h;
      like_named = (==_iff _ _).0 named;
      is_ad = is_ad;
      ad_named = (==_iff _ _).0 ad_named;
      authored = (==_iff _ _).0 authored;
    }
