-- ===== src/Profile/Onboarding.antt =====
-- internal/profile: the onboarding steps, and the mark `is_created_profile` of migration 000003.
use meetgo_dating_server.Prelude.{
  ℕ, ◌≤◌, Text, All, All-update, exists, Bool, Bool-cases, true, false, ◌||◌, not, if◌then◌else◌,
  Option, List, [], ◌∷◌, ◌≡◌, inl, inr, arith,
}
use meetgo_dating_server.Schema.{Uuid, User, Step, basics, about, photos_step, done, Profile, Db}
use meetgo_dating_server.Schema.Dates.{Date}
use meetgo_dating_server.Exec.{Faults, statement}
use meetgo_dating_server.Exec.Keeps.{
  Keeps, Keeps-execute, Keeps-statement, Keeps-pure, Keeps-then, keeps_rules,
}
use meetgo_dating_server.Exec.Triples.{Keeps-tx}
use meetgo_dating_server.Auth.Repository.{has_user_id}
use meetgo_dating_server.Profile.Validate.{BasicsRequest, AboutRequest}
use meetgo_dating_server.Profile.Repository.{
  rank, behind, set_step, advance_step, upsert_basics, save_basics, of_user, has_profile_id,
  same_link, has_item_id, insert_interest, insert_interests, update_about, clear_interests,
  save_about, complete_user, mark_complete, profile_by_user_id, count_interests,
}
use meetgo_dating_server.Profile.Photos.{count_photos}
use meetgo_dating_server.Profile.Reading.{onboarding_step-Keeps, build_envelope-Keeps}
use meetgo_dating_server.Profile.Service.{save_basics_step, save_about_step}
use meetgo_dating_server.Profile.PhotoService.{complete}

abbrev pub is_done : Step → Bool
is_done basics = false
is_done about = false
is_done photos_step = false
is_done done = true

abbrev pub IsMarked : User → Type 0
IsMarked u = u.is_created_profile ≡ is_done u.onboarding_step

-- The step of the user `id` is at least `k`.
abbrev pub Reached : Uuid → ℕ → User → Type 0
Reached id k u = u.id ≡ id → k ≤ rank u.onboarding_step

-- A property of users that survives both updates of the steps.
pub record IsStable (P : User → Type 0) : Type 0 where
  pub to_about :
      (id : Uuid) (u : User) → P u → P (if behind id about u then set_step about u else u)
  pub to_photos :
      (id : Uuid) (u : User)
      → P u
      → P (if behind id photos_step u then set_step photos_step u else u)
  pub to_done : (id : Uuid) (u : User) → P u → P (if has_user_id id u then complete_user u else u)

IsMarked-IsStable : IsStable IsMarked
unfolding behind has_user_id
IsMarked-IsStable = record {
  to_about = λ id u h. ground arith;
  to_photos = λ id u h. ground arith;
  to_done = λ id u h. ground arith;
}

Reached-IsStable : (id : Uuid) (k : ℕ) → k ≤ 3 → IsStable (Reached id k)
unfolding behind has_user_id
Reached-IsStable id k top = record {
  to_about = λ j u h. ground arith;
  to_photos = λ j u h. ground arith;
  to_done = λ j u h. ground arith;
}

abbrev AllUsers : (User → Type 0) → Db → Type 0
AllUsers P d = All P d.users

module _ {P : User → Type 0} (stable : IsStable P) where
  advance_about : (id : Uuid) → Keeps (AllUsers P) (advance_step id about)
  unfolding advance_step
  advance_about id = Keeps-execute _ (λ d h.
      All-update (behind id about) (behind id about) (set_step about) P d.users (stable.to_about id)
        h)

  advance_photos : (id : Uuid) → Keeps (AllUsers P) (advance_step id photos_step)
  unfolding advance_step
  advance_photos id = Keeps-execute _ (λ d h.
      All-update (behind id photos_step) (behind id photos_step) (set_step photos_step) P d.users
        (stable.to_photos id) h)

  mark_complete-Keeps : (id : Uuid) → Keeps (AllUsers P) (mark_complete id)
  unfolding mark_complete
  mark_complete-Keeps id = Keeps-execute _ (λ d h.
      All-update (has_user_id id) (has_user_id id) complete_user P d.users (stable.to_done id) h)

-- What touches no user.
module _ {P : User → Type 0} where
  upsert_basics-Keeps : (p : Profile) → Keeps (AllUsers P) (statement (upsert_basics p))
  unfolding upsert_basics
  upsert_basics-Keeps p = Keeps-statement _ λ d h.
      elim (Bool-cases (not (exists (has_user_id p.user_id) d.users))) [
        | inl a ↦ rw a h
        | inr a ↦ rw a (elim (Bool-cases (exists (of_user p.user_id) d.profiles)) [
          | inl b ↦ rw b h
          | inr b ↦ rw b (elim (Bool-cases (exists (has_profile_id p.id) d.profiles)) [
            | inl c ↦ rw c h
            | inr c ↦ rw c h
          ])
        ])
      ]

  insert_interest-Keeps : (p id : Uuid) → Keeps (AllUsers P) (statement (insert_interest p id))
  unfolding insert_interest
  insert_interest-Keeps p id = Keeps-statement _ λ d h.
      elim (Bool-cases (
        exists (same_link p id) d.profile_interests || not (exists (has_item_id id) d.interests))) [
          | inl a ↦ rw a h
          | inr a ↦ rw a h
        ]

  insert_interests-Keeps :
      (p : Uuid) (ids : List Uuid) → Keeps (AllUsers P) (insert_interests p ids)
  unfolding insert_interests
  insert_interests-Keeps p [] = Keeps-pure tt
  insert_interests-Keeps p (id ∷ ids) =
      Keeps-then _ _ (insert_interest-Keeps p id) (insert_interests-Keeps p ids)

  update_about-Keeps : (p : Uuid) (req : AboutRequest) → Keeps (AllUsers P) (update_about p req)
  unfolding update_about
  update_about-Keeps p req = Keeps-execute _ (λ d h. h)

  clear_interests-Keeps : (p : Uuid) → Keeps (AllUsers P) (clear_interests p)
  unfolding clear_interests
  clear_interests-Keeps p = Keeps-execute _ (λ d h. h)

ruleset user_rules = (
  keeps_rules, Keeps-tx, upsert_basics-Keeps, insert_interests-Keeps, update_about-Keeps,
  clear_interests-Keeps, onboarding_step-Keeps, build_envelope-Keeps,
)

module _ {P : User → Type 0} (stable : IsStable P) where
  save_basics-Keeps :
      (id user_id : Uuid) (name gender : Text) (birth : Date)
      → Keeps (AllUsers P) (save_basics id user_id name gender birth)
  unfolding save_basics
  save_basics-Keeps id user_id name gender birth = search (user_rules, advance_about stable) depth 8

  save_about-Keeps :
      (user_id p : Uuid) (req : AboutRequest) (ids : List Uuid)
      → Keeps (AllUsers P) (save_about user_id p req ids)
  unfolding save_about
  save_about-Keeps user_id p req ids = search (user_rules, advance_photos stable) depth 8

  save_basics_step-Keeps :
      (parse_date : Text → Option Date) (today : Date) (id user_id : Uuid) (req : BasicsRequest)
      → Keeps (AllUsers P) (save_basics_step parse_date today id user_id req)
  unfolding save_basics_step
  save_basics_step-Keeps parse_date today id user_id req =
      search (user_rules, save_basics-Keeps) depth 10

  save_about_step-Keeps :
      (parse_uuid : Text → Option Uuid) (user_id : Uuid) (req : AboutRequest)
      → Keeps (AllUsers P) (save_about_step parse_uuid user_id req)
  unfolding save_about_step profile_by_user_id count_interests
  save_about_step-Keeps parse_uuid user_id req = search (user_rules, save_about-Keeps) depth 20

  complete-Keeps : (user_id : Uuid) → Keeps (AllUsers P) (complete user_id)
  unfolding complete profile_by_user_id count_photos
  complete-Keeps user_id = search (user_rules, mark_complete-Keeps stable) depth 20

-- The three requests of onboarding, in any order, with whatever round trips fail.
pub data OnboardingCall : Type 0 where
  basics_call : Date → Uuid → Uuid → BasicsRequest → OnboardingCall
  about_call : Uuid → AboutRequest → OnboardingCall
  complete_call : Uuid → OnboardingCall

module _ (parse_date : Text → Option Date) (parse_uuid : Text → Option Uuid) where
  -- one request, of which the database after it is kept
  unfoldable pub onboard : OnboardingCall → Faults → Db → Db
  onboard (basics_call today id user_id req) fs d =
      (save_basics_step parse_date today id user_id req fs d).1
  onboard (about_call user_id req) fs d = (save_about_step parse_uuid user_id req fs d).1
  onboard (complete_call user_id) fs d = (complete user_id fs d).1

  unfoldable pub onboard_all : List (OnboardingCall × Faults) → Db → Db
  unfolding onboard
  onboard_all [] d = d
  onboard_all ((c, fs) ∷ cs) d = onboard_all cs (onboard c fs d)

  onboard-Keeps :
      {P : User → Type 0} (stable : IsStable P) (c : OnboardingCall) (fs : Faults) (d : Db)
      → All P d.users
      → All P (onboard c fs d).users
  unfolding onboard
  onboard-Keeps stable (basics_call today id user_id req) fs d h =
      (save_basics_step-Keeps stable parse_date today id user_id req).at fs d h
  onboard-Keeps stable (about_call user_id req) fs d h =
      (save_about_step-Keeps stable parse_uuid user_id req).at fs d h
  onboard-Keeps stable (complete_call user_id) fs d h = (complete-Keeps stable user_id).at fs d h

  onboard_all-Keeps :
      {P : User → Type 0} (stable : IsStable P) (cs : List (OnboardingCall × Faults)) (d : Db)
      → All P d.users
      → All P (onboard_all cs d).users
  unfolding onboard_all
  onboard_all-Keeps stable [] d h = h
  onboard_all-Keeps stable ((c, fs) ∷ cs) d h =
      onboard_all-Keeps stable cs (onboard c fs d) (onboard-Keeps stable c fs d h)

  -- Whatever onboarding requests come, in any order and with any faults: if before them every user is
  -- marked as created exactly when the step is DONE, then so it is after them.
  pub onboard_all-IsMarked :
      (cs : List (OnboardingCall × Faults)) (d : Db)
      → All IsMarked d.users
      → All IsMarked (onboard_all cs d).users
  onboard_all-IsMarked = onboard_all-Keeps IsMarked-IsStable

  -- Whatever onboarding requests come, in any order and with any faults: if before them the user
  -- `id` has reached the step of rank `k`, at most that of DONE, then so it is after them.
  pub onboard_all-Reached :
      (id : Uuid) (k : ℕ) (cs : List (OnboardingCall × Faults)) (d : Db)
      → k ≤ 3
      → All (Reached id k) d.users
      → All (Reached id k) (onboard_all cs d).users
  onboard_all-Reached id k cs d top = onboard_all-Keeps (Reached-IsStable id k top) cs d
