-- ===== src/Profile/Reading.antt =====
-- internal/profile/service.go: the parts that only read.
use meetgo_dating_server.Prelude.{Option, none, some}
use meetgo_dating_server.Schema.{Uuid, Profile, Db}
use meetgo_dating_server.Exec.Keeps.{Keeps, Keeps-statement, keeps_rules}
use meetgo_dating_server.Profile.Repository.{
  onboarding_step, profile_by_user_id, interests_by_profile_id, effective_city,
}
use meetgo_dating_server.Profile.Photos.{photos_by_profile_id}
use meetgo_dating_server.Profile.Service.{build_from_row, build_from, build_profile, build_envelope}

module _ {P : Db → Type 0} where
  pub onboarding_step-Keeps : (id : Uuid) → Keeps P (onboarding_step id)
  unfolding onboarding_step
  onboarding_step-Keeps id = Keeps-statement _ (λ d h. h)

  build_from_row-Keeps : (row : Profile) → Keeps P (build_from_row row)
  unfolding build_from_row interests_by_profile_id photos_by_profile_id effective_city
  build_from_row-Keeps row = search keeps_rules depth 8

  build_from-Keeps : (row : Option Profile) → Keeps P (build_from row)
  unfolding build_from
  build_from-Keeps none = search keeps_rules
  build_from-Keeps (some row) = search (keeps_rules, build_from_row-Keeps)

  pub build_profile-Keeps : (id : Uuid) → Keeps P (build_profile id)
  unfolding build_profile profile_by_user_id
  build_profile-Keeps id = search (keeps_rules, build_from-Keeps)

  pub build_envelope-Keeps : (id : Uuid) → Keeps P (build_envelope id)
  unfolding build_envelope
  build_envelope-Keeps id = search (keeps_rules, build_profile-Keeps, onboarding_step-Keeps) depth 8
