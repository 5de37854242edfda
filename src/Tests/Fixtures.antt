-- ===== src/Tests/Fixtures.antt =====
-- Concrete libraries, services, requests and tables for the tests.
use meetgo_dating_server.Prelude.{ℕ, Text, codes, Bool, false, none, some, [], ◌∷◌}
use meetgo_dating_server.Schema.{Uuid, Time, User, Step, Profile, Photo}
use meetgo_dating_server.Auth.External.{External}
use meetgo_dating_server.Auth.Service.{Service, Env}

-- Libraries that are injective where the code relies on it.
abbrev pub libs : External
libs = record {
  sha256 = λ t. t;
  base64url = λ b. b;
  sign_jwt = λ secret subject iat exp. some subject;
  parse_with_claims = λ raw key now. some raw;
  parse_uuid = λ t. elim t [ [] ↦ none | c ∷ s ↦ some c ];
  uuid_string = λ u. u ∷ [];
  parse_address = λ t. some ([], t);
  lower_rune = λ c. c;
}

abbrev pub service : Service
service = record {
  tokens = record { secret = codes "secret"; access_ttl = 900 };
  otp_ttl = 300;
  otp_resend_after = 60;
  refresh_ttl = 1000;
  dev_mode = false;
}

-- The environment of a request at time `now`, with the ids and the random byte it gets.
abbrev pub env : Time → Uuid → ℕ → Env
env now id byte = record {
  clock = record { app = now; db = now };
  random_word = some 123456;
  random_bytes = some (byte ∷ []);
  user_id = id;
  session_id = id;
  mail_fails = false;
}

abbrev pub mail : Text
mail = codes "a@b.ru"

abbrev pub user_at : Step → Bool → User
user_at step created = record {
  id = 1;
  email = mail;
  canonical_email = mail;
  is_created_profile = created;
  onboarding_step = step;
}

abbrev pub profile_of : Uuid → Uuid → Profile
profile_of id user_id = record {
  id = id;
  user_id = user_id;
  name = codes "Ann";
  gender = codes "FEMALE";
  birth_date = record { year = 2000; month = 1; day = 1 };
  description = [];
  dating_goal = none;
  height_cm = none;
  weight_kg = none;
  show_zodiac = false;
}

abbrev pub photo_of_profile : Uuid → Uuid → ℕ → Photo
photo_of_profile id profile_id position = record {
  id = id;
  profile_id = profile_id;
  object_key = [];
  url = [];
  position = position;
  crop = none;
}
