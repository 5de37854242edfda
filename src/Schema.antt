-- ===== src/Schema.antt =====
-- migrations/*.up.sql and the row types of the repositories: one record for each table. UUIDs are
-- 128-bit numbers, times are nanoseconds, texts are lists of code points.
pub mod Decimals
pub mod Dates
use meetgo_dating_server.Prelude.{ℕ, ℤ, Text, Bool, Option, List, []}
use meetgo_dating_server.Schema.Decimals.{Decimal}
use meetgo_dating_server.Schema.Dates.{Date}

abbrev pub Uuid : Type 0
Uuid = ℕ

abbrev pub Time : Type 0
Time = ℕ

-- users.onboarding_step, with its CHECK
pub data Step : Type 0 where
  basics about photos_step done : Step

pub record User : Type 0 where
  pub id : Uuid
  pub email : Text
  pub canonical_email : Text
  pub is_created_profile : Bool
  pub onboarding_step : Step

pub record Otp : Type 0 where
  pub email : Text
  pub code_hash : Text
  pub expires_at : Time
  pub attempts : ℕ

pub record SendEvent : Type 0 where
  pub email : Text
  pub ip : Text
  pub created_at : Time

pub record Session : Type 0 where
  pub id : Uuid
  pub user_id : Uuid
  pub token_hash : Text
  pub expires_at : Time
  pub revoked_at : Option Time

-- interests and meeting_tags
pub record RefItem : Type 0 where
  pub id : Uuid
  pub value : Text

pub record Profile : Type 0 where
  pub id : Uuid
  pub user_id : Uuid
  pub name : Text
  pub gender : Text
  pub birth_date : Date
  pub description : Text
  pub dating_goal : Option Text
  pub height_cm : Option Decimal
  pub weight_kg : Option Decimal
  pub show_zodiac : Bool

pub record Crop : Type 0 where
  pub x : Decimal
  pub y : Decimal
  pub size : Decimal

pub record Photo : Type 0 where
  pub id : Uuid
  pub profile_id : Uuid
  pub object_key : Text
  pub url : Text
  pub position : ℕ
  pub crop : Option Crop

-- meeting_ads.status, with its CHECK
pub data AdStatus : Type 0 where
  active expired closed : AdStatus

pub record Ad : Type 0 where
  pub id : Uuid
  pub author_profile_id : Uuid
  pub description : Text
  pub status : AdStatus
  pub created_at : Time
  pub expires_at : Time

-- meeting_candidates.status, with its CHECK
pub data LikeStatus : Type 0 where
  pending accepted rejected : LikeStatus

pub record Candidate : Type 0 where
  pub id : Uuid
  pub meeting_ad_id : Uuid
  pub profile_id : Uuid
  pub status : LikeStatus
  pub created_at : Time

pub record Chat : Type 0 where
  pub id : Uuid
  pub meeting_candidate_id : Uuid

pub record Point : Type 0 where
  pub lat : Decimal
  pub lng : Decimal

pub record City : Type 0 where
  pub id : Uuid
  pub geoname_id : ℤ
  pub name : Text
  pub name_ru : Option Text
  pub country : Text
  pub region : Option Text
  pub population : ℕ
  pub location : Point

-- user_geo.mode, with its CHECK
pub data GeoMode : Type 0 where
  auto manual : GeoMode

pub record UserGeo : Type 0 where
  pub user_id : Uuid
  pub mode : GeoMode
  pub manual_city_id : Option Uuid
  pub gps : Option Point
  pub gps_accuracy : Option Decimal
  pub gps_updated_at : Option Time
  pub effective_point : Option Point
  pub resolved_city_id : Option Uuid

pub record Db : Type 0 where
  pub users : List User
  pub otp_codes : List Otp
  pub otp_send_events : List SendEvent
  pub refresh_sessions : List Session
  pub interests : List RefItem
  pub profiles : List Profile
  pub profile_interests : List (Uuid × Uuid)
  pub photos : List Photo
  pub meeting_tags : List RefItem
  pub meeting_ads : List Ad
  pub meeting_ad_tags : List (Uuid × Uuid)
  pub meeting_candidates : List Candidate
  pub chats : List Chat
  pub cities : List City
  pub user_geo : List UserGeo

abbrev pub empty_db : Db
empty_db = record {
  users = [];
  otp_codes = [];
  otp_send_events = [];
  refresh_sessions = [];
  interests = [];
  profiles = [];
  profile_interests = [];
  photos = [];
  meeting_tags = [];
  meeting_ads = [];
  meeting_ad_tags = [];
  meeting_candidates = [];
  chats = [];
  cities = [];
  user_geo = [];
}

-- The readings of the two clocks that a request sees: the server's `time.Now()` and PostgreSQL's
-- `now()`.
pub record Clock : Type 0 where
  pub app : Time
  pub db : Time
