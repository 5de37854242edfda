-- ===== src/Config.antt =====
-- internal/config/config.go. `lookup` is os.LookupEnv after godotenv has read the file .env; the
-- parsers of the standard library are parameters. Durations are in nanoseconds.
pub mod Secrets
use meetgo_dating_server.Prelude.{
  ℕ, ℤ, pos, negsuc, ◌*◌, ◌≡◌, ◌≢◌, ◌⊎◌, ◌↔◌, refl, arith, String, Text, codes, text_eq,
  if◌then◌else◌, Bool, true, false, Option, none, some, List, [], ◌∷◌,
}

pub record StorageConfig : Type 0 where
  pub provider : Text
  pub public_url : Text
  pub local_dir : Text
  pub s3_endpoint : Text
  pub s3_region : Text
  pub s3_bucket : Text
  pub s3_access_key : Text
  pub s3_secret_key : Text
  pub s3_use_ssl : Bool

pub record Config : Type 0 where
  pub env : Text
  pub http_port : Text
  pub database_url : Text
  pub log_level : ℤ
  pub read_timeout : ℤ
  pub write_timeout : ℤ
  pub idle_timeout : ℤ
  pub shutdown_timeout : ℤ
  pub jwt_secret : Text
  pub access_ttl : ℤ
  pub refresh_ttl : ℤ
  pub otp_ttl : ℤ
  pub otp_resend_after : ℤ
  pub storage : StorageConfig
  pub geo_ip_db_path : Text

pub record Environment : Type 0 where
  pub lookup : String → Option Text
  pub parse_bool : Text → Option Bool
  pub parse_duration : Text → Option ℤ
  pub atoi : Text → Option ℤ

-- What Load returns: the configuration, or which value is missing.
pub data Loaded : Type 0 where
  loaded : Config → Loaded
  database_url_required jwt_secret_required : Loaded

abbrev pub second : ℕ
second = 1000000000

abbrev pub is_dev : Text → Bool
is_dev env = text_eq env (codes "dev")

abbrev pub dev_secret : Text
dev_secret = codes "dev-insecure-secret-change-me"

abbrev pub or_fallback : {A : Type 0} → Option A → A → A
or_fallback none fallback = fallback
or_fallback (some a) fallback = a

-- v, ok := os.LookupEnv(key), with the test on `v == ""`
abbrev pub env_or : Option Text → Text → Text
env_or none fallback = fallback
env_or (some []) fallback = fallback
env_or (some (c ∷ v)) fallback = c ∷ v

abbrev pub parsed_or : {A : Type 0} → (Text → Option A) → Option Text → A → A
parsed_or parse none fallback = fallback
parsed_or parse (some []) fallback = fallback
parsed_or parse (some (c ∷ v)) fallback = or_fallback (parse (c ∷ v)) fallback

module _ (e : Environment) where
  abbrev pub os_getenv : String → Text
  os_getenv key = or_fallback (e.lookup key) []

  abbrev pub get_env : String → Text → Text
  get_env key fallback = env_or (e.lookup key) fallback

  abbrev pub get_env_bool : String → Bool → Bool
  get_env_bool key fallback = parsed_or e.parse_bool (e.lookup key) fallback

  abbrev pub get_env_duration : String → ℕ → ℤ
  get_env_duration key fallback = parsed_or e.parse_duration (e.lookup key) (pos fallback)

  abbrev pub parse_log_level : Text → ℤ
  parse_log_level s =
      if text_eq s (codes "debug")
      then negsuc 3
      else if text_eq s (codes "info")
      then pos 0
      else if text_eq s (codes "warn")
      then pos 4
      else if text_eq s (codes "error")
      then pos 8
      else or_fallback (e.atoi s) (pos 0)

  abbrev pub read_storage : StorageConfig
  read_storage = record {
    provider = get_env "STORAGE_PROVIDER" (codes "local");
    public_url = get_env "STORAGE_PUBLIC_URL" (codes "http://localhost:8080/uploads");
    local_dir = get_env "STORAGE_LOCAL_DIR" (codes "./uploads");
    s3_endpoint = os_getenv "STORAGE_S3_ENDPOINT";
    s3_region = get_env "STORAGE_S3_REGION" (codes "us-east-1");
    s3_bucket = os_getenv "STORAGE_S3_BUCKET";
    s3_access_key = os_getenv "STORAGE_S3_ACCESS_KEY";
    s3_secret_key = os_getenv "STORAGE_S3_SECRET_KEY";
    s3_use_ssl = get_env_bool "STORAGE_S3_USE_SSL" true;
  }

  unfoldable pub read_config : Config
  read_config = record {
    env = get_env "ENV" (codes "dev");
    http_port = get_env "HTTP_PORT" (codes "8080");
    database_url = os_getenv "DATABASE_URL";
    log_level = parse_log_level (get_env "LOG_LEVEL" (codes "info"));
    read_timeout = get_env_duration "HTTP_READ_TIMEOUT" (10 * second);
    write_timeout = get_env_duration "HTTP_WRITE_TIMEOUT" (10 * second);
    idle_timeout = get_env_duration "HTTP_IDLE_TIMEOUT" (60 * second);
    shutdown_timeout = get_env_duration "SHUTDOWN_TIMEOUT" (10 * second);
    jwt_secret = os_getenv "JWT_SECRET";
    access_ttl = get_env_duration "ACCESS_TTL" (15 * 60 * second);
    refresh_ttl = get_env_duration "REFRESH_TTL" (60 * 24 * 60 * 60 * second);
    otp_ttl = get_env_duration "OTP_TTL" (5 * 60 * second);
    otp_resend_after = get_env_duration "OTP_RESEND_AFTER" (60 * second);
    storage = read_storage;
    geo_ip_db_path = os_getenv "GEOIP_DB_PATH";
  }

  abbrev pub with_secret : Config → Loaded
  with_secret c =
      if text_eq c.jwt_secret []
      then (if is_dev c.env
          then loaded (record c { jwt_secret = dev_secret })
          else jwt_secret_required)
      else loaded c

  unfoldable pub load_config : Loaded
  unfolding read_config
  load_config =
      if text_eq read_config.database_url [] then database_url_required else with_secret read_config
