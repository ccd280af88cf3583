-- ===== src/Config.antt =====
-- internal/config/config.go: the configuration that is read from the environment.
pub mod Accepted
use frimo_messenger.Base.{
  ℕ, ◌*◌, String, Bytes, Option, none, some, str_eq, ◌==◌, not, if◌then◌else◌, length,
}
use frimo_messenger.Errors.{plain, Error, Result, ok, err}
use frimo_messenger.Domain.{Duration, second, minute, hour}

pub record HttpConfig : Type 0 where
  pub address : String
  pub read_header_timeout : Duration
  pub read_timeout : Duration
  pub write_timeout : Duration
  pub idle_timeout : Duration

pub record RedisConfig : Type 0 where
  pub addr : String
  pub password : String
  pub db : ℕ

pub record LoginConfig : Type 0 where
  pub access_token_secret : Bytes
  pub access_token_ttl : Duration
  pub refresh_token_ttl : Duration

-- The records of one field are flattened: `database_url`, `base_url`, `encryption_key` and
-- `refresh_retry_ttl` are those of DatabaseConfig, AppConfig, VerificationConfig and RefreshConfig.
pub record Config : Type 0 where
  pub http : HttpConfig
  pub database_url : String
  pub cache : RedisConfig
  pub base_url : String
  pub login : LoginConfig
  pub encryption_key : Bytes
  pub refresh_retry_ttl : Duration
  pub http_shutdown_timeout : Duration
  pub worker_shutdown_timeout : Duration
  pub verification_token_lifetime : Duration

-- `os.Getenv`: a variable that is not set is empty.
abbrev pub env_or_empty : Option String → String
env_or_empty none = ""
env_or_empty (some v) = v

-- `getEnv`, on what `os.LookupEnv` finds.
abbrev pub get_env : Option String → String → String
get_env none fallback = fallback
get_env (some v) fallback = v

-- The variables are set by `env`; `decode_base64` is `base64.StdEncoding.DecodeString`.
module _ (env : String → Option String) (decode_base64 : String → Result Bytes) where
  abbrev pub config_of : Bytes → Bytes → Config
  config_of encryption_key access_token_secret = record {
    http = record {
      address = get_env (env "HTTP_ADDR") ":8080";
      read_header_timeout = 5 * second;
      read_timeout = 10 * second;
      write_timeout = 10 * second;
      idle_timeout = 60 * second;
    };
    database_url = env_or_empty (env "DATABASE_URL");
    cache = record {
      addr = env_or_empty (env "REDIS_ADDR");
      password = env_or_empty (env "REDIS_PASSWORD");
      db = 0;
    };
    base_url = get_env (env "APP_BASE_URL") "http://localhost";
    login = record {
      access_token_secret = access_token_secret;
      access_token_ttl = 15 * minute;
      refresh_token_ttl = 24 * 30 * hour;
    };
    encryption_key = encryption_key;
    refresh_retry_ttl = minute;
    http_shutdown_timeout = 10 * second;
    worker_shutdown_timeout = 10 * second;
    verification_token_lifetime = 30 * minute;
  }

  -- The checks at the end of `Load`, in its order.
  unfoldable pub checked : Config → Result Config
  unfolding length
  checked cfg =
      if str_eq cfg.http.address ""
      then err (plain "HTTP_ADDR must not be empty")
      else if str_eq cfg.database_url ""
      then err (plain "DATABASE_URL is required")
      else if str_eq cfg.base_url ""
      then err (plain "APP_BASE_URL must not be empty")
      else if not (length cfg.encryption_key == 32)
      then err (plain "VERIFICATION_TOKEN_ENCRYPTION_KEY must decode to 32 bytes")
      else if not (length cfg.login.access_token_secret == 32)
      then err (plain "ACCESS_TOKEN_SECRET must decode to 32 bytes")
      else ok cfg

  -- The decoder's error is only put into the text of a new one, by `%v`; that end of the text is left
  -- out.
  abbrev pub decoded : String → Result Bytes → Result Bytes
  decoded m (ok bytes) = ok bytes
  decoded m (err e) = err (plain m)

  abbrev pub loaded : Result Bytes → Result Bytes → Result Config
  loaded (err e) secret = err e
  loaded (ok key) (err e) = err e
  loaded (ok key) (ok secret) = checked (config_of key secret)

  -- `Load`.
  unfoldable pub load : Result Config
  unfolding checked
  load =
      loaded
        (decoded "failed to decode VERIFICATION_TOKEN_ENCRYPTION_KEY"
          (decode_base64 (env_or_empty (env "VERIFICATION_TOKEN_ENCRYPTION_KEY"))))
        (decoded "failed to decode ACCESS_TOKEN_SECRET"
          (decode_base64 (env_or_empty (env "ACCESS_TOKEN_SECRET"))))
