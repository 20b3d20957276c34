-- ===== src/Config.antt =====
-- internal/config/config.go: the settings of the server, their defaults, and the values that the code
-- accepts. Durations and counts are integers.
pub mod Env
pub mod Load
use plata_test_task.Prelude.{ℤ, pos, ◌*◌, Text, codes, text_eq, Bool, true, false, ◌||◌, List, []}
use plata_test_task.Domain.Rate.{second, minute, hour}

-- `type Provider string`, `type Storage string`
abbrev pub Provider : Type 0
Provider = Text

abbrev pub provider_fake : Provider
provider_fake = codes "fake"

abbrev pub provider_exchangerate_dev : Provider
provider_exchangerate_dev = codes "exchangeratedev"

unfoldable pub valid_provider : Provider → Bool
valid_provider p = text_eq p provider_fake || text_eq p provider_exchangerate_dev

abbrev pub Storage : Type 0
Storage = Text

abbrev pub storage_postgres : Storage
storage_postgres = codes "postgres"

unfoldable pub valid_storage : Storage → Bool
valid_storage s = text_eq s storage_postgres

-- `slog.Level`, its four named values.
pub data Level : Type 0 where
  level_debug : Level
  level_info : Level
  level_warn : Level
  level_error : Level

pub record Config : Type 0 where
  pub http_addr : Text
  pub read_timeout : ℤ
  pub read_header_timeout : ℤ
  pub write_timeout : ℤ
  pub idle_timeout : ℤ
  pub shutdown_timeout : ℤ
  pub log_level : Level
  pub provider : Provider
  pub storage : Storage
  pub database_url : Text
  pub postgres_max_conns : ℤ
  pub postgres_max_conn_lifetime : ℤ
  pub postgres_health_check_period : ℤ
  pub quote_ttl : ℤ
  pub rate_limit_per_minute : ℤ
  pub rate_limit_per_hour : ℤ
  pub dispatch_tick_interval : ℤ
  pub dispatch_batch_size : ℤ
  pub dispatch_pool_size : ℤ
  pub dispatch_visibility_timeout : ℤ
  pub dispatch_base_backoff : ℤ
  pub dispatch_max_backoff : ℤ
  pub dispatch_max_attempts : ℤ
  pub dispatch_max_lifetime : ℤ
  pub dispatch_pass_timeout : ℤ
  pub provider_http_timeout : ℤ
  pub provider_http_max_idle_conns_per_host : ℤ
  pub provider_http_idle_conn_timeout : ℤ
  pub fake_provider_min_delay : ℤ
  pub fake_provider_max_delay : ℤ
  pub fake_provider_rpm_quota : ℤ
  pub cors_allowed_origins : List Text

-- The literal that `Load` starts from. A field that it leaves out has Go's zero value.
abbrev pub default_config : Config
default_config = record {
  http_addr = codes ":8080";
  read_timeout = pos (5 * second);
  read_header_timeout = pos (5 * second);
  write_timeout = pos (10 * second);
  idle_timeout = pos (60 * second);
  shutdown_timeout = pos (10 * second);
  log_level = level_info;
  provider = provider_exchangerate_dev;
  storage = storage_postgres;
  database_url = [];
  postgres_max_conns = pos 0;
  postgres_max_conn_lifetime = pos 0;
  postgres_health_check_period = pos 0;
  quote_ttl = pos (5 * minute);
  rate_limit_per_minute = pos 12;
  rate_limit_per_hour = pos 100;
  dispatch_tick_interval = pos (5 * second);
  dispatch_batch_size = pos 100;
  dispatch_pool_size = pos 8;
  dispatch_visibility_timeout = pos (120 * second);
  dispatch_base_backoff = pos (5 * second);
  dispatch_max_backoff = pos (5 * minute);
  dispatch_max_attempts = pos 10;
  dispatch_max_lifetime = pos hour;
  dispatch_pass_timeout = pos (90 * second);
  provider_http_timeout = pos (5 * second);
  provider_http_max_idle_conns_per_host = pos 8;
  provider_http_idle_conn_timeout = pos (90 * second);
  fake_provider_min_delay = pos 0;
  fake_provider_max_delay = pos 0;
  fake_provider_rpm_quota = pos 0;
  cors_allowed_origins = [];
}
