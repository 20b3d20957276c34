-- ===== src/Config/Load.antt =====
-- internal/config/config.go: Load. `parse_flags` stands for the flag set's Parse: from the arguments
-- and the default of each flag it makes the two values, or fails.
pub mod Fields
pub mod Sound
pub mod Unset
use plata_test_task.Prelude.{
  ℤ, pos, ltb_ℤ, pos_part, Text, codes, text_eq, Bool, not, ◌&&◌, List, [], ◌∷◌, map, filter,
  if◌then◌else◌,
}
use plata_test_task.Errors.{
  Message, text, quoted, number, duration, ◌<>◌, Result, ok, err, other, ◌>>=◌,
}
use plata_test_task.Domain.Pair.Strings.{split, trim_space}
use plata_test_task.Provider.{Parsed, parsed, unparsed}
use plata_test_task.Config.{
  Config, Level, Provider, Storage, default_config, valid_provider, valid_storage, provider_fake,
  provider_exchangerate_dev, storage_postgres,
}
use plata_test_task.Config.Env.{
  positive_env, non_negative_env, load_settings, to_lower, parse_log_level,
}
use Fields.{duration_settings, optional_duration_settings, count_settings, optional_count_settings}

-- What Load uses of packages time, strconv and flag.
pub record Parsers : Type 0 where
  pub parse_duration : Text → Parsed ℤ
  pub atoi : Text → Parsed ℤ
  pub parse_flags : Provider → Storage → List Text → Parsed (Provider × Storage)

-- `if v := getenv(name); v != "" { dst = v }`
unfoldable pub text_env : (Text → Text) → Text → Text → Text
text_env getenv name def = if text_eq (getenv name) [] then def else getenv name

-- `if v := getenv(name); v != "" { dst = strings.ToLower(v) }`
unfoldable pub word_env : (Text → Text) → Text → Text → Text
word_env getenv name def = if text_eq (getenv name) [] then def else to_lower (getenv name)

unfoldable pub level_env : (Text → Text) → Level → Result Level
level_env getenv def =
    if text_eq (getenv (codes "LOG_LEVEL")) []
    then ok def
    else parse_log_level (getenv (codes "LOG_LEVEL"))

-- The trimmed origins that are not empty.
unfoldable pub origins_of : Text → List Text
origins_of v = filter (λ o. not (text_eq o [])) (map trim_space (split v (codes ",")))

unfoldable pub origins_env : (Text → Text) → List Text → List Text
unfolding origins_of
origins_env getenv def =
    if text_eq (getenv (codes "CORS_ALLOWED_ORIGINS")) []
    then def
    else origins_of (getenv (codes "CORS_ALLOWED_ORIGINS"))

-- The environment, as far as the flags.
unfoldable pub load_env : Parsers → (Text → Text) → Result Config
unfolding text_env word_env level_env origins_env
load_env p getenv = do
  durations ←
      load_settings (positive_env p.parse_duration getenv) duration_settings
        (record default_config {
          http_addr = text_env getenv (codes "HTTP_ADDR") default_config.http_addr;
        })
  optional_durations ←
      load_settings (non_negative_env p.parse_duration getenv) optional_duration_settings durations
  counts ← load_settings (positive_env p.atoi getenv) count_settings optional_durations
  optional_counts ← load_settings (non_negative_env p.atoi getenv) optional_count_settings counts
  level ← level_env getenv optional_counts.log_level
  ok (record optional_counts {
    log_level = level;
    provider = word_env getenv (codes "PROVIDER") optional_counts.provider;
    storage = word_env getenv (codes "STORAGE") optional_counts.storage;
    database_url = getenv (codes "DATABASE_URL");
    cors_allowed_origins = origins_env getenv optional_counts.cors_allowed_origins;
  })

unfoldable pub flags_of : Config → Parsed (Provider × Storage) → Result Config
flags_of cfg (unparsed m) = err (other m)
flags_of cfg (parsed (provider, storage)) =
    ok (record cfg { provider = to_lower provider; storage = to_lower storage })

unfoldable pub load_flags : Parsers → List Text → Config → Result Config
unfolding flags_of
load_flags p args cfg = flags_of cfg (p.parse_flags cfg.provider cfg.storage args)

unfoldable pub refused : Message → Result Config
refused m = err (other m)

-- The checks across fields.
unfoldable pub check_config : Config → Result Config
unfolding refused
check_config cfg =
    if not (valid_provider cfg.provider)
    then refused (
        text (codes "config: invalid PROVIDER/--provider ")
        <> quoted cfg.provider
        <> text (codes ": must be ")
        <> quoted provider_fake
        <> text (codes " or ")
        <> quoted provider_exchangerate_dev)
    else if not (valid_storage cfg.storage)
    then refused (
        text (codes "config: invalid STORAGE/--storage ")
        <> quoted cfg.storage
        <> text (codes ": must be ")
        <> quoted storage_postgres)
    else if text_eq cfg.storage storage_postgres && text_eq cfg.database_url []
    then refused (
        text (codes "config: DATABASE_URL is required when STORAGE/--storage is ")
        <> quoted storage_postgres)
    else if ltb_ℤ cfg.dispatch_visibility_timeout cfg.dispatch_pass_timeout
    then refused (
        text (codes "config: DISPATCH_VISIBILITY_TIMEOUT (")
        <> duration cfg.dispatch_visibility_timeout
        <> text (codes ") must be >= DISPATCH_PASS_TIMEOUT (")
        <> duration cfg.dispatch_pass_timeout
        <> text (codes ")"))
    else if ltb_ℤ (pos 0) cfg.postgres_max_conns
        && ltb_ℤ cfg.postgres_max_conns cfg.dispatch_pool_size
    then refused (
        text (codes "config: POSTGRES_MAX_CONNS (")
        <> number (pos_part cfg.postgres_max_conns)
        <> text (codes ") must be >= DISPATCH_POOL_SIZE (")
        <> number (pos_part cfg.dispatch_pool_size)
        <> text (codes "), plus headroom for HTTP handlers"))
    else ok cfg

unfoldable pub load : Parsers → List Text → (Text → Text) → Result Config
load p args getenv = do env ← load_env p getenv; cfg ← load_flags p args env; check_config cfg
