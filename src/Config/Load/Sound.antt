-- ===== src/Config/Load/Sound.antt =====
-- internal/config/config.go: what holds of a configuration that Load returns.
use plata_test_task.Prelude.{
  ℤ, pos, ◌≤ℤ◌, ◌<ℤ◌, Text, text_eq, text_eq_iff, codes, ◌≡◌, ◌≢◌, ◌⊎◌, inl, inr, refl, List, [],
  ◌∷◌, All, Bool-cases, arith, map, All-filter, All-map, true, false, Bool, not, All-unit,
  if◌then◌else◌, ltb_ℤ, ◌&&◌,
}
use plata_test_task.Errors.{Result, ok, Returns, >>=-Returns, Message}
use plata_test_task.Domain.Pair.Strings.{split, trim_space}
use plata_test_task.Config.{
  Config, provider_fake, provider_exchangerate_dev, storage_postgres, valid_provider, valid_storage,
  Level, Provider, Storage,
}
use plata_test_task.Config.Env.{
  Setting, load_settings, positive_env, non_negative_env, checked_setting, parse_log_level,
}
use plata_test_task.Config.Load.{
  Parsers, load, load_env, load_flags, check_config, level_env, origins_env, origins_of, flags_of,
  refused,
}
use plata_test_task.Config.Load.Fields.{
  duration_settings, optional_duration_settings, count_settings, optional_count_settings,
}
use plata_test_task.Provider.{Parsed, parsed, unparsed}

-- Every number of the configuration is in its range, and no origin is empty.
abbrev pub AllInRange : Config → Type 0
AllInRange c =
    All (λ s. pos 0 <ℤ s.get c) duration_settings
    × All (λ s. pos 0 ≤ℤ s.get c) optional_duration_settings
    × All (λ s. pos 0 <ℤ s.get c) count_settings
    × All (λ s. pos 0 ≤ℤ s.get c) optional_count_settings
    × All (λ o. o ≢ []) c.cors_allowed_origins

-- A setting that may be written with what `P` accepts.
abbrev Writable : (ℤ → Type 0) → Setting → Type 0
Writable P s = (c : Config) → AllInRange c → P (s.get c) × ((v : ℤ) → P v → AllInRange (s.set v c))

durations-Writable : All (Writable (λ v. pos 0 <ℤ v)) duration_settings
durations-Writable = ground arith

optional_durations-Writable : All (Writable (λ v. pos 0 ≤ℤ v)) optional_duration_settings
optional_durations-Writable = ground arith

counts-Writable : All (Writable (λ v. pos 0 <ℤ v)) count_settings
counts-Writable = ground arith

optional_counts-Writable : All (Writable (λ v. pos 0 ≤ℤ v)) optional_count_settings
optional_counts-Writable = ground arith

-- A reader that, given an acceptable default, returns acceptable values only, and never panics.
abbrev Accepts : (ℤ → Type 0) → (Text → ℤ → Result ℤ) → Type 0
Accepts P read = (name : Text) (def : ℤ) → P def → Returns P (read name def)

checked_setting-Returns :
    (refused : ℤ → Bool) (must name text : Text) (o : Parsed ℤ)
    → Returns (λ v. refused v ≡ false) (checked_setting refused must name text o)
unfolding checked_setting
checked_setting-Returns refused must name text (unparsed m) = tt
checked_setting-Returns refused must name text (parsed d) = ground arith

module _ (parse : Text → Parsed ℤ) (getenv : Text → Text) where
  positive_env-Accepts : Accepts (λ v. pos 0 <ℤ v) (positive_env parse getenv)
  unfolding positive_env
  positive_env-Accepts name def p =
      ground (arith, checked_setting-Returns _ _ name (getenv name) (parse (getenv name)))

  non_negative_env-Accepts : Accepts (λ v. pos 0 ≤ℤ v) (non_negative_env parse getenv)
  unfolding non_negative_env
  non_negative_env-Accepts name def p =
      ground (arith, checked_setting-Returns _ _ name (getenv name) (parse (getenv name)))

load_settings-AllInRange :
    (P : ℤ → Type 0) (read : Text → ℤ → Result ℤ) (ss : List Setting) (c : Config)
    → Accepts P read
    → All (Writable P) ss
    → AllInRange c
    → Returns AllInRange (load_settings read ss c)
unfolding load_settings
load_settings-AllInRange P read [] c accepts writable h = h
load_settings-AllInRange P read (s ∷ ss) c accepts writable h =
    let (sound, write) = writable.0 c h in
    >>=-Returns P AllInRange (read s.name (s.get c)) _ (accepts s.name (s.get c) sound)
      (λ v q. load_settings-AllInRange P read ss (s.set v c) accepts writable.1 (write v q))

-- What a configuration that passes the checks across fields has.
pub record IsSound (c : Config) : Type 0 where
  pub in_range : AllInRange c
  pub provider_known : (c.provider ≡ provider_fake) ⊎ (c.provider ≡ provider_exchangerate_dev)
  pub storage_known : c.storage ≡ storage_postgres
  pub database_named : c.database_url ≢ []
  -- A pass ends before its rows count as stuck.
  pub pass_visible : c.dispatch_pass_timeout ≤ℤ c.dispatch_visibility_timeout
  pub pool_covered : pos 0 <ℤ c.postgres_max_conns → c.dispatch_pool_size ≤ℤ c.postgres_max_conns

level_env-Returns :
    (getenv : Text → Text) (def : Level) → Returns (λ l. Unit {0}) (level_env getenv def)
unfolding level_env parse_log_level
level_env-Returns getenv def = ground arith

origins_env-All :
    (getenv : Text → Text) (def : List Text)
    → All (λ o. o ≢ []) def
    → All (λ o. o ≢ []) (origins_env getenv def)
unfolding origins_env origins_of
origins_env-All getenv def h =
    elim (Bool-cases (text_eq (getenv (codes "CORS_ALLOWED_ORIGINS")) [])) [
      | inl unset ↦ rw unset h
      | inr set ↦ rw set (
          All-map _ _ _ named (
            All-filter (λ o. Unit {0}) _
              (map trim_space (split (getenv (codes "CORS_ALLOWED_ORIGINS")) (codes ",")))
              (All-unit _)))
    ]
  where
    named : (o : Text) → Unit {0} × (not (text_eq o []) ≡ true) → o ≢ []
    named o h e = ground (arith, text_eq_iff o [])

load_env-Returns : (p : Parsers) (getenv : Text → Text) → Returns AllInRange (load_env p getenv)
unfolding load_env
load_env-Returns p getenv =
    >>=-Returns AllInRange _ _ _
      (load_settings-AllInRange _ _ _ _ (positive_env-Accepts p.parse_duration getenv)
        durations-Writable (ground arith))
      (λ c1 h1.
        >>=-Returns AllInRange _ _ _
          (load_settings-AllInRange _ _ _ _ (non_negative_env-Accepts p.parse_duration getenv)
            optional_durations-Writable h1)
          (λ c2 h2.
            >>=-Returns AllInRange _ _ _
              (load_settings-AllInRange _ _ _ _ (positive_env-Accepts p.atoi getenv) counts-Writable
                h2)
              (λ c3 h3.
                >>=-Returns AllInRange _ _ _
                  (load_settings-AllInRange _ _ _ _ (non_negative_env-Accepts p.atoi getenv)
                    optional_counts-Writable h3)
                  (λ c4 h4.
                    >>=-Returns (λ l. Unit {0}) _ _ _ (level_env-Returns getenv c4.log_level)
                      (λ l u. ground (arith, origins_env-All getenv c4.cors_allowed_origins))))))

flags_of-Returns :
    (c : Config) (o : Parsed (Provider × Storage))
    → AllInRange c
    → Returns AllInRange (flags_of c o)
unfolding flags_of
flags_of-Returns c (unparsed m) h = tt
flags_of-Returns c (parsed (provider, storage)) h = h

guard-Returns :
    (P : Config → Type 0) (t : Bool) (m : Message) (r : Result Config)
    → (t ≡ false → Returns P r)
    → Returns P (if t then refused m else r)
unfolding refused
guard-Returns P true m r h = tt
guard-Returns P false m r h = h refl

check_config-Returns : (c : Config) → AllInRange c → Returns IsSound (check_config c)
unfolding check_config valid_provider valid_storage
check_config-Returns c h = guard-Returns IsSound (not (valid_provider c.provider)) _ _ (λ known.
    guard-Returns IsSound (not (valid_storage c.storage)) _ _ (λ stored.
      guard-Returns IsSound (text_eq c.storage storage_postgres && text_eq c.database_url []) _ _
        (λ named.
          guard-Returns IsSound (ltb_ℤ c.dispatch_visibility_timeout c.dispatch_pass_timeout) _ _
            (λ visible.
              guard-Returns IsSound
                (ltb_ℤ (pos 0) c.postgres_max_conns
                  && ltb_ℤ c.postgres_max_conns c.dispatch_pool_size)
                _ (ok c)
                (λ covered. record {
                  in_range = h;
                  provider_known = ground (
                    arith,
                    text_eq_iff c.provider provider_fake,
                    text_eq_iff c.provider provider_exchangerate_dev,
                  );
                  storage_known = ground (arith, text_eq_iff c.storage storage_postgres);
                  database_named = λ e. ground (arith, text_eq_iff c.database_url []);
                  pass_visible = ground arith;
                  pool_covered = λ p. ground arith;
                })))))

-- Load never panics, whatever the environment, the arguments and the parsers' answers. A
-- configuration that it returns has a known provider and storage, an address of the database, no
-- empty origin, positive durations and counts where zero means nothing, none that is negative, a
-- visibility timeout at least as long as a pass, and a pool of connections, if it is set, at least as
-- large as the pool of workers.
pub load-IsSound :
    (p : Parsers) (args : List Text) (getenv : Text → Text) → Returns IsSound (load p args getenv)
unfolding load load_flags
load-IsSound p args getenv =
    >>=-Returns AllInRange IsSound _ _ (load_env-Returns p getenv) (λ env h.
      >>=-Returns AllInRange IsSound _ _ (flags_of-Returns env _ h)
        (λ c k. check_config-Returns c k))
