-- ===== src/Config/Load/Unset.antt =====
-- internal/config/config.go: Load in an environment that sets only the address of the database.
use plata_test_task.Prelude.{
  ℤ, Text, text_eq, text_eq_iff, codes, ◌≡◌, ◌≢◌, refl, List, [], ◌∷◌, All, arith, false,
}
use plata_test_task.Errors.{Result, ok}
use plata_test_task.Config.{
  Config, provider_exchangerate_dev, storage_postgres, valid_provider, valid_storage,
  default_config,
}
use plata_test_task.Config.Env.{
  Setting, load_settings, positive_env, non_negative_env, to_lower, lower,
}
use plata_test_task.Config.Load.{
  Parsers, load, load_env, load_flags, flags_of, check_config, level_env, text_env, word_env,
  origins_env,
}
use plata_test_task.Config.Load.Fields.{
  duration_settings, optional_duration_settings, count_settings, optional_count_settings,
}
use plata_test_task.Provider.{Parsed, parsed}

-- A setting under another name than the database's, that writes what it reads.
abbrev IsOther : Setting → Type 0
IsOther s = (text_eq s.name (codes "DATABASE_URL") ≡ false) × ((c : Config) → s.set (s.get c) c ≡ c)

durations-IsOther : All IsOther duration_settings
unfolding text_eq
durations-IsOther = (
  (refl, λ c. refl),
  (
    (refl, λ c. refl),
    (
      (refl, λ c. refl),
      (
        (refl, λ c. refl),
        (
          (refl, λ c. refl),
          (
            (refl, λ c. refl),
            (
              (refl, λ c. refl),
              (
                (refl, λ c. refl),
                (
                  (refl, λ c. refl),
                  (
                    (refl, λ c. refl),
                    (
                      (refl, λ c. refl),
                      ((refl, λ c. refl), ((refl, λ c. refl), ((refl, λ c. refl), tt))),
                    ),
                  ),
                ),
              ),
            ),
          ),
        ),
      ),
    ),
  ),
)

optional_durations-IsOther : All IsOther optional_duration_settings
unfolding text_eq
optional_durations-IsOther =
    ((refl, λ c. refl), ((refl, λ c. refl), ((refl, λ c. refl), ((refl, λ c. refl), tt))))

counts-IsOther : All IsOther count_settings
unfolding text_eq
counts-IsOther = (
  (refl, λ c. refl),
  (
    (refl, λ c. refl),
    ((refl, λ c. refl), ((refl, λ c. refl), ((refl, λ c. refl), ((refl, λ c. refl), tt)))),
  ),
)

optional_counts-IsOther : All IsOther optional_count_settings
unfolding text_eq
optional_counts-IsOther = ((refl, λ c. refl), ((refl, λ c. refl), tt))

module _ (p : Parsers) (getenv : Text → Text) (args : List Text)
    (unset : (name : Text) → text_eq name (codes "DATABASE_URL") ≡ false → getenv name ≡ []) where
  positive_env_unset :
      (parse : Text → Parsed ℤ) (name : Text) (d : ℤ)
      → text_eq name (codes "DATABASE_URL") ≡ false
      → positive_env parse getenv name d ≡ ok d
  unfolding positive_env text_eq
  positive_env_unset parse name d other = rw (unset name other) refl

  non_negative_env_unset :
      (parse : Text → Parsed ℤ) (name : Text) (d : ℤ)
      → text_eq name (codes "DATABASE_URL") ≡ false
      → non_negative_env parse getenv name d ≡ ok d
  unfolding non_negative_env text_eq
  non_negative_env_unset parse name d other = rw (unset name other) refl

  load_settings_unset :
      (read : Text → ℤ → Result ℤ) (ss : List Setting) (c : Config)
      → ((name : Text) (d : ℤ) → text_eq name (codes "DATABASE_URL") ≡ false → read name d ≡ ok d)
      → All IsOther ss
      → load_settings read ss c ≡ ok c
  unfolding load_settings
  load_settings_unset read [] c keeps h = refl
  load_settings_unset read (s ∷ ss) c keeps h =
      rw (keeps s.name (s.get c) h.0.0, h.0.1 c) (load_settings_unset read ss c keeps h.1)

  load_env_unset :
      load_env p getenv
      ≡ ok (record default_config { database_url = getenv (codes "DATABASE_URL") })
  unfolding load_env text_eq text_env word_env level_env origins_env
  load_env_unset =
      rw
        (
          unset (codes "HTTP_ADDR") refl,
          load_settings_unset (positive_env p.parse_duration getenv) duration_settings
              default_config (positive_env_unset p.parse_duration) durations-IsOther,
          load_settings_unset (non_negative_env p.parse_duration getenv) optional_duration_settings
              default_config (non_negative_env_unset p.parse_duration) optional_durations-IsOther,
          load_settings_unset (positive_env p.atoi getenv) count_settings default_config
              (positive_env_unset p.atoi) counts-IsOther,
          load_settings_unset (non_negative_env p.atoi getenv) optional_count_settings
              default_config (non_negative_env_unset p.atoi) optional_counts-IsOther,
          unset (codes "LOG_LEVEL") refl,
          unset (codes "PROVIDER") refl,
          unset (codes "STORAGE") refl,
          unset (codes "CORS_ALLOWED_ORIGINS") refl,
        )
        refl

  -- Where no variable but DATABASE_URL is set, that one is, and the arguments change no flag, Load
  -- returns the defaults with that address of the database.
  pub load_defaults :
      getenv (codes "DATABASE_URL") ≢ []
      → p.parse_flags provider_exchangerate_dev storage_postgres args
        ≡ parsed (provider_exchangerate_dev, storage_postgres)
      → load p args getenv
        ≡ ok (record default_config { database_url = getenv (codes "DATABASE_URL") })
  unfolding load load_flags flags_of check_config valid_provider valid_storage text_eq to_lower
      lower
  load_defaults named flags =
      let set : text_eq (getenv (codes "DATABASE_URL")) [] ≡ false =
        ground (arith, text_eq_iff (getenv (codes "DATABASE_URL")) []) in
      rw (load_env_unset, flags, set) refl
