-- ===== src/Config/Load/Fields.antt =====
-- internal/config/config.go: the variables that `Load` reads into durations and counts.
use plata_test_task.Prelude.{codes, List, [], ◌∷◌}
use plata_test_task.Config.Env.{Setting}

-- Each must be positive.
abbrev pub duration_settings : List Setting
duration_settings =
    record {
      name = codes "HTTP_READ_TIMEOUT";
      get = λ c. c.read_timeout;
      set = λ v c. record c { read_timeout = v };
    }
    ∷ record {
      name = codes "HTTP_READ_HEADER_TIMEOUT";
      get = λ c. c.read_header_timeout;
      set = λ v c. record c { read_header_timeout = v };
    }
    ∷ record {
      name = codes "HTTP_WRITE_TIMEOUT";
      get = λ c. c.write_timeout;
      set = λ v c. record c { write_timeout = v };
    }
    ∷ record {
      name = codes "HTTP_IDLE_TIMEOUT";
      get = λ c. c.idle_timeout;
      set = λ v c. record c { idle_timeout = v };
    }
    ∷ record {
      name = codes "HTTP_SHUTDOWN_TIMEOUT";
      get = λ c. c.shutdown_timeout;
      set = λ v c. record c { shutdown_timeout = v };
    }
    ∷ record {
      name = codes "QUOTE_TTL";
      get = λ c. c.quote_ttl;
      set = λ v c. record c { quote_ttl = v };
    }
    ∷ record {
      name = codes "DISPATCH_TICK_INTERVAL";
      get = λ c. c.dispatch_tick_interval;
      set = λ v c. record c { dispatch_tick_interval = v };
    }
    ∷ record {
      name = codes "DISPATCH_VISIBILITY_TIMEOUT";
      get = λ c. c.dispatch_visibility_timeout;
      set = λ v c. record c { dispatch_visibility_timeout = v };
    }
    ∷ record {
      name = codes "DISPATCH_BASE_BACKOFF";
      get = λ c. c.dispatch_base_backoff;
      set = λ v c. record c { dispatch_base_backoff = v };
    }
    ∷ record {
      name = codes "DISPATCH_PASS_TIMEOUT";
      get = λ c. c.dispatch_pass_timeout;
      set = λ v c. record c { dispatch_pass_timeout = v };
    }
    ∷ record {
      name = codes "DISPATCH_MAX_BACKOFF";
      get = λ c. c.dispatch_max_backoff;
      set = λ v c. record c { dispatch_max_backoff = v };
    }
    ∷ record {
      name = codes "DISPATCH_MAX_LIFETIME";
      get = λ c. c.dispatch_max_lifetime;
      set = λ v c. record c { dispatch_max_lifetime = v };
    }
    ∷ record {
      name = codes "PROVIDER_HTTP_TIMEOUT";
      get = λ c. c.provider_http_timeout;
      set = λ v c. record c { provider_http_timeout = v };
    }
    ∷ record {
      name = codes "PROVIDER_HTTP_IDLE_CONN_TIMEOUT";
      get = λ c. c.provider_http_idle_conn_timeout;
      set = λ v c. record c { provider_http_idle_conn_timeout = v };
    }
    ∷ []

-- Each may be zero.
abbrev pub optional_duration_settings : List Setting
optional_duration_settings =
    record {
      name = codes "FAKE_PROVIDER_MIN_DELAY";
      get = λ c. c.fake_provider_min_delay;
      set = λ v c. record c { fake_provider_min_delay = v };
    }
    ∷ record {
      name = codes "FAKE_PROVIDER_MAX_DELAY";
      get = λ c. c.fake_provider_max_delay;
      set = λ v c. record c { fake_provider_max_delay = v };
    }
    ∷ record {
      name = codes "POSTGRES_MAX_CONN_LIFETIME";
      get = λ c. c.postgres_max_conn_lifetime;
      set = λ v c. record c { postgres_max_conn_lifetime = v };
    }
    ∷ record {
      name = codes "POSTGRES_HEALTH_CHECK_PERIOD";
      get = λ c. c.postgres_health_check_period;
      set = λ v c. record c { postgres_health_check_period = v };
    }
    ∷ []

-- Each must be positive.
abbrev pub count_settings : List Setting
count_settings =
    record {
      name = codes "RATE_LIMIT_PER_MINUTE";
      get = λ c. c.rate_limit_per_minute;
      set = λ v c. record c { rate_limit_per_minute = v };
    }
    ∷ record {
      name = codes "RATE_LIMIT_PER_HOUR";
      get = λ c. c.rate_limit_per_hour;
      set = λ v c. record c { rate_limit_per_hour = v };
    }
    ∷ record {
      name = codes "DISPATCH_BATCH_SIZE";
      get = λ c. c.dispatch_batch_size;
      set = λ v c. record c { dispatch_batch_size = v };
    }
    ∷ record {
      name = codes "DISPATCH_POOL_SIZE";
      get = λ c. c.dispatch_pool_size;
      set = λ v c. record c { dispatch_pool_size = v };
    }
    ∷ record {
      name = codes "DISPATCH_MAX_ATTEMPTS";
      get = λ c. c.dispatch_max_attempts;
      set = λ v c. record c { dispatch_max_attempts = v };
    }
    ∷ record {
      name = codes "PROVIDER_HTTP_MAX_IDLE_CONNS_PER_HOST";
      get = λ c. c.provider_http_max_idle_conns_per_host;
      set = λ v c. record c { provider_http_max_idle_conns_per_host = v };
    }
    ∷ []

-- Each may be zero.
abbrev pub optional_count_settings : List Setting
optional_count_settings =
    record {
      name = codes "FAKE_PROVIDER_RPM_QUOTA";
      get = λ c. c.fake_provider_rpm_quota;
      set = λ v c. record c { fake_provider_rpm_quota = v };
    }
    ∷ record {
      name = codes "POSTGRES_MAX_CONNS";
      get = λ c. c.postgres_max_conns;
      set = λ v c. record c { postgres_max_conns = v };
    }
    ∷ []
