-- ===== src/Server.antt =====
-- cmd/server: main.go as far as it builds the parts from the configuration, and newRateProvider of
-- provider.go. Whether the migrations run and the pool connects are arguments; listening, signals and
-- the shutdown are left out. The delays of the fake provider and the HTTP client are no part of the
-- model's providers.
pub mod Ready
use plata_test_task.Prelude.{
  ℤ, pos_part, Text, codes, text_eq, Option, none, some, List, [], if◌then◌else◌,
}
use plata_test_task.Errors.{Error, Result, ok, err, other, text, quoted, ◌<>◌, ◌>>=◌}
use plata_test_task.Config.{Config, provider_fake, provider_exchangerate_dev}
use plata_test_task.Config.Load.{Parsers, load}
use plata_test_task.UseCase.Port.{RateProvider}
use plata_test_task.Provider.{exchangerate_dev}
use plata_test_task.Provider.Fake.{FakeRateProvider}
use plata_test_task.Limiter.{RateLimiter, new_rate_limiter}
use plata_test_task.Worker.Backoff.{WorkerConfig}
use plata_test_task.Dispatcher.{Dispatcher}

-- The adapter that the configuration names.
pub data Adapter : Type 0 where
  fake_adapter : FakeRateProvider → Adapter
  exchangerate_dev_adapter : RateProvider → Adapter

unfoldable pub new_rate_provider : Config → Result Adapter
new_rate_provider cfg =
    if text_eq cfg.provider provider_fake
    then ok (
        fake_adapter (record {
          rpm_quota = pos_part cfg.fake_provider_rpm_quota;
          quote_ttl = cfg.quote_ttl;
          call_times = [];
        }))
    else if text_eq cfg.provider provider_exchangerate_dev
    then ok (exchangerate_dev_adapter (exchangerate_dev cfg.quote_ttl))
    else err (other (text (codes "no adapter wired for provider ") <> quoted cfg.provider))

pub record Server : Type 0 where
  pub cfg : Config
  pub adapter : Adapter
  pub limiter : RateLimiter
  pub worker : WorkerConfig
  pub dispatcher : Dispatcher

unfoldable pub worker_of : Config → WorkerConfig
worker_of cfg = record {
  base_backoff = cfg.dispatch_base_backoff;
  max_backoff = cfg.dispatch_max_backoff;
  max_attempts = pos_part cfg.dispatch_max_attempts;
  max_lifetime = cfg.dispatch_max_lifetime;
}

unfoldable pub dispatcher_of : Config → Dispatcher
dispatcher_of cfg = record {
  batch_size = pos_part cfg.dispatch_batch_size;
  visibility_timeout = cfg.dispatch_visibility_timeout;
}

-- What the code asks of the database before it builds the parts.
pub record Startup : Type 0 where
  pub migrate : Text → Option Error
  pub new_pool : Text → ℤ → ℤ → ℤ → Option Error

checked : Option Error → Result (Unit {0})
checked none = ok tt
checked (some e) = err e

-- The parts over a provider.
unfoldable pub server_of : Config → Adapter → Server
unfolding worker_of dispatcher_of
server_of cfg adapter = record {
  cfg = cfg;
  adapter = adapter;
  limiter =
      new_rate_limiter (pos_part cfg.rate_limit_per_minute) (pos_part cfg.rate_limit_per_hour);
  worker = worker_of cfg;
  dispatcher = dispatcher_of cfg;
}

-- The server as far as it starts to listen. An error is logged and the exit code is 1.
unfoldable pub start : Parsers → Startup → List Text → (Text → Text) → Result Server
unfolding checked server_of new_rate_provider
start p db args getenv = do
  cfg ← load p args getenv
  migrated ← checked (db.migrate cfg.database_url)
  connected ← checked (
      db.new_pool cfg.database_url cfg.postgres_max_conns cfg.postgres_max_conn_lifetime
        cfg.postgres_health_check_period)
  adapter ← new_rate_provider cfg
  ok (server_of cfg adapter)
