-- ===== src/Server/Ready.antt =====
-- cmd/server: what the parts of a server that has started are fit for.
use plata_test_task.Prelude.{
  ℕ, pos, ◌<◌, ◌<ℤ◌, ◌≤ℤ◌, Text, text_eq, text_eq_iff, ◌≡◌, refl, inl, inr, Option, subst, none,
  some, List, arith, Bool-cases,
}
use plata_test_task.Errors.{Error, Result, ok, Returns, >>=-Returns}
use plata_test_task.Config.{Config, provider_fake, provider_exchangerate_dev}
use plata_test_task.Config.Load.{Parsers, load}
use plata_test_task.Config.Load.Sound.{IsSound, load-IsSound}
use plata_test_task.Worker.Backoff.{capped_delay}
use plata_test_task.Worker.Backoff.Bounds.{capped_delay_bounds}
use plata_test_task.Limiter.{new_rate_limiter}
use plata_test_task.Server.{
  Adapter, Server, Startup, new_rate_provider, server_of, worker_of, dispatcher_of, checked, start,
}

-- A server whose parts have what they rely on.
pub record IsReady (s : Server) : Type 0 where
  pub sound : IsSound s.cfg
  pub batch_positive : 0 < s.dispatcher.batch_size
  pub attempts_positive : 0 < s.worker.max_attempts
  pub budgets_positive : (0 < s.limiter.per_minute) × (0 < s.limiter.per_hour)
  pub delays_bounded :
      (attempts : ℕ)
      → (pos 0 <ℤ capped_delay s.worker attempts)
        × (capped_delay s.worker attempts ≤ℤ s.worker.max_backoff)

-- A provider is built.
abbrev IsBuilt : Result Adapter → Type 0
IsBuilt r = (a : Adapter) × (r ≡ ok a)

new_rate_provider-IsBuilt : (c : Config) → IsSound c → IsBuilt (new_rate_provider c)
unfolding new_rate_provider
new_rate_provider-IsBuilt c h = elim (Bool-cases (text_eq c.provider provider_fake)) [
  | inl fake ↦ rw (fake, new_rate_provider) (_, refl)
  | inr other ↦ elim h.provider_known [
    | inl named ↦ absurd (cc ((text_eq_iff c.provider provider_fake).1 named, other))
    | inr named ↦
        let t = (text_eq_iff c.provider provider_exchangerate_dev).1 named in
        rw (other, t, new_rate_provider) (_, refl)
  ]
]

server_of-IsReady : (c : Config) (a : Adapter) → IsSound c → IsReady (server_of c a)
unfolding server_of worker_of dispatcher_of new_rate_limiter
server_of-IsReady c a h = record {
  sound = h;
  batch_positive = ground (arith, h.in_range.2);
  attempts_positive = ground (arith, h.in_range.2);
  budgets_positive = ground (arith, h.in_range.2);
  delays_bounded = λ n. capped_delay_bounds (worker_of c) n (ground (arith, h.in_range.0));
}

checked-Returns : (o : Option Error) → Returns (λ u. Unit {0}) (checked o)
unfolding checked
checked-Returns none = tt
checked-Returns (some e) = tt

-- Whatever the environment, the arguments, the parsers' answers and the database: the start never
-- panics. A server that it builds has a configuration as sound as Load makes it, a positive batch
-- size, number of attempts and budgets of calls, and after every number of attempts a delay that is
-- positive and at most the configured maximum.
pub start-IsReady :
    (p : Parsers) (db : Startup) (args : List Text) (getenv : Text → Text)
    → Returns IsReady (start p db args getenv)
unfolding start
start-IsReady p db args getenv =
    >>=-Returns IsSound IsReady _ _ (load-IsSound p args getenv) (λ c h.
      >>=-Returns (λ u. Unit {0}) IsReady _ _ (checked-Returns (db.migrate c.database_url))
        (λ u t.
          >>=-Returns (λ u. Unit {0}) IsReady _ _
            (checked-Returns (
              db.new_pool c.database_url c.postgres_max_conns c.postgres_max_conn_lifetime
                c.postgres_health_check_period))
            (λ v t. let (a, e) = new_rate_provider-IsBuilt c h in rw e (server_of-IsReady c a h))))

-- Once Load returns a configuration, the migrations run and the pool connects, the start does not
-- fail: the configuration names a provider that there is.
pub start-IsBuilt :
    (p : Parsers) (db : Startup) (args : List Text) (getenv : Text → Text) (c : Config)
    → load p args getenv ≡ ok c
    → db.migrate c.database_url ≡ none
    → db.new_pool c.database_url c.postgres_max_conns c.postgres_max_conn_lifetime
        c.postgres_health_check_period
      ≡ none
    → (a : Adapter) × (start p db args getenv ≡ ok (server_of c a))
unfolding start checked
start-IsBuilt p db args getenv c loaded migrated connected =
    let sound : IsSound c = subst (Returns IsSound) loaded (load-IsSound p args getenv) in
    let (a, e) = new_rate_provider-IsBuilt c sound in (a, rw (loaded, migrated, connected, e) refl)
