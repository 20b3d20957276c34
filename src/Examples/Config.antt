-- ===== src/Examples/Config.antt =====
-- Runs of the configuration.
use plata_test_task.Prelude.{pos, Text, codes, text_eq, [], if◌then◌else◌}
use plata_test_task.Errors.{text, Returns}
use plata_test_task.Provider.{parsed, unparsed}
use plata_test_task.Config.Load.{Parsers, load}
use plata_test_task.Config.Load.Sound.{IsSound, load-IsSound}

-- Parsers that know one text of each kind, and flags that keep their defaults.
abbrev pub parsers : Parsers
parsers = record {
  parse_duration =
      λ v. if text_eq v (codes "3s") then parsed (pos 3000000000) else unparsed (text v);
  atoi = λ v. if text_eq v (codes "16") then parsed (pos 16) else unparsed (text v);
  parse_flags = λ provider storage args. parsed (provider, storage);
}

abbrev pub database_only : Text → Text
database_only name = if text_eq name (codes "DATABASE_URL") then codes "postgres://db" else []

abbrev pub tuned : Text → Text
tuned name =
    if text_eq name (codes "POSTGRES_MAX_CONNS")
    then codes "16"
    else if text_eq name (codes "DISPATCH_BASE_BACKOFF")
    then codes "3s"
    else database_only name

load-IsSound_example : Returns IsSound (load parsers [] tuned)
load-IsSound_example = load-IsSound parsers [] tuned
