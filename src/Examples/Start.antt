-- ===== src/Examples/Start.antt =====
-- A server that starts over a database which is there.
use plata_test_task.Prelude.{codes, text_eq, none, [], ◌≡◌, refl}
use plata_test_task.Errors.{Returns, ok}
use plata_test_task.Config.{Config, default_config}
use plata_test_task.Config.Load.{load}
use plata_test_task.Config.Load.Unset.{load_defaults}
use plata_test_task.Server.{Adapter, Startup, start, server_of}
use plata_test_task.Server.Ready.{IsReady, start-IsReady, start-IsBuilt}
use plata_test_task.Examples.Config.{parsers, tuned, database_only}

abbrev reachable : Startup
reachable = record { migrate = λ url. none; new_pool = λ url conns lifetime period. none }

start-IsReady_example : Returns IsReady (start parsers reachable [] tuned)
start-IsReady_example = start-IsReady parsers reachable [] tuned

abbrev plain_config : Config
plain_config = record default_config { database_url = database_only (codes "DATABASE_URL") }

loads_plain_config : load parsers [] database_only ≡ ok plain_config
unfolding text_eq
loads_plain_config =
    load_defaults parsers database_only [] (λ name other. rw other refl) (λ e. cc (e)) refl

start-IsBuilt_example :
    (a : Adapter) × (start parsers reachable [] database_only ≡ ok (server_of plain_config a))
start-IsBuilt_example =
    start-IsBuilt parsers reachable [] database_only plain_config loads_plain_config refl refl
