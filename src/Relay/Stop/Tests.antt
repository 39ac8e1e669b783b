-- ===== src/Relay/Stop/Tests.antt =====
-- Runs of the relay, and its properties at such runs.
use purple_wolf.Prelude.{true, false, [], ◌∷◌, none, some, ◌≡◌, refl}
use purple_wolf.Relay.Config.{
  Config, SourceConfig, Outside, default_relay_config, validate, check_ids, check_subscribers,
  resolve_admin_token, resolve_instance_id,
}
use purple_wolf.Relay.Stop.Clean.{exit_code-clean}
use purple_wolf.Relay.Stop.{RunError, Stop, on_admin, on_pipeline, loaded, checked, run, exit_code}
use purple_wolf.Relay.Supervisor.Known.{went_wrong}
use purple_wolf.Relay.Supervisor.Returns.{Run-cons}
use purple_wolf.Relay.Supervisor.{
  ParserExit, Failure, System, returned, leave_loop, on_parser, after_sources, return_with, spawned,
  Step, Run,
}
use purple_wolf.Relay.Tasks.{finished, done, is_finished, leave, finish, spawn_all}

program : Unit {0}
unfolding run checked validate check_ids check_subscribers resolve_admin_token resolve_instance_id
    exit_code
program = tt

abbrev outside : Outside
outside = record {
  var = λ name. none;
  read_to_string = λ path. none;
  read = λ path. none;
  hostname = none;
}

abbrev config : Config
config = record {
  sources = SourceConfig.stdin ∷ [];
  enrichments = [];
  subscribers = [];
  relay = default_relay_config;
}

abbrev stop : Stop Failure
stop = on_pipeline (finished none) (finished none)

runs : run outside (loaded config) false none none stop ≡ none
unfolding program
runs = refl

-- An admin server that is gone stops the relay with an error, however the pipeline ends then.
abbrev no_admin : Stop Failure
no_admin = on_admin (finished none) (finished none)

admin_gone : run outside (loaded config) false none none no_admin ≡ some RunError.admin_stopped
unfolding program
admin_gone = refl

abbrev ended : System
ended = record {
  is_shut_down = false;
  sources = [];
  parser = done (finished ParserExit.sources_closed);
  sinks = [];
  ready = false;
  phase = returned;
  outcome = none;
  parser_finished = true;
  sources_exhausted = true;
}

ends_well : Run true (spawned 0 0) 5 ended
unfolding spawned spawn_all leave_loop on_parser after_sources return_with
ends_well = Run-cons (Step.parser_acts (leave ParserExit.sources_closed tt)) (
    Run-cons (Step.parser_acts (finish ParserExit.sources_closed)) (
      Run-cons (Step.parser_joined refl refl) (
        Run-cons (Step.sources_drained refl refl)
          (Run-cons (Step.sinks_drained refl refl) Run.here))))

exits : exit_code (run outside (loaded config) false none none stop) ≡ 0
unfolding program
exits = refl

exit_code-clean_example :
    (went_wrong (spawned 0 0) ≡ false)
    × (ended.sources ≡ [])
    × (ended.sinks ≡ [])
    × (is_finished ended.parser ≡ true)
exit_code-clean_example =
    exit_code-clean outside (loaded config) none none stop 0 0 0 5 (spawned 0 0) ended exits refl
      Run.here ends_well refl
