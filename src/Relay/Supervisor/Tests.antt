-- ===== src/Relay/Supervisor/Tests.antt =====
-- A run of the supervisor over one source and one sink, and the properties of runs at it.
use purple_wolf.Prelude.{
  ℕ, ◌+◌, ◌*◌, ◌≤◌, Bool, true, false, ◌≡◌, ◌⊎◌, inr, refl, [], ◌∷◌, none, some,
}
use purple_wolf.Relay.Supervisor.Honest.{returned-ok}
use purple_wolf.Relay.Supervisor.Known.{went_wrong}
use purple_wolf.Relay.Supervisor.Race.{calm-sink_race}
use purple_wolf.Relay.Supervisor.Returns.{CanReturn, Run-cons, supervise-returns}
use purple_wolf.Relay.Supervisor.{
  ParserExit, stopped, Failure, sink_stopped, Phase, returned, System, leave_loop, on_source,
  on_sink, on_parser, after_sources, after_parser, return_with, drain_sink, spawned, Step, Run,
}
use purple_wolf.Relay.Tasks.{
  Joined, finished, Task, done, is_finished, leave, finish, crash, OneActs, Joins, spawn_all,
}

program : Unit {0}
unfolding spawned leave_loop on_source on_sink on_parser after_sources after_parser return_with
    drain_sink spawn_all
program = tt

abbrev ended : System
ended = record {
  is_shut_down = false;
  sources = [];
  parser = done (finished ParserExit.sources_closed);
  sinks = [];
  ready = false;
  phase = returned;
  outcome = none;
  parser_finished = true;
  sources_exhausted = true;
}

-- The source stops, the parser sees its end, and the sink that of the parser.
ends_well : (storm : Bool) → Run storm (spawned 1 1) 11 ended
unfolding program
ends_well storm = Run-cons (Step.source_acts (OneActs.here (leave stopped tt))) (
    Run-cons (Step.source_acts (OneActs.here (finish stopped))) (
      Run-cons (Step.source_joined refl Joins.here) (
        Run-cons (Step.parser_acts (leave ParserExit.sources_closed tt)) (
          Run-cons (Step.parser_acts (finish ParserExit.sources_closed)) (
            Run-cons (Step.parser_joined refl refl) (
              Run-cons (Step.sources_drained refl refl) (
                Run-cons (Step.sink_acts (OneActs.here (leave tt (inr refl)))) (
                  Run-cons (Step.sink_acts (OneActs.here (finish tt))) (
                    Run-cons (Step.sink_drained refl Joins.here)
                      (Run-cons (Step.sinks_drained refl refl) Run.here))))))))))

-- The parser panics while a source and a sink run.
abbrev crashed : System
unfolding program
crashed = record (spawned 1 1) { parser = done Joined.panicked }

crashes : Run true (spawned 1 1) 1 crashed
unfolding program crashed
crashes = Run-cons (Step.parser_acts (crash refl)) Run.here

supervise-returns_example : (1 ≤ 4 * (1 + 1) + 12) × CanReturn crashed
supervise-returns_example = supervise-returns 1 1 1 crashed crashes

-- Then the loop is left with an error, and the others are aborted.
reported : on_parser Joined.panicked crashed ≡ record crashed {
  ready = false;
  phase = Phase.draining_sources none;
  outcome = some Failure.parser_join;
  parser_finished = true;
  sources = Task.aborting ∷ [];
  sinks = Task.aborting ∷ [];
}
unfolding program crashed
reported = refl

returned-ok_example :
    (went_wrong (spawned 1 1) ≡ false)
    × (ended.sources ≡ [])
    × (ended.sinks ≡ [])
    × (is_finished ended.parser ≡ true)
returned-ok_example = returned-ok 1 1 0 11 (spawned 1 1) ended Run.here (ends_well true) refl refl

calm-sink_race_example :
    ((k : ℕ) (s : System)
      → Run false (spawned 1 1) k s
      → (s.outcome ≡ none) ⊎ (s.outcome ≡ some sink_stopped))
    × (k : ℕ) × (t : System) × Run false (spawned 1 1) k t
    × (t.phase ≡ returned)
    × (t.outcome ≡ some sink_stopped)
calm-sink_race_example = calm-sink_race 1 0
