-- ===== src/Relay/Supervisor/Ends.antt =====
-- Every run of the supervisor ends: no step can be taken for ever.
use purple_wolf.Prelude.{
  ℕ, suc, ◌+◌, ◌-◌, ◌≤◌, ◌<◌, Bool, true, false, ◌≡◌, ap, Option, none, some, arith,
}
use purple_wolf.Relay.Tasks.{Joined}
use purple_wolf.Relay.Tasks.Weights.{
  weight, weights, abort-weight, abort_all-weights, Acts-weight, OneActs-weights, Joins-weights,
}
use purple_wolf.Relay.Supervisor.{
  ParserExit, SourceEnd, stopped, failed, Failure, Phase, supervising, draining_sources,
  sweeping_sources, awaiting_parser, reaping_parser, draining_sinks, sweeping_sinks, returned,
  System, leave_loop, on_source, on_sink, on_parser, after_sources, after_parser, return_with,
  drain_sink, Step, Run,
}

-- How many phases are still to come.
abbrev pub phases_left : Phase → ℕ
phases_left supervising = 7
phases_left (draining_sources e) = 6
phases_left sweeping_sources = 5
phases_left awaiting_parser = 4
phases_left reaping_parser = 3
phases_left draining_sinks = 2
phases_left sweeping_sinks = 1
phases_left returned = 0

abbrev unsent : Bool → ℕ
unsent true = 0
unsent false = 1

-- How many steps are left at most.
unfoldable pub measure : System → ℕ
measure s =
    weights s.sources
    + weight s.parser
    + weights s.sinks
    + phases_left s.phase
    + unsent s.is_shut_down

leave_loop-measure :
    (o : Option Failure) (s : System) → s.phase ≡ supervising → measure (leave_loop o s) < measure s
unfolding measure leave_loop
leave_loop-measure none s e = ground arith
leave_loop-measure (some f) s e =
    ground (arith, abort_all-weights s.sources, abort_all-weights s.sinks, abort-weight s.parser)

on_source-measure :
    (j : Joined SourceEnd) (s : System)
    → s.phase ≡ supervising
    → measure (on_source j s) ≤ measure s
unfolding on_source
on_source-measure (Joined.finished stopped) s e = omega arith
on_source-measure (Joined.finished (failed x)) s e =
    omega (arith, leave_loop-measure (some (Failure.source_failed x)) s e)
on_source-measure Joined.cancelled s e =
    omega (arith, leave_loop-measure (some Failure.source_join) s e)
on_source-measure Joined.panicked s e =
    omega (arith, leave_loop-measure (some Failure.source_join) s e)

on_sink-measure :
    (j : Joined (Unit {0})) (s : System) → s.phase ≡ supervising → measure (on_sink j s) ≤ measure s
unfolding on_sink
on_sink-measure (Joined.finished u) s e =
    ground (arith, leave_loop-measure (some Failure.sink_stopped) s e)
on_sink-measure Joined.cancelled s e =
    omega (arith, leave_loop-measure (some Failure.sink_join) s e)
on_sink-measure Joined.panicked s e = omega (arith, leave_loop-measure (some Failure.sink_join) s e)

on_parser-measure :
    (j : Joined ParserExit) (s : System)
    → s.phase ≡ supervising
    → measure (on_parser j s) < measure s
unfolding on_parser measure
on_parser-measure (Joined.finished x) s e = omega (arith, ap phases_left e)
on_parser-measure Joined.cancelled s e =
    omega
      (arith, leave_loop-measure (some Failure.parser_join) (record s { parser_finished = true }) e)
on_parser-measure Joined.panicked s e =
    omega
      (arith, leave_loop-measure (some Failure.parser_join) (record s { parser_finished = true }) e)

return_with-measure :
    (o : Option Failure) (s : System)
    → phases_left s.phase ≡ suc (phases_left s.phase - 1)
    → measure (return_with o s) < measure s
unfolding measure return_with
return_with-measure o s e = ground (arith, abort_all-weights s.sinks)

drain_sink-measure :
    (j : Joined (Unit {0})) (s : System)
    → s.phase ≡ draining_sinks
    → measure (drain_sink j s) ≤ measure s
unfolding drain_sink
drain_sink-measure (Joined.finished u) s e = omega arith
drain_sink-measure Joined.cancelled s e = omega arith
drain_sink-measure Joined.panicked s e =
    omega (arith, return_with-measure (some Failure.sink_join) s (omega (arith, ap phases_left e)))

after_sources-measure :
    (o : Option Failure) (s : System)
    → 5 ≤ phases_left s.phase
    → measure (after_sources o s) < measure s
unfolding measure after_sources
after_sources-measure o s e = ground arith

after_parser-measure :
    (o : Option Failure) (s : System)
    → 3 ≤ phases_left s.phase
    → measure (after_parser o s) < measure s
unfolding measure after_parser
after_parser-measure o s e = omega arith

pub Step-measure : {storm : Bool} {s t : System} → Step storm s t → measure t < measure s
unfolding measure
Step-measure (Step.shut_down _ e) = omega (arith, ap unsent e)
Step-measure (Step.source_acts a) = omega (arith, OneActs-weights a)
Step-measure (Step.parser_acts a) = omega (arith, Acts-weight a)
Step-measure (Step.sink_acts a) = omega (arith, OneActs-weights a)
Step-measure {s} (Step.see_shutdown e d) = unfold measure in leave_loop-measure none s e
Step-measure {s} (Step.source_joined {j} {ts} e o) =
    omega (arith, on_source-measure j (record s { sources = ts }) e, Joins-weights o)
Step-measure {s} (Step.sink_joined {j} {ts} e o) =
    omega (arith, on_sink-measure j (record s { sinks = ts }) e, Joins-weights o)
Step-measure {s} (Step.parser_joined {j} e o) = on_parser-measure j s e
Step-measure (Step.source_drained e o) = omega (arith, Joins-weights o, ap phases_left e)
Step-measure {s} (Step.sources_drained {e = o} e n) =
    after_sources-measure o s (omega (arith, ap phases_left e))
Step-measure {s} (Step.sources_time_out _ e) =
    omega (arith, abort_all-weights s.sources, ap phases_left e)
Step-measure (Step.source_swept e o) = omega (arith, Joins-weights o)
Step-measure {s} (Step.sources_swept e n) =
    after_sources-measure _ s (omega (arith, ap phases_left e))
Step-measure {s} (Step.parser_awaited e d) =
    after_parser-measure _ s (omega (arith, ap phases_left e))
Step-measure {s} (Step.parser_time_out _ e) = omega (arith, abort-weight s.parser, ap phases_left e)
Step-measure {s} (Step.parser_reaped e d) =
    after_parser-measure _ s (omega (arith, ap phases_left e))
Step-measure {s} (Step.sink_drained {j} {ts} e o) =
    omega (arith, drain_sink-measure j (record s { sinks = ts }) e, Joins-weights o)
Step-measure {s} (Step.sinks_drained e n) =
    return_with-measure none s (omega (arith, ap phases_left e))
Step-measure {s} (Step.sinks_time_out _ e _) =
    omega (arith, abort_all-weights s.sinks, ap phases_left e)
Step-measure (Step.sink_swept e o) = omega (arith, Joins-weights o)
Step-measure {s} (Step.sinks_swept e n) = return_with-measure _ s (omega (arith, ap phases_left e))

pub Run-measure :
    {storm : Bool} {s t : System} {n : ℕ} → Run storm s n t → n + measure t ≤ measure s
Run-measure Run.here = omega arith
Run-measure (Run.later r st) = omega (arith, Run-measure r, Step-measure st)
