-- ===== src/Relay/Supervisor/Shape.antt =====
-- What holds of the tasks in each phase of the supervisor.
use purple_wolf.Prelude.{
  ℕ, ◌≤◌, Bool, true, ◌≡◌, ap, [], Option, none, some, Bool-cases, inl, inr, arith,
}
use purple_wolf.Relay.Tasks.{Joined, done, is_finished, abort, abort_all}
use purple_wolf.Relay.Tasks.Stops.{
  OneActs-nil, Joins-nil, Acts-is_finished, abort-is_finished, AllStopped, abort_all-AllStopped,
  OneActs-AllStopped,
}
use purple_wolf.Relay.Supervisor.Ends.{phases_left}
use purple_wolf.Relay.Supervisor.{
  ParserExit, SourceEnd, stopped, failed, Failure, supervising, draining_sinks, System, leave_loop,
  on_source, on_sink, on_parser, after_sources, after_parser, return_with, drain_sink, fail,
  fail_with, spawned, Step, Run,
}

pub record Shape (s : System) : Type 0 where
  pub past_sources : phases_left s.phase ≤ 4 → s.sources ≡ []
  pub past_parser : phases_left s.phase ≤ 2 → is_finished s.parser ≡ true
  pub joined : s.parser_finished ≡ true → is_finished s.parser ≡ true
  pub not_left : phases_left s.phase ≡ 0 → AllStopped s.sinks
  pub clean : phases_left s.phase ≡ 0 → s.outcome ≡ none → s.sinks ≡ []

leave_loop-Shape : (o : Option Failure) {s : System} → Shape s → Shape (leave_loop o s)
unfolding leave_loop abort
leave_loop-Shape none h = ground arith
leave_loop-Shape (some f) h = ground arith

fail-ne : (o : Option Failure) (e : Failure) {P : Type 0} → fail o e ≡ none → P
fail-ne none e h = cc
fail-ne (some f) e h = cc

on_source-Shape : (j : Joined SourceEnd) {s : System} → Shape s → Shape (on_source j s)
unfolding on_source
on_source-Shape (Joined.finished stopped) h = h
on_source-Shape (Joined.finished (failed e)) h = leave_loop-Shape (some (Failure.source_failed e)) h
on_source-Shape Joined.cancelled h = leave_loop-Shape (some Failure.source_join) h
on_source-Shape Joined.panicked h = leave_loop-Shape (some Failure.source_join) h

on_sink-Shape : (j : Joined (Unit {0})) {s : System} → Shape s → Shape (on_sink j s)
unfolding on_sink
on_sink-Shape (Joined.finished u) {s} h = elim (Bool-cases (is_finished s.parser)) [
  | inl e ↦ rw e h
  | inr e ↦ rw e (leave_loop-Shape (some Failure.sink_stopped) h)
]
on_sink-Shape Joined.cancelled h = leave_loop-Shape (some Failure.sink_join) h
on_sink-Shape Joined.panicked h = leave_loop-Shape (some Failure.sink_join) h

on_parser-Shape :
    (j : Joined ParserExit) {s : System}
    → s.phase ≡ supervising
    → s.parser ≡ done j
    → Shape s
    → Shape (on_parser j s)
unfolding on_parser leave_loop
on_parser-Shape (Joined.finished x) p e h = ground (arith, ap phases_left p)
on_parser-Shape Joined.cancelled p e h = ground (arith, ap phases_left p)
on_parser-Shape Joined.panicked p e h = ground (arith, ap phases_left p)

return_with-Shape :
    (o : Option Failure) {s : System}
    → phases_left s.phase ≤ 2
    → (fail_with s.outcome o ≡ none → s.sinks ≡ [])
    → Shape s
    → Shape (return_with o s)
unfolding return_with abort_all
return_with-Shape o {s} p n h = record {
  past_sources = λ _. h.past_sources (omega arith);
  past_parser = λ _. h.past_parser p;
  joined = h.joined;
  not_left = λ _. abort_all-AllStopped s.sinks;
  clean = λ _ ok. ap abort_all (n ok);
}

drain_sink-Shape :
    (j : Joined (Unit {0})) {s : System}
    → s.phase ≡ draining_sinks
    → Shape s
    → Shape (drain_sink j s)
unfolding drain_sink
drain_sink-Shape (Joined.finished u) p h = h
drain_sink-Shape Joined.cancelled p h = h
drain_sink-Shape Joined.panicked {s} p h =
    return_with-Shape (some Failure.sink_join) (omega (arith, ap phases_left p))
      (fail-ne s.outcome Failure.sink_join) h

after_sources-Shape :
    (o : Option Failure) {s : System} → s.sources ≡ [] → Shape s → Shape (after_sources o s)
unfolding after_sources
after_sources-Shape o n h = ground arith

after_parser-Shape :
    (o : Option Failure) {s : System} {j : Joined ParserExit}
    → phases_left s.phase ≤ 4
    → s.parser ≡ done j
    → Shape s
    → Shape (after_parser o s)
unfolding after_parser
after_parser-Shape o p e h = ground arith

pub Step-Shape : {storm : Bool} {s t : System} → Step storm s t → Shape s → Shape t
Step-Shape (Step.shut_down _ e) h = ground arith
Step-Shape (Step.source_acts a) h = ground (arith, OneActs-nil a)
Step-Shape (Step.parser_acts a) h = ground (arith, Acts-is_finished a)
Step-Shape (Step.sink_acts a) h = ground (arith, OneActs-nil a, OneActs-AllStopped a)
Step-Shape (Step.see_shutdown e d) h = leave_loop-Shape none h
Step-Shape (Step.source_joined {j} e o) h = on_source-Shape j (ground (arith, Joins-nil o))
Step-Shape (Step.sink_joined {j} {ts} e o) h = on_sink-Shape j (ground (arith, ap phases_left e))
Step-Shape (Step.parser_joined {j} e o) h = on_parser-Shape j e o h
Step-Shape (Step.source_drained e o) h = ground (arith, Joins-nil o)
Step-Shape (Step.sources_drained e n) h = after_sources-Shape _ n h
Step-Shape (Step.sources_time_out _ e) h = ground arith
Step-Shape (Step.source_swept e o) h = ground (arith, Joins-nil o)
Step-Shape (Step.sources_swept e n) h = after_sources-Shape _ n h
Step-Shape (Step.parser_awaited e d) h = after_parser-Shape _ (omega (arith, ap phases_left e)) d h
Step-Shape {s} (Step.parser_time_out _ e) h =
    ground (arith, abort-is_finished s.parser, ap phases_left e)
Step-Shape (Step.parser_reaped e d) h = after_parser-Shape _ (omega (arith, ap phases_left e)) d h
Step-Shape (Step.sink_drained {j} e o) h = drain_sink-Shape j e (ground (arith, ap phases_left e))
Step-Shape (Step.sinks_drained e n) h =
    return_with-Shape none (omega (arith, ap phases_left e)) (λ _. n) h
Step-Shape (Step.sinks_time_out _ e _) h = ground (arith, ap phases_left e)
Step-Shape (Step.sink_swept e o) h = ground (arith, ap phases_left e)
Step-Shape (Step.sinks_swept e n) h =
    return_with-Shape _ (omega (arith, ap phases_left e)) (λ _. n) h

pub Run-Shape : {storm : Bool} {s t : System} {n : ℕ} → Run storm s n t → Shape s → Shape t
Run-Shape Run.here h = h
Run-Shape (Run.later r st) h = Step-Shape st (Run-Shape r h)

pub spawned-Shape : (n m : ℕ) → Shape (spawned n m)
unfolding spawned
spawned-Shape n m = ground arith
