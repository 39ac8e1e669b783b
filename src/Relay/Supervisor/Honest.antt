-- ===== src/Relay/Supervisor/Honest.antt =====
-- What an `Ok` of the supervisor means.
use purple_wolf.Prelude.{
  ℕ, Bool, true, false, ◌||◌, ◌≡◌, inl, inr, ap, [], Option, none, some, Bool-cases, arith,
}
use purple_wolf.Relay.Tasks.{Joined, is_finished}
use purple_wolf.Relay.Tasks.Faults.{
  bad_end, any_bad, Acts-went_bad, OneActs-any_bad, Joins-any_bad, abort_all-any_bad,
}
use purple_wolf.Relay.Supervisor.Ends.{phases_left}
use purple_wolf.Relay.Supervisor.Shape.{Shape, Run-Shape, spawned-Shape}
use purple_wolf.Relay.Supervisor.{
  ParserExit, SourceEnd, stopped, failed, Failure, supervising, draining_sinks, returned, System,
  leave_loop, on_source, on_sink, on_parser, is_closed, drain_error, after_sources, after_parser,
  return_with, drain_sink, spawned, Step, Run,
}
use purple_wolf.Relay.Supervisor.Known.{
  never, is_failed, went_wrong, is_err, trouble, fail_with-is_err, first-is_err, drain_error-is_err,
  Known, spawned-Known, Run-Known,
}

leave_loop-trouble :
    (o : Option Failure) (s : System)
    → s.outcome ≡ none
    → s.phase ≡ supervising
    → (trouble s || is_err o) ≡ true
    → trouble (leave_loop o s) ≡ true
unfolding leave_loop
leave_loop-trouble none s e p h = ground arith
leave_loop-trouble (some f) s e p h = ground arith

on_source-trouble :
    (j : Joined SourceEnd) (s : System)
    → s.outcome ≡ none
    → s.phase ≡ supervising
    → (trouble s || bad_end is_failed j) ≡ true
    → trouble (on_source j s) ≡ true
unfolding on_source
on_source-trouble (Joined.finished stopped) s e p h = ground arith
on_source-trouble (Joined.finished (failed x)) s e p h =
    leave_loop-trouble (some (Failure.source_failed x)) s e p (ground arith)
on_source-trouble Joined.cancelled s e p h =
    leave_loop-trouble (some Failure.source_join) s e p (ground arith)
on_source-trouble Joined.panicked s e p h =
    leave_loop-trouble (some Failure.source_join) s e p (ground arith)

on_sink-trouble :
    (j : Joined (Unit {0})) (s : System)
    → s.outcome ≡ none
    → s.phase ≡ supervising
    → (trouble s || bad_end never j) ≡ true
    → trouble (on_sink j s) ≡ true
unfolding on_sink
on_sink-trouble (Joined.finished u) s e p h = elim (Bool-cases (is_finished s.parser)) [
  | inl d ↦ rw d (ground arith)
  | inr d ↦ rw d (leave_loop-trouble (some Failure.sink_stopped) s e p (ground arith))
]
on_sink-trouble Joined.cancelled s e p h =
    leave_loop-trouble (some Failure.sink_join) s e p (ground arith)
on_sink-trouble Joined.panicked s e p h =
    leave_loop-trouble (some Failure.sink_join) s e p (ground arith)

on_parser-trouble :
    (j : Joined ParserExit) (s : System)
    → s.outcome ≡ none
    → s.phase ≡ supervising
    → trouble s ≡ true
    → trouble (on_parser j s) ≡ true
unfolding on_parser
on_parser-trouble (Joined.finished x) s e p h =
    leave_loop-trouble none (record s { parser_finished = true; sources_exhausted = is_closed x }) e
      p (ground arith)
on_parser-trouble Joined.cancelled s e p h =
    leave_loop-trouble (some Failure.parser_join) (record s { parser_finished = true }) e p
      (ground arith)
on_parser-trouble Joined.panicked s e p h =
    leave_loop-trouble (some Failure.parser_join) (record s { parser_finished = true }) e p
      (ground arith)

return_with-trouble :
    (o : Option Failure) (s : System)
    → (went_wrong s || (is_err s.outcome || is_err o)) ≡ true
    → trouble (return_with o s) ≡ true
unfolding return_with
return_with-trouble o s h =
    ground (arith, fail_with-is_err s.outcome o, abort_all-any_bad never s.sinks)

drain_sink-trouble :
    (j : Joined (Unit {0})) (s : System)
    → s.phase ≡ draining_sinks
    → (trouble s || bad_end never j) ≡ true
    → trouble (drain_sink j s) ≡ true
unfolding drain_sink
drain_sink-trouble (Joined.finished u) s p h = ground arith
drain_sink-trouble Joined.cancelled s p h = ground arith
drain_sink-trouble Joined.panicked s p h =
    return_with-trouble (some Failure.sink_join) s (ground arith)

after_sources-trouble :
    (o : Option Failure) (s : System)
    → (went_wrong s || (is_err s.outcome || is_err o)) ≡ true
    → trouble (after_sources o s) ≡ true
unfolding after_sources
after_sources-trouble o s h = ground (arith, fail_with-is_err s.outcome o)

after_parser-trouble :
    (o : Option Failure) (s : System)
    → (went_wrong s || (is_err s.outcome || is_err o)) ≡ true
    → trouble (after_parser o s) ≡ true
unfolding after_parser
after_parser-trouble o s h = ground (arith, fail_with-is_err s.outcome o)

-- What has gone wrong is not forgotten.
Step-trouble :
    {storm : Bool} {s t : System} → Step storm s t → Known s → trouble s ≡ true → trouble t ≡ true
Step-trouble (Step.shut_down _ e) k h = h
Step-trouble (Step.source_acts a) k h = ground (arith, OneActs-any_bad is_failed a)
Step-trouble (Step.parser_acts a) k h = ground (arith, Acts-went_bad never a)
Step-trouble (Step.sink_acts a) k h = ground (arith, OneActs-any_bad never a)
Step-trouble {s} (Step.see_shutdown e d) k h =
    leave_loop-trouble none s (k.fresh_outcome (ap phases_left e)) e (ground arith)
Step-trouble (Step.source_joined {j} e o) k h =
    on_source-trouble j _ (k.fresh_outcome (ap phases_left e)) e
      (ground (arith, Joins-any_bad is_failed o))
Step-trouble (Step.sink_joined {j} {ts} e o) k h =
    on_sink-trouble j _ (k.fresh_outcome (ap phases_left e)) e
      (ground (arith, Joins-any_bad never o))
Step-trouble {s} (Step.parser_joined {j} e o) k h =
    on_parser-trouble j s (k.fresh_outcome (ap phases_left e)) e h
Step-trouble (Step.source_drained {j} {e = f} e o) k h =
    ground (arith, Joins-any_bad is_failed o, first-is_err f (drain_error j), drain_error-is_err j)
Step-trouble {s} (Step.sources_drained {e = f} e n) k h = after_sources-trouble f s (ground arith)
Step-trouble (Step.sources_time_out _ e) k h = ground arith
Step-trouble (Step.source_swept e o) k h = ground arith
Step-trouble {s} (Step.sources_swept e n) k h = after_sources-trouble _ s (ground arith)
Step-trouble {s} (Step.parser_awaited {j} e d) k h = after_parser-trouble _ s (ground arith)
Step-trouble {s} (Step.parser_time_out _ e) k h = ground arith
Step-trouble {s} (Step.parser_reaped e d) k h = after_parser-trouble _ s (ground arith)
Step-trouble (Step.sink_drained {j} e o) k h =
    drain_sink-trouble j _ e (ground (arith, Joins-any_bad never o))
Step-trouble {s} (Step.sinks_drained e n) k h = return_with-trouble none s (ground arith)
Step-trouble (Step.sinks_time_out _ e _) k h = ground arith
Step-trouble (Step.sink_swept e o) k h = ground arith
Step-trouble {s} (Step.sinks_swept e n) k h = return_with-trouble _ s (ground arith)

Run-trouble :
    {storm : Bool} {s t : System} {n : ℕ}
    → Run storm s n t
    → Shape s
    → Known s
    → trouble s ≡ true
    → trouble t ≡ true
Run-trouble Run.here g k h = h
Run-trouble (Run.later r st) g k h = Step-trouble st (Run-Known r g k) (Run-trouble r g k h)

settled :
    (s : System) → Shape s → Known s → s.phase ≡ returned → s.outcome ≡ none → trouble s ≡ false
unfolding any_bad
settled s g k e ok =
    let n = g.past_sources (omega (arith, ap phases_left e)) in
    let m = g.clean (omega (arith, ap phases_left e)) ok in
    let late = k.late (omega (arith, ap phases_left e)) in ground arith

-- When the supervisor has returned without an error, every source and every sink has been joined and the
-- parser is finished, and at no moment of the run had a source failed or a task panicked: no error is lost,
-- whenever it came and whatever else came with it.
pub returned-ok :
    (n m k l : ℕ) (t s : System)
    → Run true (spawned n m) k t
    → Run true t l s
    → s.phase ≡ returned
    → s.outcome ≡ none
    → (went_wrong t ≡ false) × (s.sources ≡ []) × (s.sinks ≡ []) × (is_finished s.parser ≡ true)
returned-ok n m k l t s r r' e ok =
    let g = Run-Shape r (spawned-Shape n m) in
    let h = Run-Known r (spawned-Shape n m) (spawned-Known n m) in
    let g' = Run-Shape r' g in
    let quiet = settled s g' (Run-Known r' g h) e ok in
    (
      elim (Bool-cases (went_wrong t)) [
        | inl bad ↦ absurd (ground (arith, Run-trouble r' g h (ground arith)))
        | inr fine ↦ fine
      ],
      g'.past_sources (omega (arith, ap phases_left e)),
      g'.clean (omega (arith, ap phases_left e)) ok,
      g'.past_parser (omega (arith, ap phases_left e)),
    )
