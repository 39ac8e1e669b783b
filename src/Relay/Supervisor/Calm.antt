-- ===== src/Relay/Supervisor/Calm.antt =====
-- Runs of the supervisor in which nothing goes wrong outside it.
use purple_wolf.Prelude.{
  ℕ, Bool, false, ◌||◌, ◌≡◌, inl, inr, refl, ap, ◌⊎◌, [], Option, none, some, Bool-cases,
  Option-cases, arith,
}
use purple_wolf.Relay.Tasks.{Joined, done, is_finished, abort_all}
use purple_wolf.Relay.Tasks.Faults.{
  bad_end, Joins-any_bad, abort-went_bad, abort_all-any_bad, Acts-went_well, OneActs-any_well,
  end_aborted, was_aborted, any_aborted, Acts-was_aborted, OneActs-any_aborted, Joins-any_aborted,
  spawn_all-any_aborted, spawn_all-any_bad,
}
use purple_wolf.Relay.Supervisor.Ends.{phases_left}
use purple_wolf.Relay.Supervisor.Shape.{Shape, Run-Shape, spawned-Shape}
use purple_wolf.Relay.Supervisor.Known.{
  never, is_failed, went_wrong, pending, Known, Run-Known, spawned-Known,
}
use purple_wolf.Relay.Supervisor.{
  ParserExit, SourceEnd, stopped, failed, Failure, sink_stopped, supervising, draining_sources,
  awaiting_parser, System, leave_loop, on_source, on_sink, on_parser, first, drain_error,
  parser_error, after_sources, after_parser, return_with, drain_sink, spawned, MayEnd, Step, Run,
}

-- Whether a task has been aborted.
abbrev meddled : System → Bool
meddled s = any_aborted s.sources || (was_aborted s.parser || any_aborted s.sinks)

-- No error but that of a sink that stopped.
abbrev Blameless : Option Failure → Type 0
Blameless none = Unit
Blameless (some f) = f ≡ sink_stopped

record Calm (s : System) : Type 0 where
  healthy : went_wrong s ≡ false
  quiet : pending s.phase ≡ false
  blameless : Blameless s.outcome
  free : s.outcome ≡ none → meddled s ≡ false

leave_loop-Calm :
    (o : Option Failure) {s : System}
    → Calm s
    → s.outcome ≡ none
    → Blameless o
    → Calm (leave_loop o s)
unfolding leave_loop
leave_loop-Calm none h e b = ground arith
leave_loop-Calm (some f) {s} h e b = ground (
  arith,
  abort_all-any_bad is_failed s.sources,
  abort_all-any_bad never s.sinks,
  abort-went_bad never s.parser,
)

on_source-Calm :
    (j : Joined SourceEnd) {s : System}
    → Calm s
    → s.outcome ≡ none
    → bad_end is_failed j ≡ false
    → end_aborted j ≡ false
    → Calm (on_source j s)
unfolding on_source
on_source-Calm (Joined.finished stopped) h e w f = h
on_source-Calm (Joined.finished (failed x)) h e w f = cc
on_source-Calm Joined.cancelled h e w f = cc
on_source-Calm Joined.panicked h e w f = cc

on_sink-Calm :
    (j : Joined (Unit {0})) {s : System}
    → Calm s
    → s.outcome ≡ none
    → bad_end never j ≡ false
    → end_aborted j ≡ false
    → Calm (on_sink j s)
unfolding on_sink
on_sink-Calm (Joined.finished u) {s} h e w f = elim (Bool-cases (is_finished s.parser)) [
  | inl d ↦ rw d h
  | inr d ↦ rw d (leave_loop-Calm (some sink_stopped) h e refl)
]
on_sink-Calm Joined.cancelled h e w f = cc
on_sink-Calm Joined.panicked h e w f = cc

on_parser-Calm :
    (j : Joined ParserExit) {s : System}
    → Calm s
    → s.outcome ≡ none
    → s.phase ≡ supervising
    → s.parser ≡ done j
    → Calm (on_parser j s)
unfolding on_parser leave_loop
on_parser-Calm (Joined.finished x) h e p d = ground arith
on_parser-Calm Joined.cancelled h e p d = absurd (ground arith)
on_parser-Calm Joined.panicked h e p d = absurd (ground arith)

MayEnd-well : (a : SourceEnd) → MayEnd false a → is_failed a ≡ false
MayEnd-well stopped p = refl
MayEnd-well (failed e) p = cc

drained-quiet :
    (j : Joined SourceEnd) (e : Option Failure)
    → bad_end is_failed j ≡ false
    → pending (draining_sources e) ≡ false
    → pending (draining_sources (first e (drain_error j))) ≡ false
unfolding drain_error
drained-quiet (Joined.finished stopped) none w q = refl
drained-quiet (Joined.finished (failed x)) none w q = cc
drained-quiet Joined.cancelled none w q = refl
drained-quiet Joined.panicked none w q = cc
drained-quiet j (some f) w q = cc

after_sources-Calm :
    (e : Option Failure) {s : System}
    → s.phase ≡ draining_sources e
    → Calm s
    → Calm (after_sources e s)
unfolding after_sources
after_sources-Calm none e h = ground arith
after_sources-Calm (some f) e h = absurd (ground arith)

after_parser-Calm :
    (j : Joined ParserExit) {s : System}
    → s.phase ≡ awaiting_parser
    → s.parser ≡ done j
    → Calm s
    → Calm (after_parser (parser_error j) s)
unfolding after_parser parser_error
after_parser-Calm (Joined.finished x) e d h = ground arith
after_parser-Calm Joined.cancelled {s} e d h = elim (Option-cases s.outcome) [
  | inl n ↦ absurd (ground arith)
  | inr (f, n) ↦ ground arith
]
after_parser-Calm Joined.panicked e d h = absurd (ground arith)

drain_sink-Calm :
    (j : Joined (Unit {0})) {s : System} → bad_end never j ≡ false → Calm s → Calm (drain_sink j s)
unfolding drain_sink
drain_sink-Calm (Joined.finished u) w h = h
drain_sink-Calm Joined.cancelled w h = h
drain_sink-Calm Joined.panicked w h = cc

return_with-Calm : {s : System} → s.sinks ≡ [] → Calm s → Calm (return_with none s)
unfolding return_with abort_all
return_with-Calm n h = ground (arith, ap abort_all n)

Step-Calm : {s t : System} → Step false s t → Shape s → Known s → Calm s → Calm t
Step-Calm (Step.shut_down b e) g k h = cc
Step-Calm (Step.source_acts a) g k h =
    ground (arith, OneActs-any_well is_failed MayEnd-well a, OneActs-any_aborted a)
Step-Calm (Step.parser_acts a) g k h =
    ground (arith, Acts-went_well never (λ x p. refl) a, Acts-was_aborted a)
Step-Calm (Step.sink_acts a) g k h =
    ground (arith, OneActs-any_well never (λ x p. refl) a, OneActs-any_aborted a)
Step-Calm (Step.see_shutdown e d) g k h =
    leave_loop-Calm none h (k.fresh_outcome (ap phases_left e)) tt
Step-Calm {s} (Step.source_joined {j} e o) g k h =
    let n = k.fresh_outcome (ap phases_left e) in
    let b = Joins-any_bad is_failed o in
    let a = Joins-any_aborted o in on_source-Calm j (ground arith) n (ground arith) (ground arith)
Step-Calm {s} (Step.sink_joined {j} {ts} e o) g k h =
    let n = k.fresh_outcome (ap phases_left e) in
    let b = Joins-any_bad never o in
    let a = Joins-any_aborted o in on_sink-Calm j (ground arith) n (ground arith) (ground arith)
Step-Calm (Step.parser_joined {j} e o) g k h =
    on_parser-Calm j h (k.fresh_outcome (ap phases_left e)) e o
Step-Calm {s} (Step.source_drained {j} {e = f} e o) g k h =
    let b = Joins-any_bad is_failed o in
    let a = Joins-any_aborted o in ground (arith, drained-quiet j f)
Step-Calm {s} (Step.sources_drained {e = f} e n) g k h = after_sources-Calm f e h
Step-Calm (Step.sources_time_out b e) g k h = cc
Step-Calm {s} (Step.source_swept e o) g k h = absurd (ground arith)
Step-Calm {s} (Step.sources_swept e n) g k h = absurd (ground arith)
Step-Calm {s} (Step.parser_awaited {j} e d) g k h = after_parser-Calm j e d h
Step-Calm {s} (Step.parser_time_out b e) g k h = cc
Step-Calm {s} (Step.parser_reaped e d) g k h = absurd (ground arith)
Step-Calm (Step.sink_drained {j} e o) g k h =
    let b = Joins-any_bad never o in
    let a = Joins-any_aborted o in drain_sink-Calm j (ground arith) (ground arith)
Step-Calm {s} (Step.sinks_drained e n) g k h = return_with-Calm n h
Step-Calm (Step.sinks_time_out b e _) g k h = cc
Step-Calm (Step.sink_swept e o) g k h = absurd (ground arith)
Step-Calm {s} (Step.sinks_swept e n) g k h = absurd (ground arith)

spawned-Calm : (n m : ℕ) → Calm (spawned n m)
unfolding spawned
spawned-Calm n m = ground (
  arith,
  spawn_all-any_bad is_failed n,
  spawn_all-any_bad (never {A = Unit {0}}) m,
  spawn_all-any_aborted SourceEnd n,
  spawn_all-any_aborted (Unit {0}) m,
)

Run-Calm : {s t : System} {n : ℕ} → Run false s n t → Shape s → Known s → Calm s → Calm t
Run-Calm Run.here g k h = h
Run-Calm (Run.later r st) g k h = Step-Calm st (Run-Shape r g) (Run-Known r g k) (Run-Calm r g k h)

Blameless-cases : (o : Option Failure) → Blameless o → (o ≡ none) ⊎ (o ≡ some sink_stopped)
Blameless-cases none b = inl refl
Blameless-cases (some f) b = inr (ap some b)

-- As long as no source fails, no task panics, no time limit passes and no shutdown is asked for, there is no
-- error in the outcome but that a sink stopped while the parser was active.
pub calm-outcome :
    (n m k : ℕ) (s : System)
    → Run false (spawned n m) k s
    → (s.outcome ≡ none) ⊎ (s.outcome ≡ some sink_stopped)
calm-outcome n m k s r =
    let c = Run-Calm r (spawned-Shape n m) (spawned-Known n m) (spawned-Calm n m) in
    Blameless-cases s.outcome c.blameless
