-- ===== src/Relay/Supervisor/Known.antt =====
-- What has gone wrong in a run of the supervisor, and what the outcome tells of the parser.
use purple_wolf.Prelude.{
  ℕ, ◌≤◌, Bool, true, false, ◌||◌, ◌≡◌, inl, inr, refl, ap, Option, none, some, subst, Bool-cases,
  arith,
}
use purple_wolf.Relay.Tasks.{Joined, done, is_finished}
use purple_wolf.Relay.Tasks.Faults.{bad_end, went_bad, any_bad, abort-went_bad}
use purple_wolf.Relay.Tasks.Stops.{Acts-is_finished}
use purple_wolf.Relay.Supervisor.Ends.{phases_left}
use purple_wolf.Relay.Supervisor.Shape.{Shape, Run-Shape}
use purple_wolf.Relay.Supervisor.{
  ParserExit, SourceEnd, stopped, failed, Failure, Phase, supervising, draining_sources,
  sweeping_sources, awaiting_parser, reaping_parser, draining_sinks, sweeping_sinks, returned,
  System, leave_loop, on_source, on_sink, on_parser, fail_with, first, drain_error, parser_error,
  after_sources, after_parser, return_with, drain_sink, spawned, Step, Run,
}

abbrev pub is_failed : SourceEnd → Bool
is_failed stopped = false
is_failed (failed e) = true

abbrev pub never {ℓ} : {A : Type ℓ} → A → Bool
never a = false

-- Some task has failed or panicked, and has not been joined or is the parser.
abbrev pub went_wrong : System → Bool
went_wrong s = any_bad is_failed s.sources || (went_bad never s.parser || any_bad never s.sinks)

abbrev pub is_err : Option Failure → Bool
is_err none = false
is_err (some e) = true

-- An error that is found but not yet in the outcome.
abbrev pub pending : Phase → Bool
pending supervising = false
pending (draining_sources e) = is_err e
pending sweeping_sources = true
pending awaiting_parser = false
pending reaping_parser = true
pending draining_sinks = false
pending sweeping_sinks = true
pending returned = false

abbrev pub trouble : System → Bool
trouble s = went_wrong s || (is_err s.outcome || pending s.phase)

pub fail_with-is_err : (o e : Option Failure) → is_err (fail_with o e) ≡ (is_err o || is_err e)
fail_with-is_err none none = refl
fail_with-is_err none (some e) = refl
fail_with-is_err (some f) none = refl
fail_with-is_err (some f) (some e) = refl

pub first-is_err : (o e : Option Failure) → is_err (first o e) ≡ (is_err o || is_err e)
first-is_err none e = refl
first-is_err (some f) e = refl

parser_error-is_err :
    (j : Joined ParserExit) → bad_end never j ≡ true → is_err (parser_error j) ≡ true
unfolding parser_error
parser_error-is_err (Joined.finished x) h = cc
parser_error-is_err Joined.cancelled h = refl
parser_error-is_err Joined.panicked h = refl

pub drain_error-is_err : (j : Joined SourceEnd) → bad_end is_failed j ≡ is_err (drain_error j)
unfolding drain_error
drain_error-is_err (Joined.finished stopped) = refl
drain_error-is_err (Joined.finished (failed e)) = refl
drain_error-is_err Joined.cancelled = refl
drain_error-is_err Joined.panicked = refl

-- What the supervisor knows of the parser.
pub record Known (s : System) : Type 0 where
  pub fresh_outcome : phases_left s.phase ≡ 7 → s.outcome ≡ none
  pub fresh_parser : phases_left s.phase ≡ 7 → s.parser_finished ≡ false
  pub joined : s.parser_finished ≡ true → went_bad never s.parser ≡ true → is_err s.outcome ≡ true
  pub late : phases_left s.phase ≤ 2 → went_bad never s.parser ≡ true → is_err s.outcome ≡ true

leave_loop-Known :
    (o : Option Failure) {s : System} → Known s → phases_left s.phase ≡ 7 → Known (leave_loop o s)
unfolding leave_loop
leave_loop-Known none h p = ground arith
leave_loop-Known (some f) h p = ground arith

on_parser-Known :
    (j : Joined ParserExit) {s : System}
    → s.phase ≡ supervising
    → s.parser ≡ done j
    → Known s
    → Known (on_parser j s)
unfolding on_parser leave_loop
on_parser-Known (Joined.finished x) p e h = ground arith
on_parser-Known Joined.cancelled p e h = ground arith
on_parser-Known Joined.panicked p e h = ground arith

on_source-Known :
    (j : Joined SourceEnd) {s : System} → phases_left s.phase ≡ 7 → Known s → Known (on_source j s)
unfolding on_source
on_source-Known (Joined.finished stopped) p h = h
on_source-Known (Joined.finished (failed e)) p h =
    leave_loop-Known (some (Failure.source_failed e)) h p
on_source-Known Joined.cancelled p h = leave_loop-Known (some Failure.source_join) h p
on_source-Known Joined.panicked p h = leave_loop-Known (some Failure.source_join) h p

on_sink-Known :
    (j : Joined (Unit {0})) {s : System} → phases_left s.phase ≡ 7 → Known s → Known (on_sink j s)
unfolding on_sink
on_sink-Known (Joined.finished u) {s} p h = elim (Bool-cases (is_finished s.parser)) [
  | inl e ↦ rw e h
  | inr e ↦ rw e (leave_loop-Known (some Failure.sink_stopped) h p)
]
on_sink-Known Joined.cancelled p h = leave_loop-Known (some Failure.sink_join) h p
on_sink-Known Joined.panicked p h = leave_loop-Known (some Failure.sink_join) h p

after_sources-Known : (o : Option Failure) {s : System} → Known s → Known (after_sources o s)
unfolding after_sources
after_sources-Known o {s} h = ground (arith, fail_with-is_err s.outcome o)

after_parser-Known :
    (o : Option Failure) {s : System}
    → Known s
    → (went_bad never s.parser ≡ true → is_err o ≡ true)
    → Known (after_parser o s)
unfolding after_parser
after_parser-Known o {s} h k = ground (arith, fail_with-is_err s.outcome o)

return_with-Known :
    (o : Option Failure) {s : System} → phases_left s.phase ≤ 2 → Known s → Known (return_with o s)
unfolding return_with
return_with-Known o {s} p h = ground (arith, fail_with-is_err s.outcome o)

drain_sink-Known :
    (j : Joined (Unit {0})) {s : System}
    → phases_left s.phase ≤ 2
    → Known s
    → Known (drain_sink j s)
unfolding drain_sink
drain_sink-Known (Joined.finished u) p h = h
drain_sink-Known Joined.cancelled p h = h
drain_sink-Known Joined.panicked p h = return_with-Known (some Failure.sink_join) p h

pub Step-Known : {storm : Bool} {s t : System} → Step storm s t → Shape s → Known s → Known t
Step-Known (Step.shut_down _ e) g h = ground arith
Step-Known (Step.source_acts a) g h = ground arith
Step-Known (Step.parser_acts a) g h = ground (arith, Acts-is_finished a)
Step-Known (Step.sink_acts a) g h = ground arith
Step-Known (Step.see_shutdown e d) g h = leave_loop-Known none h (ap phases_left e)
Step-Known (Step.source_joined {j} e o) g h = on_source-Known j (ap phases_left e) (ground arith)
Step-Known (Step.sink_joined {j} {ts} e o) g h = on_sink-Known j (ap phases_left e) (ground arith)
Step-Known (Step.parser_joined {j} e o) g h = on_parser-Known j e o h
Step-Known (Step.source_drained e o) g h = ground arith
Step-Known (Step.sources_drained e n) g h = after_sources-Known _ h
Step-Known (Step.sources_time_out _ e) g h = ground arith
Step-Known (Step.source_swept e o) g h = ground arith
Step-Known (Step.sources_swept e n) g h = after_sources-Known _ h
Step-Known (Step.parser_awaited {j} e d) g h =
    after_parser-Known (parser_error j) h
      (λ b. parser_error-is_err j (subst (λ t. went_bad never t ≡ true) d b))
Step-Known {s} (Step.parser_time_out _ e) g h =
    ground (arith, abort-went_bad never s.parser, ap phases_left e)
Step-Known (Step.parser_reaped e d) g h = after_parser-Known _ h (λ b. refl)
Step-Known (Step.sink_drained {j} e o) g h =
    drain_sink-Known j (omega (arith, ap phases_left e)) (ground arith)
Step-Known (Step.sinks_drained e n) g h = return_with-Known none (omega (arith, ap phases_left e)) h
Step-Known (Step.sinks_time_out _ e _) g h = ground (arith, ap phases_left e)
Step-Known (Step.sink_swept e o) g h = ground (arith, ap phases_left e)
Step-Known (Step.sinks_swept e n) g h = return_with-Known _ (omega (arith, ap phases_left e)) h

pub spawned-Known : (n m : ℕ) → Known (spawned n m)
unfolding spawned
spawned-Known n m = ground arith

pub Run-Known :
    {storm : Bool} {s t : System} {n : ℕ} → Run storm s n t → Shape s → Known s → Known t
Run-Known Run.here g k = k
Run-Known (Run.later r st) g k = Step-Known st (Run-Shape r g) (Run-Known r g k)
