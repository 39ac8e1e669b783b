-- ===== src/Relay/Supervisor/Race.antt =====
-- A race at the end of finite sources: the parser drops its senders before it is finished, and a sink that
-- sees them gone may be joined in between.
use purple_wolf.Prelude.{
  ℕ, zero, suc, Bool, false, ◌≡◌, ◌⊎◌, inr, refl, ap, Option, none, some, arith,
}
use purple_wolf.Relay.Tasks.{Joined, leaving, spawn_all, leave, finish, OneActs, Joins}
use purple_wolf.Relay.Supervisor.Calm.{calm-outcome}
use purple_wolf.Relay.Supervisor.Ends.{phases_left, measure}
use purple_wolf.Relay.Supervisor.Shape.{Shape, Run-Shape, spawned-Shape}
use purple_wolf.Relay.Supervisor.Known.{Known, Run-Known, spawned-Known}
use purple_wolf.Relay.Supervisor.Returns.{Run-cons, returns}
use purple_wolf.Relay.Supervisor.{
  ParserExit, stopped, Failure, sink_stopped, returned, System, leave_loop, on_source, on_sink,
  fail_with, after_sources, after_parser, return_with, drain_sink, spawned, Step, Run,
}

Run-append :
    {storm : Bool} {s t u : System} {n m : ℕ}
    → Run storm s n t
    → Run storm t m u
    → (k : ℕ) × Run storm s k u
Run-append r Run.here = (_, r)
Run-append r (Run.later r' st) = let (k, q) = Run-append r r' in (suc k, Run.later q st)

fail_with-some : (o e : Option Failure) {f : Failure} → o ≡ some f → fail_with o e ≡ some f
fail_with-some none e h = cc
fail_with-some (some f) none h = h
fail_with-some (some f) (some e) h = h

-- The first error stays.
Step-outcome :
    {storm : Bool} {s t : System} {f : Failure}
    → Step storm s t
    → s.outcome ≡ some f
    → (phases_left s.phase ≡ 7 → s.outcome ≡ none)
    → t.outcome ≡ some f
unfolding after_sources after_parser return_with drain_sink
Step-outcome (Step.shut_down _ e) h k = h
Step-outcome (Step.source_acts a) h k = h
Step-outcome (Step.parser_acts a) h k = h
Step-outcome (Step.sink_acts a) h k = h
Step-outcome (Step.see_shutdown e d) h k = absurd (ground (arith, ap phases_left e))
Step-outcome (Step.source_joined {j} e o) h k = absurd (ground (arith, ap phases_left e))
Step-outcome (Step.sink_joined {j} {ts} e o) h k = absurd (ground (arith, ap phases_left e))
Step-outcome (Step.parser_joined {j} e o) h k = absurd (ground (arith, ap phases_left e))
Step-outcome (Step.source_drained e o) h k = h
Step-outcome (Step.sources_drained {e = f} e n) h k = fail_with-some _ f h
Step-outcome (Step.sources_time_out _ e) h k = h
Step-outcome (Step.source_swept e o) h k = h
Step-outcome (Step.sources_swept e n) h k = fail_with-some _ (some Failure.sources_late) h
Step-outcome (Step.parser_awaited {j} e d) h k = fail_with-some _ _ h
Step-outcome (Step.parser_time_out _ e) h k = h
Step-outcome (Step.parser_reaped e d) h k = fail_with-some _ (some Failure.parser_late) h
Step-outcome (Step.sink_drained {j = Joined.finished u} e o) h k = h
Step-outcome (Step.sink_drained {j = Joined.cancelled} e o) h k = h
Step-outcome (Step.sink_drained {j = Joined.panicked} e o) h k =
    fail_with-some _ (some Failure.sink_join) h
Step-outcome (Step.sinks_drained e n) h k = h
Step-outcome (Step.sinks_time_out _ e _) h k = h
Step-outcome (Step.sink_swept e o) h k = h
Step-outcome (Step.sinks_swept e n) h k = fail_with-some _ (some Failure.sinks_late) h

Run-outcome :
    {storm : Bool} {s t : System} {n : ℕ} {f : Failure}
    → Run storm s n t
    → Shape s
    → Known s
    → s.outcome ≡ some f
    → t.outcome ≡ some f
Run-outcome Run.here g k h = h
Run-outcome (Run.later r st) g k h =
    let k' = Run-Known r g k in Step-outcome st (Run-outcome r g k h) k'.fresh_outcome

-- The sources stop one after the other, and are joined.
sources_stop : (n m : ℕ) → (k : ℕ) × Run false (spawned n m) k (spawned 0 m)
unfolding spawned on_source
sources_stop zero m = (0, Run.here)
sources_stop (suc n) m =
    let (k, r) = sources_stop n m in
    (
      suc (suc (suc k)),
      Run-cons (Step.source_acts (OneActs.here (leave stopped tt))) (
          Run-cons (Step.source_acts (OneActs.here (finish stopped)))
            (Run-cons (Step.source_joined refl Joins.here) r)),
    )

-- The parser has dropped its senders, and a sink has seen it and been joined before the parser is finished.
abbrev raced : ℕ → System
unfolding spawn_all leave_loop
raced m =
    leave_loop (some sink_stopped)
      (record (spawned 0 m) { parser = leaving ParserExit.sources_closed })

to_race : (m : ℕ) → (k : ℕ) × Run false (spawned 0 (suc m)) k (raced m)
unfolding spawned on_sink
to_race m = (
  4,
  Run-cons (Step.parser_acts (leave ParserExit.sources_closed tt)) (
      Run-cons (Step.sink_acts (OneActs.here (leave tt (inr refl)))) (
        Run-cons (Step.sink_acts (OneActs.here (finish tt)))
          (Run-cons (Step.sink_joined refl Joins.here) Run.here))),
)

raced-outcome : (m : ℕ) → (raced m).outcome ≡ some sink_stopped
unfolding leave_loop raced
raced-outcome m = refl

-- As long as no source fails, no task panics, no time limit passes and no shutdown is asked for, there is no
-- error in the outcome but that a sink stopped while the parser was active. With any sources and at least one
-- sink this error does come: in a run where every source stops by itself, and the sink is joined after the
-- parser has dropped its senders and before the runtime calls it finished.
pub calm-sink_race :
    (n m : ℕ)
    → ((k : ℕ) (s : System)
        → Run false (spawned n (suc m)) k s
        → (s.outcome ≡ none) ⊎ (s.outcome ≡ some sink_stopped))
      × (k : ℕ) × (t : System) × Run false (spawned n (suc m)) k t
      × (t.phase ≡ returned)
      × (t.outcome ≡ some sink_stopped)
calm-sink_race n m =
    let (i, r) = sources_stop n (suc m) in
    let (j, r') = to_race m in
    let (k, q) = Run-append r r' in
    let g = Run-Shape q (spawned-Shape n (suc m)) in
    let h = Run-Known q (spawned-Shape n (suc m)) (spawned-Known n (suc m)) in
    let (l, t, q', e) = returns (measure (raced m)) (raced m) (omega arith) g in
    let (total, whole) = Run-append q q' in
    (calm-outcome n (suc m), total, t, whole, e, Run-outcome q' g h (raced-outcome m))
