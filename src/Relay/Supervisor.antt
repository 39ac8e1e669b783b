-- ===== src/Relay/Supervisor.antt =====
-- The supervision of the tasks in `run` of crates/purple-wolf-relay/src/pipeline.rs, from the moment that
-- all of them are spawned, as a step relation. A branch of `select!` may be taken whenever its event is
-- there; that earlier branches are polled first rules out runs and adds none. `storm` permits what goes
-- wrong: a source that fails, a panic, a time limit that passes, and the signal to shut down.
pub mod Ends
pub mod Shape
pub mod Returns
pub mod Known
pub mod Honest
pub mod Race
pub mod Calm
mod Tests
use purple_wolf.Prelude.{
  ℕ, suc, Bool, true, false, ◌≡◌, ◌⊎◌, if◌then◌else◌, List, [], ◌∷◌, Option, none, some, All, Str,
}
use purple_wolf.Relay.Tasks.{
  Joined, Task, running, done, spawn_all, holds_channels, is_finished, abort, abort_all, Acts,
  OneActs, Joins,
}

pub data ParserExit : Type 0 where
  shutdown sources_closed : ParserExit

pub data SourceEnd : Type 0 where
  stopped : SourceEnd
  failed : Str → SourceEnd

-- The errors that `run` returns.
pub data Failure : Type 0 where
  source_failed : Str → Failure
  source_join sink_stopped sink_join parser_join : Failure
  sources_late parser_late sinks_late : Failure

-- Where the supervisor is; `draining_sources` has the `first_error` of `drain_source_tasks`.
pub data Phase : Type 0 where
  supervising : Phase
  draining_sources : Option Failure → Phase
  sweeping_sources awaiting_parser reaping_parser draining_sinks sweeping_sinks returned : Phase

-- An `outcome` of `none` is `Ok(())`.
pub record System : Type 0 where
  pub is_shut_down : Bool
  pub sources : List (Task SourceEnd)
  pub parser : Task ParserExit
  pub sinks : List (Task (Unit {0}))
  pub ready : Bool
  pub phase : Phase
  pub outcome : Option Failure
  pub parser_finished : Bool
  pub sources_exhausted : Bool

-- When the loop begins: so many sources and sinks are spawned, and the parser.
unfoldable pub spawned : ℕ → ℕ → System
unfolding spawn_all
spawned n m = record {
  is_shut_down = false;
  sources = spawn_all n;
  parser = running;
  sinks = spawn_all m;
  ready = true;
  phase = supervising;
  outcome = none;
  parser_finished = false;
  sources_exhausted = false;
}

-- `if outcome.is_ok() { outcome = Err(error) }`.
abbrev pub fail : Option Failure → Failure → Option Failure
fail none e = some e
fail (some e') e = some e'

abbrev pub fail_with : Option Failure → Option Failure → Option Failure
fail_with o none = o
fail_with o (some e) = fail o e

-- From the end of the loop to the draining of the sources.
unfoldable pub leave_loop : Option Failure → System → System
unfolding abort abort_all
leave_loop none s = record s { ready = false; outcome = none; phase = draining_sources none }
leave_loop (some e) s = record s {
  ready = false;
  outcome = some e;
  phase = draining_sources none;
  sources = abort_all s.sources;
  sinks = abort_all s.sinks;
  parser = if s.parser_finished then s.parser else abort s.parser;
}

unfoldable pub on_source : Joined SourceEnd → System → System
unfolding leave_loop
on_source (Joined.finished stopped) s = s
on_source (Joined.finished (failed e)) s = leave_loop (some (source_failed e)) s
on_source Joined.cancelled s = leave_loop (some source_join) s
on_source Joined.panicked s = leave_loop (some source_join) s

unfoldable pub on_sink : Joined (Unit {0}) → System → System
unfolding leave_loop
on_sink (Joined.finished u) s = if is_finished s.parser then s else leave_loop (some sink_stopped) s
on_sink Joined.cancelled s = leave_loop (some sink_join) s
on_sink Joined.panicked s = leave_loop (some sink_join) s

abbrev pub is_closed : ParserExit → Bool
is_closed shutdown = false
is_closed sources_closed = true

unfoldable pub on_parser : Joined ParserExit → System → System
unfolding leave_loop
on_parser (Joined.finished exit) s =
    leave_loop none (record s { parser_finished = true; sources_exhausted = is_closed exit })
on_parser Joined.cancelled s = leave_loop (some parser_join) (record s { parser_finished = true })
on_parser Joined.panicked s = leave_loop (some parser_join) (record s { parser_finished = true })

-- The error of `drain_source_tasks` for a task.
unfoldable pub drain_error : Joined SourceEnd → Option Failure
drain_error (Joined.finished stopped) = none
drain_error (Joined.finished (failed e)) = some (source_failed e)
drain_error Joined.cancelled = none
drain_error Joined.panicked = some source_join

abbrev pub first : Option Failure → Option Failure → Option Failure
first none e = e
first (some e') e = some e'

unfoldable pub after_sources : Option Failure → System → System
after_sources e s = record s {
  outcome = fail_with s.outcome e;
  phase = if s.parser_finished then draining_sinks else awaiting_parser;
}

unfoldable pub parser_error : Joined ParserExit → Option Failure
parser_error (Joined.finished exit) = none
parser_error Joined.cancelled = some parser_join
parser_error Joined.panicked = some parser_join

unfoldable pub after_parser : Option Failure → System → System
after_parser e s = record s { outcome = fail_with s.outcome e; phase = draining_sinks }

-- The return: a `JoinSet` that is dropped aborts what is left in it.
unfoldable pub return_with : Option Failure → System → System
unfolding abort_all
return_with e s = record s {
  outcome = fail_with s.outcome e;
  phase = returned;
  sinks = abort_all s.sinks;
}

-- `drain_sink_tasks` goes on, or returns an error at once.
unfoldable pub drain_sink : Joined (Unit {0}) → System → System
unfolding return_with
drain_sink (Joined.finished u) s = s
drain_sink Joined.cancelled s = s
drain_sink Joined.panicked s = return_with (some sink_join) s

-- The parser leaves its loop on a shutdown, or when no source holds a sender any more.
abbrev pub MayExit : System → ParserExit → Type 0
MayExit s shutdown = s.is_shut_down ≡ true
MayExit s sources_closed = All (λ t. holds_channels t ≡ false) s.sources

-- A source ends as it likes, but fails only in a storm.
abbrev pub MayEnd : Bool → SourceEnd → Type 0
MayEnd storm stopped = Unit
MayEnd storm (failed e) = storm ≡ true

-- A sink returns on a shutdown, or when the parser has dropped its senders.
abbrev pub MayStop : System → Unit {0} → Type 0
MayStop s u = (s.is_shut_down ≡ true) ⊎ (holds_channels s.parser ≡ false)

-- Whether the sinks are drained without a limit of time.
abbrev pub drains_fully : System → Bool
drains_fully s = elim s.outcome [ none ↦ s.sources_exhausted | some e ↦ false ]

pub data Step (storm : Bool) (s : System) : System → Type 0 where
  shut_down :
      storm ≡ true → s.is_shut_down ≡ false → Step storm s (record s { is_shut_down = true })
  source_acts :
      {ts : List (Task SourceEnd)}
      → OneActs storm (MayEnd storm) s.sources ts
      → Step storm s (record s { sources = ts })
  parser_acts :
      {p : Task ParserExit}
      → Acts storm (MayExit s) s.parser p
      → Step storm s (record s { parser = p })
  sink_acts :
      {ts : List (Task (Unit {0}))}
      → OneActs storm (MayStop s) s.sinks ts
      → Step storm s (record s { sinks = ts })
  see_shutdown : s.phase ≡ supervising → s.is_shut_down ≡ true → Step storm s (leave_loop none s)
  source_joined :
      {j : Joined SourceEnd} {ts : List (Task SourceEnd)}
      → s.phase ≡ supervising
      → Joins s.sources j ts
      → Step storm s (on_source j (record s { sources = ts }))
  sink_joined :
      {j : Joined (Unit {0})} {ts : List (Task (Unit {0}))}
      → s.phase ≡ supervising
      → Joins s.sinks j ts
      → Step storm s (on_sink j (record s { sinks = ts }))
  parser_joined :
      {j : Joined ParserExit}
      → s.phase ≡ supervising
      → s.parser ≡ done j
      → Step storm s (on_parser j s)
  source_drained :
      {j : Joined SourceEnd} {ts : List (Task SourceEnd)} {e : Option Failure}
      → s.phase ≡ draining_sources e
      → Joins s.sources j ts
      → Step storm s (record s { sources = ts; phase = draining_sources (first e (drain_error j)) })
  sources_drained :
      {e : Option Failure}
      → s.phase ≡ draining_sources e
      → s.sources ≡ []
      → Step storm s (after_sources e s)
  sources_time_out :
      {e : Option Failure}
      → storm ≡ true
      → s.phase ≡ draining_sources e
      → Step storm s (record s { sources = abort_all s.sources; phase = sweeping_sources })
  source_swept :
      {j : Joined SourceEnd} {ts : List (Task SourceEnd)}
      → s.phase ≡ sweeping_sources
      → Joins s.sources j ts
      → Step storm s (record s { sources = ts })
  sources_swept :
      s.phase ≡ sweeping_sources
      → s.sources ≡ []
      → Step storm s (after_sources (some sources_late) s)
  parser_awaited :
      {j : Joined ParserExit}
      → s.phase ≡ awaiting_parser
      → s.parser ≡ done j
      → Step storm s (after_parser (parser_error j) s)
  parser_time_out :
      storm ≡ true
      → s.phase ≡ awaiting_parser
      → Step storm s (record s { parser = abort s.parser; phase = reaping_parser })
  parser_reaped :
      {j : Joined ParserExit}
      → s.phase ≡ reaping_parser
      → s.parser ≡ done j
      → Step storm s (after_parser (some parser_late) s)
  sink_drained :
      {j : Joined (Unit {0})} {ts : List (Task (Unit {0}))}
      → s.phase ≡ draining_sinks
      → Joins s.sinks j ts
      → Step storm s (drain_sink j (record s { sinks = ts }))
  sinks_drained : s.phase ≡ draining_sinks → s.sinks ≡ [] → Step storm s (return_with none s)
  sinks_time_out :
      storm ≡ true
      → s.phase ≡ draining_sinks
      → drains_fully s ≡ false
      → Step storm s (record s { sinks = abort_all s.sinks; phase = sweeping_sinks })
  sink_swept :
      {j : Joined (Unit {0})} {ts : List (Task (Unit {0}))}
      → s.phase ≡ sweeping_sinks
      → Joins s.sinks j ts
      → Step storm s (record s { sinks = ts })
  sinks_swept :
      s.phase ≡ sweeping_sinks → s.sinks ≡ [] → Step storm s (return_with (some sinks_late) s)

-- A run of some length.
pub data Run (storm : Bool) (s : System) : ℕ → System → Type 0 where
  here : Run storm s 0 s
  later : {n : ℕ} {t u : System} → Run storm s n t → Step storm t u → Run storm s (suc n) u
