-- ===== src/Relay/Stop.antt =====
-- The whole of the relay: `run` and `task_outcome` of crates/purple-wolf-relay/src/lib.rs, and the exit code
-- of src/main.rs. What loading the file, parsing the address and creating the metrics give, which task or
-- signal comes first, and how the tasks end, are arguments.
pub mod Clean
mod Tests
use purple_wolf.Prelude.{ℕ, Bool, true, false, if◌then◌else◌, Option, none, some, Str}
use purple_wolf.Relay.Config.{Checked, Config, ConfigError, Outside, Resolved, validate}
use purple_wolf.Relay.Tasks.{Joined, finished, cancelled, panicked}

pub data TaskName : Type 0 where
  admin pipeline : TaskName

-- `E` are the errors of the pipeline, a text is one of the admin server, of the loader or of the system.
pub data RunError (E : Type 0) : Type 0 where
  load_failed metrics_failed bad_admin_addr signal_failed : Str → RunError E
  invalid : ConfigError → RunError E
  admin_failed : Str → RunError E
  pipeline_failed : E → RunError E
  join_failure : TaskName → RunError E
  admin_stopped : RunError E

-- An error, or `none` for `Ok(())`.
abbrev pub Outcome : Type 0 → Type 0
Outcome E = Option E

-- What ends first, with what the others give when they have been told to stop.
pub data Stop (E : Type 0) : Type 0 where
  on_signal : Outcome Str → Joined (Outcome Str) → Joined (Outcome E) → Stop E
  on_admin : Joined (Outcome Str) → Joined (Outcome E) → Stop E
  on_pipeline : Joined (Outcome E) → Joined (Outcome Str) → Stop E

-- `a?; b`.
infixr 30 ◌and_then◌
abbrev pub ◌and_then◌ : {E : Type 0} → Outcome E → Outcome E → Outcome E
none and_then b = b
some e and_then b = some e

unfoldable pub task_outcome :
    {E F : Type 0} → TaskName → (F → RunError E) → Joined (Outcome F) → Outcome (RunError E)
task_outcome name wrap (finished none) = none
task_outcome name wrap (finished (some e)) = some (wrap e)
task_outcome name wrap cancelled = some (join_failure name)
task_outcome name wrap panicked = some (join_failure name)

abbrev pub signal_result : {E : Type 0} → Outcome Str → Outcome (RunError E)
signal_result none = none
signal_result (some e) = some (signal_failed e)

unfoldable pub stop_result : {E : Type 0} → Stop E → Outcome (RunError E)
unfolding task_outcome
stop_result (on_signal signal a p) =
    signal_result signal
    and_then task_outcome admin admin_failed a
    and_then task_outcome pipeline pipeline_failed p
stop_result (on_admin a p) =
    task_outcome admin admin_failed a
    and_then task_outcome pipeline pipeline_failed p
    and_then some admin_stopped
stop_result (on_pipeline p a) =
    task_outcome pipeline pipeline_failed p and_then task_outcome admin admin_failed a

pub data Loaded : Type 0 where
  loaded : Config → Loaded
  unreadable : Str → Loaded

-- Behind the checks: the metrics and the address, and then the tasks.
unfoldable pub serve : {E : Type 0} → Outcome Str → Outcome Str → Stop E → Outcome (RunError E)
unfolding stop_result
serve none none stop = stop_result stop
serve none (some e) stop = some (bad_admin_addr e)
serve (some e) addr stop = some (metrics_failed e)

unfoldable pub checked :
    {E : Type 0}
    → Checked Resolved
    → Bool
    → Outcome Str
    → Outcome Str
    → Stop E
    → Outcome (RunError E)
unfolding serve
checked (Checked.bail e) validate_only metrics addr stop = some (invalid e)
checked (Checked.ok r) validate_only metrics addr stop =
    if validate_only then none else serve metrics addr stop

unfoldable pub run :
    {E : Type 0}
    → Outside
    → Loaded
    → Bool
    → Outcome Str
    → Outcome Str
    → Stop E
    → Outcome (RunError E)
unfolding checked validate
run o (unreadable e) validate_only metrics addr stop = some (load_failed e)
run o (loaded cfg) validate_only metrics addr stop =
    checked (validate o cfg) validate_only metrics addr stop

-- `ExitCode::SUCCESS` is 0 and `ExitCode::FAILURE` 1.
unfoldable pub exit_code : {E : Type 0} → Outcome (RunError E) → ℕ
exit_code none = 0
exit_code (some e) = 1
