-- ===== src/Relay/Sources.antt =====
-- The sources that a configuration names: `build` of crates/purple-wolf-relay/src/sources/mod.rs.
use purple_wolf.Prelude.{Bool, ◌++◌, Str, codes}
use purple_wolf.Relay.Config.{SourceConfig, log_tail, stdin}

pub data Source : Type 0 where
  log_tail_source : Str → Str → Bool → Source
  stdin_source : Str → Source

unfoldable pub new_log_tail : Str → Bool → Source
new_log_tail path from_beginning =
    Source.log_tail_source (codes "log_tail:" ++ path) path from_beginning

unfoldable pub new_stdin : Source
new_stdin = Source.stdin_source (codes "stdin")

unfoldable pub build : SourceConfig → Source
unfolding new_log_tail new_stdin
build (log_tail path from_beginning) = new_log_tail path from_beginning
build stdin = new_stdin

unfoldable pub id_of : Source → Str
id_of (log_tail_source id path from_beginning) = id
id_of (stdin_source id) = id
