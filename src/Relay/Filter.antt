-- ===== src/Relay/Filter.antt =====
-- `CompiledFilter` of crates/purple-wolf-relay/src/subscribers/filter.rs.
pub mod Clauses
mod Tests
use purple_wolf.Detectors.{Severity, low, medium, high, critical, rank}
use purple_wolf.Prelude.{
  Bool, true, false, not, leb, if◌then◌else◌, List, [], ◌∷◌, any, Option, none, some, ◌>>=◌, Str,
  codes, str_eq,
}
use purple_wolf.Relay.Config.{SubscriberFilter}
use purple_wolf.Relay.Envelope.{Envelope}
use purple_wolf.Relay.Glob.{Glob, matches, new}

pub record CompiledFilter : Type 0 where
  pub labels : List (Str × Str)
  pub severity_min : Option Severity
  pub rule_glob : Option Glob

unfoldable pub compile : SubscriberFilter → CompiledFilter
unfolding new
compile f = record {
  labels = f.labels;
  severity_min = f.severity_min;
  rule_glob = f.blocked_rule_pattern >>= λ p. some (new p);
}

unfoldable pub parse_severity : Str → Option Severity
parse_severity s =
    if str_eq s (codes "low")
    then some low
    else if str_eq s (codes "medium")
    then some medium
    else if str_eq s (codes "high")
    then some high
    else if str_eq s (codes "critical")
    then some critical
    else none

-- `env.labels.get(k)`.
unfoldable pub get_label : List (Str × Str) → Str → Option Str
get_label [] k = none
get_label ((k', v) ∷ ls) k = let rest = get_label ls k in if str_eq k' k then some v else rest

abbrev pub holds : (Str → Bool) → Option Str → Bool
holds p none = false
holds p (some s) = p s

unfoldable pub labels_loop : List (Str × Str) → List (Str × Str) → Bool
unfolding get_label
labels_loop env [] = true
labels_loop env ((k, v) ∷ ls) =
    let rest = labels_loop env ls in
    if not (holds (λ s. str_eq s v) (get_label env k)) then false else rest

abbrev pub at_least : Severity → Option Severity → Bool
at_least least none = false
at_least least (some sev) = leb (rank least) (rank sev)

abbrev pub any_of : (Str → Bool) → Option (List Str) → Bool
any_of p none = false
any_of p (some ss) = any p ss

-- `get(key)` with `as_str`, and with `as_array` and the strings among its elements.
module _ {J : Type 0} (get_str : J → Str → Option Str)
    (get_strs : J → Str → Option (List Str)) where
  unfoldable pub severity_fails : Option Severity → J → Bool
  severity_fails none event = false
  severity_fails (some least) event =
      not (at_least least (get_str event (codes "blocked_severity") >>= parse_severity))

  unfoldable pub rule_clause : Option Glob → J → Bool
  rule_clause none event = true
  rule_clause (some g) event =
      let direct = holds (matches g) (get_str event (codes "blocked_rule")) in
      let would = any_of (matches g) (get_strs event (codes "would_block_rules")) in
      if direct then true else if not would then false else true

  unfoldable pub filter_matches : CompiledFilter → Envelope J → Bool
  unfolding labels_loop severity_fails rule_clause
  filter_matches f env =
      if not (labels_loop env.labels f.labels)
      then false
      else if severity_fails f.severity_min env.event
      then false
      else rule_clause f.rule_glob env.event
