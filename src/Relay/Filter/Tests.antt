-- ===== src/Relay/Filter/Tests.antt =====
-- A filter at a concrete envelope.
use purple_wolf.Detectors.{high}
use purple_wolf.Prelude.{if◌then◌else◌, List, [], ◌∷◌, Option, none, some, Str, codes, str_eq}
use purple_wolf.Relay.Envelope.{Envelope, new}
use purple_wolf.Relay.Filter.{CompiledFilter}
use purple_wolf.Relay.Glob

-- Events that are lists of keys with texts.
abbrev get_str : List (Str × Str) → Str → Option Str
unfolding str_eq
get_str [] k = none
get_str ((k', v) ∷ es) k = let rest = get_str es k in if str_eq k' k then some v else rest

abbrev get_strs : List (Str × Str) → Str → Option (List Str)
get_strs es k = none

abbrev filter : CompiledFilter
filter = record {
  labels = (codes "tenant", codes "a") ∷ [];
  severity_min = some high;
  rule_glob = some (Glob.new (codes "injection/*"));
}

abbrev envelope : Envelope (List (Str × Str))
unfolding new
envelope =
    new
      ((codes "blocked_severity", codes "critical")
        ∷ (codes "blocked_rule", codes "injection/sqli")
        ∷ [])
      (record { middleware = none; router = none; entry_point = none; relay_instance = codes "r" })
      ((codes "tenant", codes "a") ∷ []) (codes "01") 7
