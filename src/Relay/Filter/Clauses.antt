-- ===== src/Relay/Filter/Clauses.antt =====
-- What a filter accepts.
use purple_wolf.Detectors.{Severity, low, medium, high, critical}
use purple_wolf.Prelude.{
  Bool, true, false, ◌||◌, List, [], ◌∷◌, any, keep, Option, none, some, Str, codes, str_eq, ◌≡◌,
}
use purple_wolf.Relay.Envelope.{Envelope}
use purple_wolf.Relay.Filter.{parse_severity, at_least}
use purple_wolf.Relay.Glob.{Glob, matches}

-- The first value under the label's key is the label's.
abbrev pub has_label : List (Str × Str) → Str × Str → Bool
has_label env (k, v) = elim (keep (λ l. str_eq l.0 k) env) [ [] ↦ false | l ∷ _ ↦ str_eq l.1 v ]

-- The severities from one on, as they are written.
abbrev pub from_severity : Severity → List Str
from_severity low = codes "low" ∷ codes "medium" ∷ codes "high" ∷ codes "critical" ∷ []
from_severity medium = codes "medium" ∷ codes "high" ∷ codes "critical" ∷ []
from_severity high = codes "high" ∷ codes "critical" ∷ []
from_severity critical = codes "critical" ∷ []

abbrev pub unless_none : {A : Type 0} → (A → Bool) → Option A → Bool
unless_none p none = true
unless_none p (some a) = p a

Ordered : Severity → Str → Type 0
Ordered least s = at_least least (parse_severity s) ≡ any (str_eq s) (from_severity least)

module _ {J : Type 0} (get_str : J → Str → Option Str)
    (get_strs : J → Str → Option (List Str)) where
  -- The rule of the event, or one that would have blocked, is one of the glob's.
  abbrev pub rule_matches : J → Glob → Bool
  rule_matches event g =
      elim (get_str event (codes "blocked_rule")) [ none ↦ false | some r ↦ matches g r ]
      || elim (get_strs event (codes "would_block_rules")) [
        | none ↦ false
        | some rs ↦ any (matches g) rs
      ]

  -- The severity of the block is one from the least on.
  abbrev pub severe : J → Severity → Bool
  severe event least = elim (get_str event (codes "blocked_severity")) [
    | none ↦ false
    | some s ↦ any (str_eq s) (from_severity least)
  ]
