-- ===== src/Audit/Tests.antt =====
-- The properties of the audit entry at concrete entries.
use purple_wolf.Audit.Noteworthy.{is_noteworthy-from_with_labels}
use purple_wolf.Audit.{from_with_labels, with_config_fallback, is_noteworthy}
use purple_wolf.Detectors.Tests.{a_request}
use purple_wolf.Policy.{Action, Decision}
use purple_wolf.Prelude.{true, [], ◌∷◌, none, Str, codes, ◌≡◌}
use purple_wolf.Traefik.Entry.{decision_is_noteworthy}

abbrev nothing : Decision
nothing = record { action = Action.allow; blocked_by = none; would_block = [] }

abbrev broken : Str
broken = 10 ∷ codes "a"

is_noteworthy-from_with_labels_example :
    is_noteworthy
      (with_config_fallback (from_with_labels (λ _. codes "ip") a_request nothing []) true)
    ≡ decision_is_noteworthy nothing true
is_noteworthy-from_with_labels_example =
    is_noteworthy-from_with_labels (λ _. codes "ip") a_request nothing [] true
