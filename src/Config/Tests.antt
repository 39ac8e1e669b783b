-- ===== src/Config/Tests.antt =====
-- Runs of `validate_labels`, and its property at concrete labels.
use purple_wolf.Config.Labels.{DocumentedKey, size, validate_labels_iff}
use purple_wolf.Config.{
  LabelError, is_lower, is_key_byte, is_valid_label_key, saturating_add, label_loop, check_total,
  validate_labels,
}
use purple_wolf.Prelude.{
  ◌≤◌, All, List, [], ◌∷◌, length, all, none, some, Str, codes, ◌≡◌, ◌↔◌, refl,
}

program : Unit {0}
unfolding is_lower is_key_byte is_valid_label_key saturating_add label_loop check_total
    validate_labels all
program = tt

abbrev labels : List (Str × Str)
labels = (codes "tenant", codes "A") ∷ (codes "env.x-1_", codes "") ∷ []

accepted : validate_labels labels ≡ none
unfolding program
accepted = refl

refused :
    validate_labels ((codes "Tenant", codes "A") ∷ []) ≡ some (LabelError.bad_key (codes "Tenant"))
unfolding program
refused = refl

validate_labels_iff_example : (validate_labels labels ≡ none) ↔ (
    (length labels ≤ 32)
    × All (λ l. DocumentedKey l.0 × (length l.1 ≤ 1024)) labels
    × (size labels ≤ 4096))
validate_labels_iff_example = validate_labels_iff labels
