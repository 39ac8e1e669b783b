-- ===== src/Audit/Noteworthy.antt =====
-- When a line is written, and what cannot stand in its labels (crates/purple-wolf-core/src/audit.rs).
use purple_wolf.Audit.{
  is_control, scrub_label_value, rule_of, from_with_labels, with_config_fallback, is_noteworthy,
  is_some, is_nil, map_option,
}
use purple_wolf.Detectors.{Verdict}
use purple_wolf.Policy.{Decision}
use purple_wolf.Prelude.{
  ℕ, Bool, true, false, ◌||◌, not, if◌then◌else◌, List, [], ◌∷◌, map, all, Option, none, some, Str,
  ◌≡◌, refl, arith,
}
use purple_wolf.Request.{Request}
use purple_wolf.Traefik.Entry.{decision_is_noteworthy}

by-parts :
    (b : Option Verdict) (w : List Verdict) (fallback : Bool)
    → (is_some (map_option rule_of b) || (not (is_nil (map rule_of w)) || fallback))
      ≡ elim b [ some _ ↦ true | none ↦ elim w [ _ ∷ _ ↦ true | [] ↦ fallback ] ]
by-parts (some v) w fallback = refl
by-parts none [] fallback = refl
by-parts none (v ∷ w) fallback = refl

module _ {Ip : Type 0} (show_ip : Ip → Str) where
  -- The guest's test on the decision and the test on the finished audit entry agree, so an entry is
  -- built exactly when it is worth a line.
  pub is_noteworthy-from_with_labels :
      (req : Request Ip) (d : Decision) (labels : List (Str × Str)) (fallback : Bool)
      → is_noteworthy (with_config_fallback (from_with_labels show_ip req d labels) fallback)
        ≡ decision_is_noteworthy d fallback
  unfolding is_noteworthy with_config_fallback from_with_labels decision_is_noteworthy
  is_noteworthy-from_with_labels req d labels fallback =
      by-parts d.blocked_by d.would_block fallback

scrubbed : (c : ℕ) → is_control (if is_control c then b'.' else c) ≡ false
unfolding is_control
scrubbed c = ground arith

-- No byte of a label value in an audit entry is an ASCII control character.
pub scrub_label_value-clean : (v : Str) → all (λ c. not (is_control c)) (scrub_label_value v) ≡ true
unfolding scrub_label_value all
scrub_label_value-clean [] = refl
scrub_label_value-clean (c ∷ v) = rw (scrubbed c, scrub_label_value-clean v)
