-- ===== src/Traefik/Adapter/Tests.antt =====
-- Configurations adapted, and the properties of the adapter and of its scalars at concrete inputs.
use purple_wolf.Config.{
  Config, OverCap, FailMode, validate_labels, label_loop, check_total, saturating_add,
  is_valid_label_key, is_key_byte, is_lower,
}
use purple_wolf.Detectors.{Mode, GroupMode}
use purple_wolf.Prelude.{
  true, false, List, [], ◌∷◌, Option, none, some, Bytes, codes, str_eq, starts_with, trim, lower,
  to_ascii_lowercase, keep, all, digits_from, show, parse_digits, some_digits, parse_unsigned, ◌≡◌,
  refl,
}
use purple_wolf.Traefik.Adapter.Accepted.{Safe, parse-Safe}
use purple_wolf.Traefik.Adapter.{
  Raw, Adapted, Warning, read_group, read_groups, read_reputation, read_body, read_xff, read_wire,
  is_reserved, clamp_warning, clamp, kept_labels, all_warnings, config_from, parse_wire, parse,
}
use purple_wolf.Traefik.Body.{max_alloc}
use purple_wolf.Traefik.Scalar.{
  Scalar, bool_of_text, de_lenient_bool, try_from, de_lenient_unsigned, de_lenient_usize,
  de_lenient_u32,
}

program : Unit {0}
unfolding parse parse_wire config_from all_warnings kept_labels clamp clamp_warning is_reserved
    read_wire read_xff read_body read_reputation read_groups read_group validate_labels label_loop
    check_total saturating_add is_valid_label_key is_key_byte is_lower bool_of_text de_lenient_bool
    parse_digits some_digits parse_unsigned try_from de_lenient_unsigned de_lenient_usize
    de_lenient_u32 str_eq starts_with trim to_ascii_lowercase lower keep all digits_from show
program = tt

spellings : de_lenient_bool (Scalar.text (codes " Yes ")) ≡ some true
unfolding program
spellings = refl

empty_bool : de_lenient_bool (Scalar.text []) ≡ none
unfolding program
empty_bool = refl

numbers : de_lenient_u32 (Scalar.text (codes "+4294967295")) ≡ some 4294967295
unfolding program
numbers = refl

too_large : de_lenient_u32 (Scalar.text (codes "4294967296")) ≡ none
unfolding program
too_large = refl

-- One field is a text, too large; one label is reserved.
abbrev raw : Raw
raw = record {
  mode = Mode.enforce;
  fail_mode = none;
  body =
      some (record { max_inspect_bytes = some (Scalar.text (codes "16777216")); over_cap = none });
  groups = none;
  reputation = none;
  trusted_hops = none;
  labels = some ((codes "tenant", codes "acme") ∷ (codes "purple_wolf.router", codes "x") ∷ []);
}

abbrev from_slice : Bytes → Option Raw
from_slice bytes = some raw

abbrev accepted : Config
accepted = record {
  mode = Mode.enforce;
  fail_mode = FailMode.fail_open;
  body = record { max_inspect_bytes = max_alloc; over_cap = OverCap.pass };
  groups = record {
    injection = some (record { enabled = true; mode = GroupMode.enforce });
    signatures = some (record { enabled = true; mode = GroupMode.enforce });
    structural = some (record { enabled = true; mode = GroupMode.monitor });
    reputation = some (record { enabled = false; mode = GroupMode.monitor });
  };
  reputation = record { per_second = 100; deny_list = []; max_tracked_ips = 50000 };
  trusted_hops = 0;
  labels = (codes "tenant", codes "acme") ∷ [];
}

abbrev warnings : List Warning
warnings = Warning.clamped 16777216 ∷ Warning.reserved_key (codes "purple_wolf.router") ∷ []

adapted : parse from_slice [] ≡ Adapted.ok accepted warnings
unfolding program
adapted = refl

parse-Safe_example : Safe accepted
parse-Safe_example = parse-Safe from_slice [] accepted warnings adapted
