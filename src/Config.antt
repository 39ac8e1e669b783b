-- ===== src/Config.antt =====
-- crates/purple-wolf-core/src/config.rs; its modes stand in Detectors.
pub mod Labels
mod Tests
use purple_wolf.Detectors.{Mode, GroupMode}
use purple_wolf.Prelude.{
  ℕ, ◌+◌, ◌-◌, ◌^◌, min, Bool, true, false, not, ◌&&◌, ◌||◌, leb, ltb, ◌==◌, if◌then◌else◌, List,
  [], ◌∷◌, length, all, Option, none, some, Str,
}

pub data FailMode : Type 0 where
  fail_open fail_closed : FailMode

pub data OverCap : Type 0 where
  pass block : OverCap

pub record BodyConfig : Type 0 where
  pub max_inspect_bytes : ℕ
  pub over_cap : OverCap

pub record GroupConfig : Type 0 where
  pub enabled : Bool
  pub mode : GroupMode

pub record Groups : Type 0 where
  pub injection : Option GroupConfig
  pub signatures : Option GroupConfig
  pub structural : Option GroupConfig
  pub reputation : Option GroupConfig

unfoldable pub all_monitor : Groups
all_monitor =
    let g = some (record { enabled = true; mode = GroupMode.monitor }) in
    record { injection = g; signatures = g; structural = g; reputation = g }

pub record ReputationConfig : Type 0 where
  pub per_second : ℕ
  pub deny_list : List Str
  pub max_tracked_ips : ℕ

unfoldable pub default_reputation : ReputationConfig
default_reputation = record { per_second = 100; deny_list = []; max_tracked_ips = 50000 }

pub record Config : Type 0 where
  pub mode : Mode
  pub fail_mode : FailMode
  pub body : BodyConfig
  pub groups : Groups
  pub reputation : ReputationConfig
  pub trusted_hops : ℕ
  pub labels : List (Str × Str)

abbrev pub max_label_keys : ℕ
max_label_keys = 32

abbrev pub max_label_bytes : ℕ
max_label_bytes = 4096

abbrev pub max_label_value_bytes : ℕ
max_label_value_bytes = 1024

unfoldable pub is_lower : ℕ → Bool
is_lower b = leb b'a' b && leb b b'z'

unfoldable pub is_key_byte : ℕ → Bool
unfolding is_lower
is_key_byte b =
    is_lower b || ((leb b'0' b && leb b b'9') || (b == b'_' || (b == b'.' || b == b'-')))

unfoldable pub is_valid_label_key : Str → Bool
unfolding is_key_byte
is_valid_label_key [] = false
is_valid_label_key (b ∷ k) =
    if ltb 63 (length (b ∷ k)) then false else if not (is_lower b) then false else all is_key_byte k

-- What is wrong, with what its message names.
pub data LabelError : Type 0 where
  too_many_keys : ℕ → LabelError
  bad_key : Str → LabelError
  long_value : Str → ℕ → LabelError
  too_large : ℕ → LabelError

pub data Totalled : Type 0 where
  total : ℕ → Totalled
  rejected : LabelError → Totalled

unfoldable pub saturating_add : ℕ → ℕ → ℕ
saturating_add a b = min (2 ^ 64 - 1) (a + b)

unfoldable pub label_loop : ℕ → List (Str × Str) → Totalled
unfolding saturating_add
label_loop sum [] = Totalled.total sum
label_loop sum ((k, v) ∷ ls) =
    let rest = label_loop (saturating_add (saturating_add sum (length k)) (length v)) ls in
    if not (is_valid_label_key k)
    then Totalled.rejected (LabelError.bad_key k)
    else if ltb max_label_value_bytes (length v)
    then Totalled.rejected (LabelError.long_value k (length v))
    else rest

unfoldable pub check_total : Totalled → Option LabelError
check_total (Totalled.rejected e) = some e
check_total (Totalled.total n) =
    if ltb max_label_bytes n then some (LabelError.too_large n) else none

-- `none` is `Ok(())`.
unfoldable pub validate_labels : List (Str × Str) → Option LabelError
unfolding label_loop check_total
validate_labels labels =
    if ltb max_label_keys (length labels)
    then some (LabelError.too_many_keys (length labels))
    else check_total (label_loop 0 labels)
