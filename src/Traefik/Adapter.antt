-- ===== src/Traefik/Adapter.antt =====
-- The configuration adapter of crates/purple-wolf-traefik/src/config.rs. What serde reads off the JSON text
-- by the derived code is the record `Raw`: a field that may be missing is an option, and the lenient
-- scalars and the defaults come after.
pub mod Accepted
mod Tests
use purple_wolf.Config.{
  Config, FailMode, OverCap, BodyConfig, GroupConfig, Groups, ReputationConfig, LabelError,
  validate_labels,
}
use purple_wolf.Detectors.{Mode, GroupMode}
use purple_wolf.Prelude.{
  ℕ, Bool, true, false, not, ltb, ◌==◌, if◌then◌else◌, List, [], ◌∷◌, ◌++◌, map, keep, Option, none,
  some, ◌>>=◌, or_else, unwrap_or, Str, Bytes, codes, starts_with,
}
use purple_wolf.Traefik.Body.{max_alloc}
use purple_wolf.Traefik.Scalar.{Scalar, de_lenient_bool, de_lenient_usize, de_lenient_u32}

pub data WireFailMode : Type 0 where
  fail_open fail_closed : WireFailMode

pub record WireGroupConfig : Type 0 where
  pub enabled : Bool
  pub mode : GroupMode

pub record WireGroups : Type 0 where
  pub injection : Option WireGroupConfig
  pub signatures : Option WireGroupConfig
  pub structural : Option WireGroupConfig
  pub reputation : Option WireGroupConfig

pub record WireXff : Type 0 where
  pub trusted_hops : ℕ

pub record WireReputation : Type 0 where
  pub per_second : ℕ
  pub deny_list : List Str
  pub max_tracked_ips : ℕ

pub record WireBody : Type 0 where
  pub max_inspect_bytes : ℕ
  pub over_cap : OverCap

pub record Wire : Type 0 where
  pub mode : Mode
  pub fail_mode : WireFailMode
  pub body : WireBody
  pub groups : WireGroups
  pub reputation : WireReputation
  pub xff : WireXff
  pub labels : List (Str × Str)

-- The fields as they stand in the text.
pub record RawGroup : Type 0 where
  pub enabled : Option Scalar
  pub mode : Option GroupMode

pub record RawGroups : Type 0 where
  pub injection : Option RawGroup
  pub signatures : Option RawGroup
  pub structural : Option RawGroup
  pub reputation : Option RawGroup

pub record RawReputation : Type 0 where
  pub per_second : Option Scalar
  pub deny_list : Option (List Str)
  pub max_tracked_ips : Option Scalar

pub record RawBody : Type 0 where
  pub max_inspect_bytes : Option Scalar
  pub over_cap : Option OverCap

pub record Raw : Type 0 where
  pub mode : Mode
  pub fail_mode : Option WireFailMode
  pub body : Option RawBody
  pub groups : Option RawGroups
  pub reputation : Option RawReputation
  pub trusted_hops : Option (Option Scalar)
  pub labels : Option (List (Str × Str))

abbrev lenient_or : {A : Type 0} → (Scalar → Option A) → A → Option Scalar → Option A
lenient_or read default none = some default
lenient_or read default (some v) = read v

abbrev pub default_true : Bool
default_true = true

abbrev pub default_group_mode : GroupMode
default_group_mode = GroupMode.enforce

abbrev pub default_per_second : ℕ
default_per_second = 100

abbrev pub default_max_tracked_ips : ℕ
default_max_tracked_ips = 50000

abbrev pub default_max_inspect_bytes : ℕ
default_max_inspect_bytes = 1048576

abbrev pub default_over_cap : OverCap
default_over_cap = OverCap.pass

abbrev pub default_fail_mode : WireFailMode
default_fail_mode = WireFailMode.fail_open

abbrev pub default_reputation : WireReputation
default_reputation = record {
  per_second = default_per_second;
  deny_list = [];
  max_tracked_ips = default_max_tracked_ips;
}

abbrev pub default_body : WireBody
default_body = record { max_inspect_bytes = default_max_inspect_bytes; over_cap = default_over_cap }

unfoldable pub read_group : Option RawGroup → Option (Option WireGroupConfig)
unfolding de_lenient_bool
read_group none = some none
read_group (some g) = do
  enabled ← lenient_or de_lenient_bool default_true g.enabled
  some (some (record { enabled = enabled; mode = unwrap_or g.mode default_group_mode }))

unfoldable pub read_groups : Option RawGroups → Option WireGroups
unfolding read_group
read_groups none =
    some (record { injection = none; signatures = none; structural = none; reputation = none })
read_groups (some g) = do
  injection ← read_group g.injection
  signatures ← read_group g.signatures
  structural ← read_group g.structural
  reputation ← read_group g.reputation
  some (record {
    injection = injection;
    signatures = signatures;
    structural = structural;
    reputation = reputation;
  })

unfoldable pub read_reputation : Option RawReputation → Option WireReputation
unfolding de_lenient_u32 de_lenient_usize
read_reputation none = some default_reputation
read_reputation (some r) = do
  per_second ← lenient_or de_lenient_u32 default_per_second r.per_second
  max_tracked_ips ← lenient_or de_lenient_usize default_max_tracked_ips r.max_tracked_ips
  some (record {
    per_second = per_second;
    deny_list = unwrap_or r.deny_list [];
    max_tracked_ips = max_tracked_ips;
  })

unfoldable pub read_body : Option RawBody → Option WireBody
unfolding de_lenient_usize
read_body none = some default_body
read_body (some b) = do
  max_inspect_bytes ← lenient_or de_lenient_usize default_max_inspect_bytes b.max_inspect_bytes
  some (record {
    max_inspect_bytes = max_inspect_bytes;
    over_cap = unwrap_or b.over_cap default_over_cap;
  })

unfoldable pub read_xff : Option (Option Scalar) → Option WireXff
unfolding de_lenient_usize
read_xff none = some (record { trusted_hops = 0 })
read_xff (some hops) = do
  trusted_hops ← lenient_or de_lenient_usize 0 hops
  some (record { trusted_hops = trusted_hops })

unfoldable pub read_wire : Raw → Option Wire
unfolding read_body read_groups read_reputation read_xff
read_wire raw = do
  body ← read_body raw.body
  groups ← read_groups raw.groups
  reputation ← read_reputation raw.reputation
  xff ← read_xff raw.trusted_hops
  some (record {
    mode = raw.mode;
    fail_mode = unwrap_or raw.fail_mode default_fail_mode;
    body = body;
    groups = groups;
    reputation = reputation;
    xff = xff;
    labels = unwrap_or raw.labels [];
  })

-- The conversions to the types of the core.
abbrev pub fail_mode_from : WireFailMode → FailMode
fail_mode_from WireFailMode.fail_open = FailMode.fail_open
fail_mode_from WireFailMode.fail_closed = FailMode.fail_closed

abbrev pub group_from : Option WireGroupConfig → Option GroupConfig
group_from none = none
group_from (some w) = some (record { enabled = w.enabled; mode = w.mode })

abbrev pub groups_from : WireGroups → Groups
groups_from w = record {
  injection = group_from w.injection;
  signatures = group_from w.signatures;
  structural = group_from w.structural;
  reputation = group_from w.reputation;
}

abbrev pub reputation_from : WireReputation → ReputationConfig
reputation_from w = record {
  per_second = w.per_second;
  deny_list = w.deny_list;
  max_tracked_ips = w.max_tracked_ips;
}

abbrev pub default_group : Bool → GroupMode → GroupConfig
default_group enabled mode = record { enabled = enabled; mode = mode }

-- `get_or_insert` of each group.
abbrev pub fill_groups : Groups → Groups
fill_groups g = record {
  injection = or_else g.injection (some (default_group true GroupMode.enforce));
  signatures = or_else g.signatures (some (default_group true GroupMode.enforce));
  structural = or_else g.structural (some (default_group true GroupMode.monitor));
  reputation = or_else g.reputation (some (default_group false GroupMode.monitor));
}

-- The messages, with the number or key that they show.
pub data Warning : Type 0 where
  clamped : ℕ → Warning
  reserved_key : Str → Warning

pub data AdapterError : Type 0 where
  malformed zero_per_second zero_max_inspect_bytes : AdapterError
  bad_labels : LabelError → AdapterError

pub data Adapted : Type 0 where
  ok : Config → List Warning → Adapted
  err : AdapterError → Adapted

unfoldable pub is_reserved : Str × Str → Bool
unfolding starts_with
is_reserved (k, v) = starts_with (codes "purple_wolf.") k

unfoldable pub clamp_warning : ℕ → List Warning
clamp_warning n = if ltb max_alloc n then Warning.clamped n ∷ [] else []

unfoldable pub clamp : ℕ → ℕ
clamp n = if ltb max_alloc n then max_alloc else n

unfoldable pub kept_labels : Wire → List (Str × Str)
unfolding is_reserved keep
kept_labels w = keep (λ l. not (is_reserved l)) w.labels

unfoldable pub all_warnings : Wire → List Warning
unfolding is_reserved clamp_warning keep
all_warnings w =
    clamp_warning w.body.max_inspect_bytes
    ++ map (λ l. Warning.reserved_key l.0) (keep is_reserved w.labels)

unfoldable pub config_from : Wire → Config
unfolding clamp kept_labels
config_from w = record {
  mode = w.mode;
  fail_mode = fail_mode_from w.fail_mode;
  body = record { max_inspect_bytes = clamp w.body.max_inspect_bytes; over_cap = w.body.over_cap };
  groups = fill_groups (groups_from w.groups);
  reputation = reputation_from w.reputation;
  trusted_hops = w.xff.trusted_hops;
  labels = kept_labels w;
}

abbrev pub labelled : Wire → Option LabelError → Adapted
unfolding config_from all_warnings
labelled w (some e) = Adapted.err (AdapterError.bad_labels e)
labelled w none = Adapted.ok (config_from w) (all_warnings w)

unfoldable pub parse_wire : Option Wire → Adapted
unfolding validate_labels kept_labels labelled
parse_wire none = Adapted.err AdapterError.malformed
parse_wire (some w) =
    if w.reputation.per_second == 0
    then Adapted.err AdapterError.zero_per_second
    else if w.body.max_inspect_bytes == 0
    then Adapted.err AdapterError.zero_max_inspect_bytes
    else labelled w (validate_labels (kept_labels w))

-- `from_slice` is the derived JSON reader, up to the lenient scalars and defaults.
unfoldable pub parse : (Bytes → Option Raw) → Bytes → Adapted
unfolding parse_wire read_wire
parse from_slice bytes = parse_wire (from_slice bytes >>= read_wire)
