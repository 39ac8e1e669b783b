-- ===== src/Audit.antt =====
-- `AuditEntry` of crates/purple-wolf-core/src/audit.rs.
pub mod Noteworthy
mod Tests
use purple_wolf.Detectors.{Verdict, group_as_str, severity_as_str}
use purple_wolf.Policy.{Action, Decision}
use purple_wolf.Prelude.{
  ℕ, Bool, true, false, ◌||◌, not, ltb, ◌==◌, if◌then◌else◌, List, [], ◌∷◌, ◌++◌, map, Option, none,
  some, Str, codes,
}
use purple_wolf.Request.{Request}

pub record AuditEntry : Type 0 where
  pub host : Str
  pub path : Str
  pub query : Option Str
  pub method : Str
  pub source_ip : Str
  pub action : Str
  pub blocked_rule : Option Str
  pub blocked_severity : Option Str
  pub blocked_detail : Option Str
  pub would_block_rules : List Str
  pub body_truncated : Bool
  pub labels : List (Str × Str)
  pub config_fallback : Bool

-- In UTF-8 a byte below 0x80 is a character of its own, so the characters are replaced byte by byte.
unfoldable pub is_control : ℕ → Bool
is_control c = ltb c 0x20 || c == 0x7f

unfoldable pub scrub_label_value : Str → Str
unfolding is_control
scrub_label_value = map (λ c. if is_control c then b'.' else c)

unfoldable pub action_str : Action → Str
action_str Action.allow = codes "allow"
action_str Action.block = codes "block"

unfoldable pub rule_of : Verdict → Str
rule_of v = group_as_str v.group ++ codes "/" ++ v.rule

abbrev pub map_option : {A B : Type 0} → (A → B) → Option A → Option B
map_option f none = none
map_option f (some a) = some (f a)

-- `show_ip` is the `Display` of `IpAddr`.
module _ {Ip : Type 0} (show_ip : Ip → Str) where
  unfoldable pub from_with_labels : Request Ip → Decision → List (Str × Str) → AuditEntry
  unfolding scrub_label_value action_str rule_of
  from_with_labels req d labels = record {
    host = req.host;
    path = req.path;
    query = req.raw_query;
    method = req.method;
    source_ip = show_ip req.source_ip;
    action = action_str d.action;
    blocked_rule = map_option rule_of d.blocked_by;
    blocked_severity = map_option (λ v. severity_as_str v.severity) d.blocked_by;
    blocked_detail = map_option (λ v. v.detail) d.blocked_by;
    would_block_rules = map rule_of d.would_block;
    body_truncated = req.body_truncated;
    labels = map (λ l. (l.0, scrub_label_value l.1)) labels;
    config_fallback = false;
  }

  unfoldable pub from : Request Ip → Decision → AuditEntry
  unfolding from_with_labels
  from req d = from_with_labels req d []

unfoldable pub with_config_fallback : AuditEntry → Bool → AuditEntry
with_config_fallback e fallback = record e { config_fallback = fallback }

abbrev pub is_some : {A : Type 0} → Option A → Bool
is_some none = false
is_some (some _) = true

abbrev pub is_nil : {A : Type 0} → List A → Bool
is_nil [] = true
is_nil (_ ∷ _) = false

unfoldable pub is_noteworthy : AuditEntry → Bool
is_noteworthy e = is_some e.blocked_rule || (not (is_nil e.would_block_rules) || e.config_fallback)
