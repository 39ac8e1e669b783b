-- ===== src/Relay/Config.antt =====
-- The relay's configuration and its checks: crates/purple-wolf-relay/src/config.rs. serde fills a missing
-- field with the default that stands here as a constant; a path is its text.
pub mod Validated
mod Tests
use mathlib.Core.List.{reverse}
use purple_wolf.Detectors.{Severity}
use purple_wolf.Prelude.Maps
use purple_wolf.Prelude.{
  ℕ, Bool, true, false, not, ◌||◌, ltb, ◌==◌, if◌then◌else◌, List, [], ◌∷◌, Option, none, some,
  or_else, unwrap_or, Str, Bytes, codes, starts_with, trim,
}

pub record RelayConfig : Type 0 where
  pub instance_id : Option Str
  pub subscriber_queue : ℕ
  pub admin_token_env : Option Str
  pub admin_token_file : Option Str

abbrev pub default_subscriber_queue : ℕ
default_subscriber_queue = 10000

abbrev pub default_relay_config : RelayConfig
default_relay_config = record {
  instance_id = none;
  subscriber_queue = default_subscriber_queue;
  admin_token_env = none;
  admin_token_file = none;
}

pub data SourceConfig : Type 0 where
  log_tail : Str → Bool → SourceConfig
  stdin : SourceConfig

-- `lookup on_label table` and `http on_label url timeout_ms cache_ttl_s cache_capacity`.
pub data EnricherConfig : Type 0 where
  lookup : Str → List (Str × List (Str × Str)) → EnricherConfig
  http : Str → Str → ℕ → ℕ → ℕ → EnricherConfig

abbrev default_enricher_timeout_ms : ℕ
default_enricher_timeout_ms = 500

abbrev default_cache_ttl_s : ℕ
default_cache_ttl_s = 300

abbrev default_cache_capacity : ℕ
default_cache_capacity = 1024

pub record SubscriberFilter : Type 0 where
  pub labels : List (Str × Str)
  pub severity_min : Option Severity
  pub blocked_rule_pattern : Option Str

pub record RetryConfig : Type 0 where
  pub max_attempts : ℕ
  pub base_delay_ms : ℕ
  pub max_delay_ms : ℕ

abbrev pub default_retry_config : RetryConfig
default_retry_config = record { max_attempts = 8; base_delay_ms = 500; max_delay_ms = 600000 }

pub record SubscriberConfig : Type 0 where
  pub id : Str
  pub url : Str
  pub secret_env : Option Str
  pub secret_file : Option Str
  pub filter : SubscriberFilter
  pub retry : RetryConfig
  pub timeout_ms : ℕ
  pub enabled : Bool

abbrev default_subscriber_timeout_ms : ℕ
default_subscriber_timeout_ms = 30000

pub record Config : Type 0 where
  pub sources : List SourceConfig
  pub enrichments : List EnricherConfig
  pub subscribers : List SubscriberConfig
  pub relay : RelayConfig

-- The validated configuration with the secret of each subscriber.
pub record Resolved : Type 0 where
  pub raw : Config
  pub subscriber_secrets : List (Str × Bytes)
  pub instance_id : Str
  pub admin_token : Option Str

-- The messages, with the id of the subscriber that they name.
pub data ConfigError : Type 0 where
  no_source zero_queue : ConfigError
  duplicate_id bad_url two_secrets no_secret : Str → ConfigError
  secret_env_not_set secret_env_empty secret_file_unreadable secret_file_empty : Str → ConfigError
  zero_attempts base_above_max : Str → ConfigError
  two_admin_tokens admin_env_not_set admin_env_empty admin_file_unreadable admin_file_empty :
      ConfigError

pub data Checked {ℓ} (A : Type ℓ) : Type ℓ where
  ok : A → Checked A
  bail : ConfigError → Checked A

infixl 5 ◌>>=◌
abbrev pub ◌>>=◌ {ℓ κ} : {A : Type ℓ} {B : Type κ} → Checked A → (A → Checked B) → Checked B
ok a >>= f = f a
bail e >>= f = bail e

-- `ok_or`, and `ensure!` turned round: fails where the test holds.
abbrev pub ok_or {ℓ} : {A : Type ℓ} → Option A → ConfigError → Checked A
ok_or none e = Checked.bail e
ok_or (some a) e = Checked.ok a

abbrev pub bail_if : Bool → ConfigError → Checked (Unit {0})
bail_if true e = Checked.bail e
bail_if false e = Checked.ok tt

abbrev pub is_empty {ℓ} : {A : Type ℓ} → List A → Bool
is_empty [] = true
is_empty (x ∷ xs) = false

-- What is read outside: the environment, files as text and as bytes, and the host's name, each where it
-- can be had.
pub record Outside : Type 0 where
  pub var : Str → Option Str
  pub read_to_string : Str → Option Str
  pub read : Str → Option Bytes
  pub hostname : Option Str

unfoldable pub is_blank : ℕ → Bool
is_blank b = b == 10 || (b == 13 || (b == 32 || b == 9))

unfoldable pub skip_while : (ℕ → Bool) → Bytes → Bytes
skip_while p [] = []
skip_while p (b ∷ bs) = let rest = skip_while p bs in if p b then rest else b ∷ bs

unfoldable pub trim_trailing : Bytes → Bytes
unfolding is_blank skip_while
trim_trailing bytes = reverse (skip_while is_blank (reverse bytes))

unfoldable pub resolve_admin_token : Outside → Option Str → Option Str → Checked (Option Str)
unfolding trim
resolve_admin_token o none none = Checked.ok none
resolve_admin_token o (some env_name) (some path) = Checked.bail ConfigError.two_admin_tokens
resolve_admin_token o (some env_name) none = do
  v ← ok_or (o.var env_name) ConfigError.admin_env_not_set
  _ ← bail_if (is_empty v) ConfigError.admin_env_empty
  Checked.ok (some v)
resolve_admin_token o none (some path) = do
  s ← ok_or (o.read_to_string path) ConfigError.admin_file_unreadable
  _ ← bail_if (is_empty (trim s)) ConfigError.admin_file_empty
  Checked.ok (some (trim s))

unfoldable pub secret : Outside → Str → Option Str → Option Str → Checked Bytes
unfolding trim_trailing
secret o id (some env_name) (some path) = Checked.bail (ConfigError.two_secrets id)
secret o id none none = Checked.bail (ConfigError.no_secret id)
secret o id (some env_name) none = do
  v ← ok_or (o.var env_name) (ConfigError.secret_env_not_set id)
  _ ← bail_if (is_empty v) (ConfigError.secret_env_empty id)
  Checked.ok v
secret o id none (some path) = do
  bytes ← ok_or (o.read path) (ConfigError.secret_file_unreadable id)
  _ ← bail_if (is_empty (trim_trailing bytes)) (ConfigError.secret_file_empty id)
  Checked.ok (trim_trailing bytes)

unfoldable pub check_ids : List (Str × Unit {0}) → List SubscriberConfig → Checked (Unit {0})
unfolding Maps.contains_key Maps.insert
check_ids seen [] = Checked.ok tt
check_ids seen (s ∷ rest) = do
  _ ← bail_if (Maps.contains_key seen s.id) (ConfigError.duplicate_id s.id)
  check_ids (Maps.insert seen s.id tt) rest

unfoldable pub scheme_ok : Str → Bool
unfolding starts_with
scheme_ok url = starts_with (codes "http://") url || starts_with (codes "https://") url

unfoldable pub check_subscribers :
    Outside → List (Str × Bytes) → List SubscriberConfig → Checked (List (Str × Bytes))
unfolding scheme_ok secret Maps.insert
check_subscribers o secrets [] = Checked.ok secrets
check_subscribers o secrets (s ∷ rest) = do
  _ ← bail_if (not (scheme_ok s.url)) (ConfigError.bad_url s.id)
  k ← secret o s.id s.secret_env s.secret_file
  _ ← bail_if (s.retry.max_attempts == 0) (ConfigError.zero_attempts s.id)
  _ ← bail_if (ltb s.retry.max_delay_ms s.retry.base_delay_ms) (ConfigError.base_above_max s.id)
  check_subscribers o (Maps.insert secrets s.id k) rest

abbrev pub non_empty_host : Option Str → Option Str
non_empty_host none = none
non_empty_host (some h) = if is_empty h then none else some h

unfoldable pub resolve_instance_id : Outside → RelayConfig → Str
resolve_instance_id o relay =
    unwrap_or (or_else relay.instance_id (non_empty_host o.hostname)) (codes "purple-wolf-relay")

abbrev pub resolved : Outside → Config → List (Str × Bytes) → Option Str → Resolved
unfolding resolve_instance_id
resolved o cfg secrets admin_token = record {
  raw = cfg;
  subscriber_secrets = secrets;
  instance_id = resolve_instance_id o cfg.relay;
  admin_token = admin_token;
}

unfoldable pub validate : Outside → Config → Checked Resolved
unfolding check_ids check_subscribers resolve_admin_token
validate o cfg = do
  _ ← bail_if (is_empty cfg.sources) ConfigError.no_source
  _ ← bail_if (cfg.relay.subscriber_queue == 0) ConfigError.zero_queue
  _ ← check_ids [] cfg.subscribers
  secrets ← check_subscribers o [] cfg.subscribers
  admin_token ← resolve_admin_token o cfg.relay.admin_token_env cfg.relay.admin_token_file
  Checked.ok (resolved o cfg secrets admin_token)
