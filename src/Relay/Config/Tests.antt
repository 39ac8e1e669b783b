-- ===== src/Relay/Config/Tests.antt =====
-- Configurations checked, and the property of the checks at one of them.
use purple_wolf.Prelude.Maps
use purple_wolf.Prelude.{
  true, List, [], ◌∷◌, ◌++◌, Option, none, some, Str, Bytes, codes, str_eq, starts_with, trim,
  if◌then◌else◌, ◌≡◌, refl,
}
use purple_wolf.Relay.Config.Validated.{Valid, validate-Valid}
use purple_wolf.Relay.Config.{
  Config, SubscriberConfig, SourceConfig, Resolved, ConfigError, Checked, Outside,
  default_relay_config, default_retry_config, is_blank, skip_while, trim_trailing,
  resolve_admin_token, secret, check_ids, scheme_ok, check_subscribers, resolve_instance_id,
  resolved, validate,
}

program : Unit {0}
unfolding validate check_ids check_subscribers resolve_admin_token resolve_instance_id secret
    trim_trailing is_blank skip_while scheme_ok starts_with trim str_eq Maps.get Maps.insert
    Maps.contains_key resolved
program = tt

-- One variable and one file.
abbrev outside : Outside
unfolding str_eq
outside = record {
  var = λ name. if str_eq name (codes "KEY") then some (codes "k1") else none;
  read_to_string = λ path. none;
  read = λ path. some (codes "k2" ++ 10 ∷ []);
  hostname = some [];
}

abbrev subscriber : Str → Str → Option Str → Option Str → SubscriberConfig
subscriber id url env file = record {
  id = id;
  url = url;
  secret_env = env;
  secret_file = file;
  filter = record { labels = []; severity_min = none; blocked_rule_pattern = none };
  retry = default_retry_config;
  timeout_ms = 30000;
  enabled = true;
}

abbrev first : SubscriberConfig
first = subscriber (codes "a") (codes "https://a.test") (some (codes "KEY")) none

abbrev second : SubscriberConfig
second = subscriber (codes "b") (codes "http://b.test") none (some (codes "key"))

abbrev config : List SubscriberConfig → Config
config subs = record {
  sources = SourceConfig.stdin ∷ [];
  enrichments = [];
  subscribers = subs;
  relay = default_relay_config;
}

abbrev secrets : List (Str × Bytes)
secrets = (codes "a", codes "k1") ∷ (codes "b", codes "k2") ∷ []

abbrev two_subscribers : Resolved
unfolding resolve_instance_id
two_subscribers = resolved outside (config (first ∷ second ∷ [])) secrets none

accepted : validate outside (config (first ∷ second ∷ [])) ≡ Checked.ok two_subscribers
unfolding program two_subscribers
accepted = refl

named : two_subscribers.instance_id ≡ codes "purple-wolf-relay"
unfolding two_subscribers outside
named = refl

twice :
    validate outside (config (first ∷ first ∷ []))
    ≡ Checked.bail (ConfigError.duplicate_id (codes "a"))
unfolding program
twice = refl

not_http :
    validate outside (config (subscriber (codes "c") (codes "ftp://c") none none ∷ []))
    ≡ Checked.bail (ConfigError.bad_url (codes "c"))
unfolding program
not_http = refl

keyless :
    validate outside (config (subscriber (codes "c") (codes "http://c") none none ∷ []))
    ≡ Checked.bail (ConfigError.no_secret (codes "c"))
unfolding program
keyless = refl

validate-Valid_example : Valid (config (first ∷ second ∷ [])) two_subscribers
validate-Valid_example =
    validate-Valid outside (config (first ∷ second ∷ [])) two_subscribers accepted
