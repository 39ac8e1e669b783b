-- ===== src/Relay/Start/Tests.antt =====
-- A validated configuration, started.
use purple_wolf.Prelude.Maps
use purple_wolf.Prelude.{
  ℕ, ◌^◌, ◌-◌, leb, all, arith, Bool, true, false, [], ◌∷◌, map, keep, length, none, some, Str,
  codes, str_eq, starts_with, trim, ◌≡◌, refl,
}
use purple_wolf.Relay.Config.{
  Config, EnricherConfig, SubscriberConfig, SourceConfig, Resolved, Checked, Outside,
  default_relay_config, default_retry_config, is_blank, skip_while, trim_trailing,
  resolve_admin_token, secret, check_ids, scheme_ok, check_subscribers, resolve_instance_id,
  resolved, validate,
}
use purple_wolf.Relay.Enrichers
use purple_wolf.Relay.Sources
use purple_wolf.Relay.Start.Ready.{Serve, validate-start}
use purple_wolf.Relay.Start.{Limits, can_build, Started, start}
use purple_wolf.Relay.Supervisor.{spawned}

-- Every variable is set.
abbrev outside : Outside
outside = record {
  var = λ name. some (codes "k");
  read_to_string = λ path. none;
  read = λ path. none;
  hostname = none;
}

abbrev subscriber : Str → Bool → SubscriberConfig
subscriber id enabled = record {
  id = id;
  url = codes "https://a.test";
  secret_env = some (codes "KEY");
  secret_file = none;
  filter = record { labels = []; severity_min = none; blocked_rule_pattern = none };
  retry = default_retry_config;
  timeout_ms = 30000;
  enabled = enabled;
}

abbrev config : Config
config = record {
  sources = SourceConfig.stdin ∷ SourceConfig.log_tail (codes "/var/log/a") true ∷ [];
  enrichments = EnricherConfig.http (codes "tenant") (codes "http://h/{value}") 100 60 1024 ∷ [];
  subscribers = subscriber (codes "a") true ∷ subscriber (codes "b") false ∷ [];
  relay = default_relay_config;
}

abbrev passed : Resolved
unfolding resolve_instance_id
passed = resolved outside config ((codes "a", codes "k") ∷ (codes "b", codes "k") ∷ []) none

accepted : validate outside config ≡ Checked.ok passed
unfolding validate check_ids check_subscribers resolve_admin_token resolve_instance_id secret
    trim_trailing is_blank skip_while scheme_ok starts_with trim str_eq Maps.get Maps.insert
    Maps.contains_key passed
accepted = refl

named :
    map Sources.id_of (map Sources.build config.sources)
    ≡ codes "stdin" ∷ codes "log_tail:/var/log/a" ∷ []
unfolding Sources.id_of Sources.build
named = refl

-- The most permits of tokio's semaphore on 64 bits, and an allocator for a million entries.
abbrev limits : Limits
limits = record { max_permits = 2 ^ 61 - 1; client_builds = true; allocates = λ n. leb n 1_000_000 }

all_fit : all (can_build limits) config.enrichments ≡ true
unfolding all can_build
all_fit = refl

validate-start_example :
    (st : Started ℕ) × (start limits passed ≡ some st)
    × Serve (keep (λ s. s.enabled) config.subscribers) st.subscribers
    × (st.enrichers ≡ map Enrichers.build config.enrichments)
    × (st.sources ≡ map Sources.build config.sources)
    × (st.tasks ≡ spawned (length config.sources) (length st.subscribers))
validate-start_example = validate-start limits outside config passed accepted (omega arith) all_fit
