-- ===== src/Relay/Start.antt =====
-- The first half of `run` in crates/purple-wolf-relay/src/pipeline.rs: the enrichers, the subscribers and
-- their sinks, and the sources, from the validated configuration.
pub mod Ready
mod Tests
use purple_wolf.Prelude.Maps
use purple_wolf.Prelude.{
  ℕ, Bool, true, false, leb, ◌&&◌, if◌then◌else◌, List, [], ◌∷◌, map, length, Option, none, some,
  ◌>>=◌, Str, Bytes,
}
use purple_wolf.Relay.Config.{Config, Resolved, SubscriberConfig, EnricherConfig, lookup, http}
use purple_wolf.Relay.Dlq
use purple_wolf.Relay.Enrichers
use purple_wolf.Relay.Enrichers.{Enricher}
use purple_wolf.Relay.Filter.{compile}
use purple_wolf.Relay.Pipeline.{PerSubscriber}
use purple_wolf.Relay.Request.{HttpSinkConfig, config_from}
use purple_wolf.Relay.Sources
use purple_wolf.Relay.Sources.{Source}
use purple_wolf.Relay.Supervisor.{System, spawned}

abbrev pub dlq_capacity : ℕ
dlq_capacity = 1000

-- A subscriber's end in the fan-out, and its sink.
abbrev pub Subscriber : Type 0 → Type 0
Subscriber J = PerSubscriber J × HttpSinkConfig J

-- What other code allows: the most permits of a semaphore of tokio, whether reqwest builds a client, and
-- whether a cache with room for so many entries can be allocated.
pub record Limits : Type 0 where
  pub max_permits : ℕ
  pub client_builds : Bool
  pub allocates : ℕ → Bool

-- Where an enricher can be built; otherwise `expect` or `with_capacity` panics.
unfoldable pub can_build : Limits → EnricherConfig → Bool
can_build limits (lookup on_label table) = true
can_build limits (http on_label url timeout_ms cache_ttl_s cache_capacity) =
    limits.client_builds && limits.allocates cache_capacity

-- The enrichers; `none` is a panic.
unfoldable pub build_enrichers : Limits → List EnricherConfig → Option (List Enricher)
unfolding Enrichers.build can_build
build_enrichers limits [] = some []
build_enrichers limits (e ∷ es) =
    let rest = build_enrichers limits es in
    if can_build limits e
    then (rest >>= λ enrichers. some (Enrichers.build e ∷ enrichers))
    else none

module _ {J : Type 0} where
  unfoldable pub subscriber_of : ℕ → SubscriberConfig → Bytes → Subscriber J
  unfolding config_from compile Dlq.new
  subscriber_of subscriber_queue s secret =
      let cfg = config_from s secret (Dlq.new dlq_capacity) in
      (
        record {
          id = cfg.id;
          filter = compile s.filter;
          queue = [];
          room = subscriber_queue;
          is_open = true;
        },
        cfg,
      )

  -- `none` is a panic of `mpsc::channel`, which takes neither 0 nor more than the most permits.
  unfoldable pub start_subscriber : Limits → ℕ → SubscriberConfig → Bytes → Option (Subscriber J)
  unfolding subscriber_of
  start_subscriber limits subscriber_queue s secret =
      if leb 1 subscriber_queue && leb subscriber_queue limits.max_permits
      then some (subscriber_of subscriber_queue s secret)
      else none

  -- The loop over the subscribers; `none` is the error of an id without a secret, or a panic.
  unfoldable pub start_subscribers :
      Limits → ℕ → List (Str × Bytes) → List SubscriberConfig → Option (List (Subscriber J))
  unfolding start_subscriber Maps.get
  start_subscribers limits subscriber_queue secrets [] = some []
  start_subscribers limits subscriber_queue secrets (s ∷ rest) =
      let others = start_subscribers limits subscriber_queue secrets rest in
      if s.enabled
      then (Maps.get secrets s.id >>= λ secret.
          start_subscriber limits subscriber_queue s secret >>= λ sub.
          others >>= λ subs. some (sub ∷ subs))
      else others

-- What is there when the supervision begins.
pub record Started (J : Type 0) : Type 0 where
  pub enrichers : List Enricher
  pub subscribers : List (Subscriber J)
  pub sources : List Source
  pub tasks : System

unfoldable pub start : {J : Type 0} → Limits → Resolved → Option (Started J)
unfolding build_enrichers start_subscribers Sources.build spawned
start limits resolved = do
  enrichers ← build_enrichers limits resolved.raw.enrichments
  subs ←
      start_subscribers limits resolved.raw.relay.subscriber_queue resolved.subscriber_secrets
        resolved.raw.subscribers
  let sources = map Sources.build resolved.raw.sources
  some (record {
    enrichers = enrichers;
    subscribers = subs;
    sources = sources;
    tasks = spawned (length sources) (length subs);
  })
