-- ===== src/Relay/Request.antt =====
-- The request of a delivery attempt: `config_from` and the first half of `attempt_one` in
-- crates/purple-wolf-relay/src/subscribers/http.rs. The metrics handle of the configuration is left out.
pub mod Accepted
mod Tests
use purple_wolf.Prelude.{ℕ, List, [], ◌∷◌, Option, none, some, ◌>>=◌, Str, Bytes, codes, show}
use purple_wolf.Relay.Config.{SubscriberConfig}
use purple_wolf.Relay.Dlq.{Dlq}
use purple_wolf.Relay.Envelope.{Envelope, schema_v1}
use purple_wolf.Relay.Retry.{RetrySchedule, from_config}
use purple_wolf.Relay.Signer.{Crypto, Signer, sign}
use purple_wolf.Relay.Signer

pub record HttpSinkConfig (J : Type 0) : Type 0 where
  pub id : Str
  pub url : Str
  pub timeout : ℕ
  pub retry : RetrySchedule
  pub max_attempts : ℕ
  pub signer : Signer
  pub dlq : Dlq (Envelope J)

pub record HttpRequest : Type 0 where
  pub url : Str
  pub headers : List (Str × Str)
  pub body : Bytes

module _ {J : Type 0} where
  unfoldable pub config_from : SubscriberConfig → Bytes → Dlq (Envelope J) → HttpSinkConfig J
  unfolding from_config Signer.new
  config_from s secret dlq = record {
    id = s.id;
    url = s.url;
    timeout = s.timeout_ms;
    retry = from_config s.retry;
    max_attempts = s.retry.max_attempts;
    signer = Signer.new secret;
    dlq = dlq;
  }

  abbrev pub headers_of : Envelope J → ℕ → ℕ → Str → List (Str × Str)
  unfolding show
  headers_of env attempt timestamp signature =
      (codes "content-type", codes "application/json")
      ∷ (codes "x-purplewolf-schema", schema_v1)
      ∷ (codes "x-purplewolf-event-id", env.event_id)
      ∷ (codes "x-purplewolf-delivery-id", env.delivery_id)
      ∷ (codes "x-purplewolf-attempt", show attempt)
      ∷ (codes "x-purplewolf-timestamp", show timestamp)
      ∷ (codes "x-purplewolf-signature", signature)
      ∷ []

  -- `to_vec` is serde_json's; without its bytes nothing is sent.
  unfoldable pub request :
      Crypto
      → (Envelope J → Option Bytes)
      → HttpSinkConfig J
      → Envelope J
      → ℕ
      → ℕ
      → Option HttpRequest
  unfolding sign headers_of
  request c to_vec cfg env attempt timestamp = do
    body ← to_vec env
    some (record {
      url = cfg.url;
      headers = headers_of env attempt timestamp (sign c cfg.signer timestamp body);
      body = body;
    })
