-- ===== src/Relay/Envelope.antt =====
-- `Envelope` of crates/purple-wolf-relay/src/envelope.rs. `J` is the type of JSON values; a fresh ULID
-- and the reading of the clock are arguments.
use purple_wolf.Prelude.{ℕ, List, Option, Str, codes}

pub record EnvelopeSource : Type 0 where
  pub middleware : Option Str
  pub router : Option Str
  pub entry_point : Option Str
  pub relay_instance : Str

pub record Envelope (J : Type 0) : Type 0 where
  pub schema : Str
  pub event_id : Str
  pub delivery_id : Str
  pub delivered_at : ℕ
  pub attempt : ℕ
  pub labels : List (Str × Str)
  pub source : EnvelopeSource
  pub event : J

abbrev pub schema_v1 : Str
schema_v1 = codes "purple-wolf.audit/v1"

module _ {J : Type 0} where
  unfoldable pub new : J → EnvelopeSource → List (Str × Str) → Str → ℕ → Envelope J
  new event source labels ulid now = record {
    schema = schema_v1;
    event_id = ulid;
    delivery_id = ulid;
    delivered_at = now;
    attempt = 1;
    labels = labels;
    source = source;
    event = event;
  }

  unfoldable pub with_attempt : Envelope J → ℕ → Str → ℕ → Envelope J
  with_attempt e n ulid now = record e { delivery_id = ulid; delivered_at = now; attempt = n }
