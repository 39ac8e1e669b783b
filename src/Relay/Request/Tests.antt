-- ===== src/Relay/Request/Tests.antt =====
-- A request at a concrete envelope, received, and what its signature binds.
use purple_wolf.Prelude.Maps
use purple_wolf.Prelude.{
  ℕ, true, ◌++◌, [], Option, none, some, ◌>>=◌, ◌≡◌, ◌≢◌, ◌⊎◌, refl, Bytes, codes, parse_unsigned,
  str_eq, arith,
}
use purple_wolf.Relay.Config.{SubscriberConfig, default_retry_config}
use purple_wolf.Relay.Dlq
use purple_wolf.Relay.Envelope.{Envelope}
use purple_wolf.Relay.Request.{HttpSinkConfig, config_from, request}
use purple_wolf.Relay.Request.Accepted.{receive, is_fresh, request-receive}
use purple_wolf.Relay.Signer.{Crypto, Signer, payload, sign}
use purple_wolf.Relay.Signer.Binding.{sign-binds}

-- A MAC that is no good but can be followed: the key and the text.
abbrev toy : Crypto
toy = record { hmac = λ k t. k ++ t; hex = λ b. b }

abbrev subscriber : SubscriberConfig
subscriber = record {
  id = codes "siem";
  url = codes "https://siem/in";
  secret_env = none;
  secret_file = none;
  filter = record { labels = []; severity_min = none; blocked_rule_pattern = none };
  retry = default_retry_config;
  timeout_ms = 30000;
  enabled = true;
}

abbrev envelope : Envelope ℕ
envelope = record {
  schema = codes "purple-wolf.audit/v1";
  event_id = codes "01A";
  delivery_id = codes "01B";
  delivered_at = 5;
  attempt = 1;
  labels = [];
  source = record {
    middleware = none;
    router = none;
    entry_point = none;
    relay_instance = codes "r";
  };
  event = 3;
}

abbrev cfg : HttpSinkConfig ℕ
unfolding config_from Dlq.new
cfg = config_from subscriber (codes "key") (Dlq.new 1000)

abbrev to_vec : Envelope ℕ → Option Bytes
to_vec env = some (codes "{}")

program : Unit {0}
unfolding request receive is_fresh Maps.get parse_unsigned str_eq sign cfg
program = tt

signed : sign toy cfg.signer 17 (codes "{}") ≡ codes "sha256=key17.{}"
unfolding sign cfg
signed = refl

-- A request that is a second older than the window is refused.
stale : (request toy to_vec cfg envelope 1 1000 >>= receive toy (codes "key") 1301) ≡ none
unfolding program
stale = refl

request-receive_example :
    (request toy to_vec cfg envelope 2 1000 >>= receive toy cfg.signer.secret 1290)
    ≡ some (codes "01A", codes "{}")
request-receive_example =
    request-receive toy to_vec cfg envelope (codes "{}") 2 1000 1290 refl (omega arith)
      (omega arith) (omega arith)

-- A MAC that forgets the text, so that signatures say nothing of it.
abbrev weak : Crypto
weak = record { hmac = λ k t. k; hex = λ b. b }

abbrev signer : Signer
signer = record { secret = codes "key" }

same_signature : sign weak signer 17 (codes "{}") ≡ sign weak signer 18 (codes "[]")
unfolding sign
same_signature = refl

sign-binds_example :
    ((◌≡◌ {A = ℕ} 17 18) × (codes "{}" ≡ codes "[]"))
    ⊎ ((payload 17 (codes "{}") ≢ payload 18 (codes "[]"))
        × (weak.hmac signer.secret (payload 17 (codes "{}"))
            ≡ weak.hmac signer.secret (payload 18 (codes "[]"))))
sign-binds_example =
    sign-binds weak signer 17 18 (codes "{}") (codes "[]") (λ a b e. e) same_signature
