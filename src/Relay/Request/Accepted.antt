-- ===== src/Relay/Request/Accepted.antt =====
-- A subscriber that follows docs/webhook-protocol.md, and what it makes of the requests.
use purple_wolf.Prelude.Maps
use purple_wolf.Prelude.{
  ℕ, ◌++◌, ◌+◌, ◌-◌, ◌^◌, ◌≤◌, ◌∷◌, Bool, true, ◌&&◌, ◌≡◌, refl, leb, if◌then◌else◌, Option, none,
  some, ◌>>=◌, Str, Bytes, codes, show, parse_unsigned, parse_unsigned-show, str_eq, str_eq_refl,
  arith,
}
use purple_wolf.Relay.Envelope.{Envelope}
use purple_wolf.Relay.Request.{HttpSinkConfig, HttpRequest, request, headers_of}
use purple_wolf.Relay.Signer.{Crypto, Signer, payload, sign}

unfoldable pub is_fresh : ℕ → ℕ → Bool
is_fresh now t = leb t (now + 300) && leb now (t + 300)

-- The subscriber's checks on a request, in the words of the protocol: the timestamp is a number of 64 bits
-- and within 300 seconds of the clock, and the signature is that of the timestamp as it stands in the header,
-- a dot and the raw body. It takes the id of the event and the raw body.
unfoldable pub receive : Crypto → Bytes → ℕ → HttpRequest → Option (Str × Bytes)
receive c secret now r = do
  ts ← Maps.get r.headers (codes "x-purplewolf-timestamp")
  sig ← Maps.get r.headers (codes "x-purplewolf-signature")
  id ← Maps.get r.headers (codes "x-purplewolf-event-id")
  t ← parse_unsigned (2 ^ 64 - 1) ts
  if is_fresh now t && str_eq (codes "sha256=" ++ c.hex (c.hmac secret (ts ++ b'.' ∷ r.body))) sig
      then some (id, r.body)
      else none

module _ {J : Type 0} where
  headers-timestamp :
      (env : Envelope J) (attempt timestamp : ℕ) (sig : Str)
      → Maps.get (headers_of env attempt timestamp sig) (codes "x-purplewolf-timestamp")
        ≡ some (show timestamp)
  unfolding Maps.get headers_of str_eq
  headers-timestamp env attempt timestamp sig = refl

  headers-signature :
      (env : Envelope J) (attempt timestamp : ℕ) (sig : Str)
      → Maps.get (headers_of env attempt timestamp sig) (codes "x-purplewolf-signature") ≡ some sig
  unfolding Maps.get headers_of str_eq
  headers-signature env attempt timestamp sig = refl

  headers-event_id :
      (env : Envelope J) (attempt timestamp : ℕ) (sig : Str)
      → Maps.get (headers_of env attempt timestamp sig) (codes "x-purplewolf-event-id")
        ≡ some env.event_id
  unfolding Maps.get headers_of str_eq
  headers-event_id env attempt timestamp sig = refl

  receive-headers :
      (c : Crypto) (s : Signer) (env : Envelope J) (url : Str) (body : Bytes)
      (attempt timestamp now : ℕ)
      → timestamp ≤ 2 ^ 64 - 1
      → is_fresh now timestamp ≡ true
      → receive c s.secret now (record {
        url = url;
        headers = headers_of env attempt timestamp (sign c s timestamp body);
        body = body;
      })
        ≡ some (env.event_id, body)
  unfolding receive sign payload
  receive-headers c s env url body attempt timestamp now fits fresh =
      let sig = sign c s timestamp body in
      rw
        (
          headers-timestamp env attempt timestamp sig,
          headers-signature env attempt timestamp sig,
          headers-event_id env attempt timestamp sig,
          parse_unsigned-show (2 ^ 64 - 1) timestamp fits,
          fresh,
          str_eq_refl sig,
        )
        refl

  -- Whatever the envelope, the attempt and the secret, if the envelope serializes, the request of the attempt
  -- is accepted by a subscriber with the same secret whose clock is within 300 seconds, which gets the id of
  -- the event and the bytes of the envelope. Conditions: the timestamp is a 64-bit number.
  pub request-receive :
      (c : Crypto) (to_vec : Envelope J → Option Bytes) (cfg : HttpSinkConfig J) (env : Envelope J)
      (body : Bytes) (attempt timestamp now : ℕ)
      → to_vec env ≡ some body
      → timestamp ≤ 2 ^ 64 - 1
      → timestamp ≤ now + 300
      → now ≤ timestamp + 300
      → (request c to_vec cfg env attempt timestamp >>= receive c cfg.signer.secret now)
        ≡ some (env.event_id, body)
  unfolding request
  request-receive c to_vec cfg env body attempt timestamp now e fits late early = rw e (
      receive-headers c cfg.signer env cfg.url body attempt timestamp now fits
        (unfold is_fresh in ground arith))
