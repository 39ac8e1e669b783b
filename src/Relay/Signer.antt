-- ===== src/Relay/Signer.antt =====
-- The signer of the webhook bodies: crates/purple-wolf-relay/src/signer.rs. HMAC-SHA256 and the hex encoding
-- are parameters.
pub mod Binding
use purple_wolf.Prelude.{ℕ, ◌++◌, ◌∷◌, Str, Bytes, codes, show}

pub record Crypto : Type 0 where
  pub hmac : Bytes → Bytes → Bytes
  pub hex : Bytes → Str

pub record Signer : Type 0 where
  pub secret : Bytes

unfoldable pub new : Bytes → Signer
new secret = record { secret = secret }

-- What is signed.
unfoldable pub payload : ℕ → Bytes → Bytes
unfolding show
payload timestamp_secs body = show timestamp_secs ++ b'.' ∷ body

unfoldable pub sign : Crypto → Signer → ℕ → Bytes → Str
unfolding payload
sign c s timestamp_secs body =
    codes "sha256=" ++ c.hex (c.hmac s.secret (payload timestamp_secs body))
