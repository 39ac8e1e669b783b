-- ===== src/Relay/Signer/Binding.antt =====
-- What a signature binds.
use purple_wolf.Prelude.{
  ℕ, ◌++◌, [], ◌∷◌, true, ◌≡◌, ◌≢◌, ◌⊎◌, inl, inr, some, refl, all, is_digit, Str, Bytes, show,
  show-digits, parse_unsigned, parse_unsigned-show, str_eq, str_eq_iff, Bool-cases, max, arith,
}
use purple_wolf.Relay.Signer.{Crypto, Signer, payload, sign}

-- Digits up to a dot are determined by the text.
digits-dot :
    (a b : Str) (x y : Bytes)
    → all is_digit a ≡ true
    → all is_digit b ≡ true
    → a ++ b'.' ∷ x ≡ b ++ b'.' ∷ y
    → (a ≡ b) × (x ≡ y)
unfolding all
digits-dot [] [] x y p q e = (refl, cc)
digits-dot [] (d ∷ b) x y p q e = absurd (ground arith)
digits-dot (c ∷ a) [] x y p q e = absurd (ground arith)
digits-dot (c ∷ a) (d ∷ b) x y p q e =
    let (e', f) = digits-dot a b x y (ground arith) (ground arith) (cc) in (cc, f)

show-injective : (m n : ℕ) → show m ≡ show n → m ≡ n
show-injective m n e =
    let a : parse_unsigned (max m n) (show m) ≡ some m =
      parse_unsigned-show (max m n) m (omega arith) in
    let b : parse_unsigned (max m n) (show n) ≡ some n =
      parse_unsigned-show (max m n) n (omega arith) in
    cc

pub payload-injective : (t u : ℕ) (x y : Bytes) → payload t x ≡ payload u y → (t ≡ u) × (x ≡ y)
unfolding payload
payload-injective t u x y e =
    let (d, f) = digits-dot (show t) (show u) x y (show-digits t) (show-digits u) e in
    (show-injective t u d, f)

-- If two signatures under one secret agree, then they are for the same time and the same body, or the MAC
-- has a collision: two different texts with one value under that secret. Conditions: different bytes have
-- different hex texts.
pub sign-binds :
    (c : Crypto) (s : Signer) (t u : ℕ) (x y : Bytes)
    → ((a b : Bytes) → c.hex a ≡ c.hex b → a ≡ b)
    → sign c s t x ≡ sign c s u y
    → ((t ≡ u) × (x ≡ y))
      ⊎ ((payload t x ≢ payload u y)
          × (c.hmac s.secret (payload t x) ≡ c.hmac s.secret (payload u y)))
unfolding sign
sign-binds c s t u x y hex e = elim (Bool-cases (str_eq (payload t x) (payload u y))) [
  | inl same ↦ inl (payload-injective t u x y ((str_eq_iff _ _).0 same))
  | inr other ↦ inr (λ p. cc ((str_eq_iff (payload t x) (payload u y)).1 p), hex _ _ (cc))
]
