-- ===== src/Reputation/Float.antt =====
-- `f64` and `Duration` as the token buckets use them. A `Duration` is its number of nanoseconds;
-- `f64` arithmetic is a parameter.
use purple_wolf.Prelude.{ℕ, Bool}

pub record Float (T : Type 0) : Type 0 where
  pub of_u32 : ℕ → T
  pub as_secs : ℕ → T
  pub add : T → T → T
  pub sub : T → T → T
  pub mul : T → T → T
  pub min : T → T → T
  pub ge : T → T → Bool
  pub zero : T
  pub one : T
