-- ===== src/Relay/Dlq.antt =====
-- The dead-letter queue of crates/purple-wolf-relay/src/subscribers/dlq.rs, for envelopes of any type.
pub mod Ring
mod Tests
use purple_wolf.Prelude.{
  ℕ, ◌+◌, ◌-◌, ◌^◌, min, Bool, leb, ◌==◌, if◌then◌else◌, List, [], ◌∷◌, ◌++◌, length, drop,
}

-- The queue, head first. The lock makes every method one step.
pub record Dlq (E : Type 0) : Type 0 where
  pub queue : List E
  pub overflow_count : ℕ
  pub capacity : ℕ

module _ {E : Type 0} where
  unfoldable pub new : ℕ → Dlq E
  new capacity = record { queue = []; overflow_count = 0; capacity = capacity }

  -- `pop_front` is `drop 1`.
  unfoldable pub push : Dlq E → E → Dlq E
  push d env =
      let full = leb d.capacity (length d.queue) in
      record {
        queue = (if full then drop 1 d.queue else d.queue) ++ env ∷ [];
        overflow_count = if full then min (2 ^ 64 - 1) (d.overflow_count + 1) else d.overflow_count;
        capacity = d.capacity;
      }

  unfoldable pub len : Dlq E → ℕ
  len d = length d.queue

  unfoldable pub is_empty : Dlq E → Bool
  unfolding len
  is_empty d = len d == 0

  unfoldable pub drain_all : Dlq E → Dlq E × List E
  drain_all d = (record d { queue = [] }, d.queue)

  unfoldable pub snapshot : Dlq E → List E
  snapshot d = d.queue
