-- ===== src/Relay/Dlq/Tests.antt =====
-- A run of the dead-letter queue, and its property at concrete envelopes.
use purple_wolf.Prelude.{ℕ, List, [], ◌∷◌, ◌≡◌, refl, arith}
use purple_wolf.Relay.Dlq.Ring.{push_all, kept, push_all-new}
use purple_wolf.Relay.Dlq.{Dlq, new, push}

abbrev ring : Dlq ℕ
ring = record { queue = 2 ∷ 3 ∷ []; overflow_count = 1; capacity = 2 }

overflowed : push_all (new 2) (1 ∷ 2 ∷ 3 ∷ []) ≡ ring
unfolding push_all new push
overflowed = refl

abbrev pushed : List ℕ
pushed = 1 ∷ 2 ∷ 3 ∷ []

push_all-new_example : push_all (new 2) pushed ≡ kept 2 pushed
push_all-new_example = push_all-new 2 pushed (omega arith)
