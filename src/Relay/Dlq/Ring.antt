-- ===== src/Relay/Dlq/Ring.antt =====
-- What the dead-letter queue keeps.
use purple_wolf.Prelude.{
  ℕ, ◌+◌, ◌-◌, ◌^◌, ◌<◌, ◌≤◌, min, leb, List, [], ◌∷◌, ◌++◌, length, drop, ◌≡◌, ap, ◌∙◌,
  length-drop, length-append, drop-append_le, drop-drop, append_assoc, append-nil, inl, inr,
  Bool-cases, arith,
}
use purple_wolf.Relay.Dlq.{Dlq, new, push}

module _ {E : Type 0} where
  unfoldable pub push_all : Dlq E → List E → Dlq E
  push_all d [] = d
  push_all d (x ∷ xs) = push_all (push d x) xs

  -- The queue behind the envelopes `xs`.
  abbrev pub kept : ℕ → List E → Dlq E
  kept capacity xs = record {
    queue = drop (length xs - capacity) xs;
    overflow_count = min (2 ^ 64 - 1) (length xs - capacity);
    capacity = capacity;
  }

  push-kept :
      (capacity : ℕ) (xs : List E) (x : E)
      → 0 < capacity
      → push (kept capacity xs) x ≡ kept capacity (xs ++ x ∷ [])
  unfolding push
  push-kept capacity xs x room =
      elim (Bool-cases (leb capacity (length (drop (length xs - capacity) xs)))) [
        | inl full ↦
            let n : length (xs ++ x ∷ []) - capacity ≡ (length xs - capacity) + 1 =
              ground
                (arith, full, length-append xs (x ∷ []), length-drop (length xs - capacity) xs) in
            let fits : (length xs - capacity) + 1 ≤ length xs =
              ground (arith, full, length-drop (length xs - capacity) xs) in
            let c : min (2 ^ 64 - 1) (min (2 ^ 64 - 1) (length xs - capacity) + 1)
                ≡ min (2 ^ 64 - 1) ((length xs - capacity) + 1) =
              omega arith in
            rw (
              full,
              n,
              c,
              drop-drop (length xs - capacity) 1 xs,
              drop-append_le ((length xs - capacity) + 1) xs (x ∷ []) fits,
            )
        | inr free ↦
            let n : length (xs ++ x ∷ []) - capacity ≡ 0 =
              ground
                (arith, free, length-append xs (x ∷ []), length-drop (length xs - capacity) xs) in
            let z : length xs - capacity ≡ 0 =
              ground (arith, free, length-drop (length xs - capacity) xs) in
            rw (free, n, z)
      ]

  push_all-kept :
      (capacity : ℕ) (xs ys : List E)
      → 0 < capacity
      → push_all (kept capacity xs) ys ≡ kept capacity (xs ++ ys)
  unfolding push_all
  push_all-kept capacity xs [] room = rw (append-nil xs)
  push_all-kept capacity xs (y ∷ ys) room = rw (push-kept capacity xs y room) (
      push_all-kept capacity (xs ++ y ∷ []) ys room
      ∙ ap (kept capacity) (append_assoc xs (y ∷ []) ys))

  kept-nil :
      (capacity : ℕ)
      → kept capacity [] ≡ record { queue = []; overflow_count = 0; capacity = capacity }
  kept-nil capacity =
      let e : 0 - capacity ≡ 0 = omega arith in
      let c : min (2 ^ 64 - 1) 0 ≡ 0 = omega arith in rw (e, c)

  -- A queue with room for an envelope keeps, of all that were pushed, the most recent ones up to its
  -- capacity, oldest first, and counts the others, up to the greatest number of 64 bits.
  pub push_all-new :
      (capacity : ℕ) (xs : List E) → 0 < capacity → push_all (new capacity) xs ≡ kept capacity xs
  unfolding new
  push_all-new capacity xs room = rw (← kept-nil capacity) (push_all-kept capacity [] xs room)
