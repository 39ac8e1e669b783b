-- ===== src/Reputation/Tests.antt =====
-- Runs of the token buckets and of the detector, with times in nanoseconds and tokens in units of
-- 1e-9, over addresses that are numbers; and the theorems at such inputs.
use native.Mathlib.Decide.{ℕ_discrete as dec}
use purple_wolf.Prelude.{
  map, ℕ, ◌+◌, ◌-◌, ◌*◌, ◌/◌, ◌≤◌, min, leb, Bool, true, false, List, [], ◌∷◌, length, Option, none,
  some, show, ◌≡◌, refl, arith,
}
use purple_wolf.Detectors.{Verdict}
use purple_wolf.Reputation.Detect.Runs.{run_inspects, tag, expected_all, run_inspects-with_capacity}
use purple_wolf.Reputation.Detect.{ReputationDetector, with_capacity}
use purple_wolf.Reputation.Float.{Float}
use purple_wolf.Reputation.Lru.Runs.{run_checks, spec_run, Ran, run_checks-new}
use purple_wolf.Reputation.Lru.Spec.{lookup_ip, remove_ip, spec_check, slot_of}
use purple_wolf.Reputation.Lru.{
  nil, LruTokenBuckets, update_node, set_next, set_prev, link_next, link_prev, unlink, push_front,
  touch, index_insert, index_remove, forget_ip, evict_slot, evict_tail, acquire_slot, consume,
  refill, check_known, check_new, check, new,
}

-- Fixed-point numbers in place of `f64`.
abbrev fixed : Float ℕ
fixed = record {
  of_u32 = λ n. n * 1_000_000_000;
  as_secs = λ t. t;
  add = ◌+◌;
  sub = ◌-◌;
  mul = λ a b. a * b / 1_000_000_000;
  min = min;
  ge = λ a b. leb b a;
  zero = 0;
  one = 1_000_000_000;
}

program : Unit {0}
unfolding new nil update_node set_next set_prev link_next link_prev unlink push_front touch
    index_insert index_remove forget_ip evict_slot evict_tail acquire_slot consume refill
    check_known check_new check run_checks spec_run spec_check lookup_ip remove_ip slot_of dec
program = tt

abbrev answers : Option (LruTokenBuckets ℕ ℕ × List Bool) → List Bool
answers none = []
answers (some (s, bs)) = bs

abbrev size : Option (LruTokenBuckets ℕ ℕ × List Bool) → ℕ
size none = 0
size (some (s, bs)) = length s.slab

-- Two addresses fit; the third evicts the first, which then starts with a full bucket again.
abbrev rotation : List (ℕ × ℕ)
rotation = (0, 7) ∷ (0, 7) ∷ (0, 8) ∷ (0, 9) ∷ (0, 7) ∷ (1_000_000_000, 9) ∷ (1_000_000_000, 9) ∷ []

rotates :
    answers (run_checks dec fixed rotation (new 1 2))
    ≡ true ∷ false ∷ true ∷ true ∷ true ∷ true ∷ false ∷ []
unfolding program
rotates = refl

rotation_bounded : size (run_checks dec fixed rotation (new 1 2)) ≡ 2
unfolding program
rotation_bounded = refl

room : 2 ≤ nil
unfolding nil
room = omega arith

run_checks-new_example :
    Ran dec fixed (run_checks dec fixed rotation (new 1 2)) 2 (spec_run dec fixed 1 2 rotation [])
run_checks-new_example = run_checks-new dec fixed 1 2 rotation room

run_inspects-with_capacity_example :
    (last : ReputationDetector ℕ ℕ) × (verdicts : List (List Verdict)) × (run_inspects dec fixed
        show rotation
        (with_capacity dec 1 (8 ∷ []) 2)
      ≡ some (last, verdicts))
    × (map (map tag) verdicts
        ≡ expected_all dec (8 ∷ []) rotation (spec_run dec fixed 1 2 rotation []).1)
run_inspects-with_capacity_example =
    run_inspects-with_capacity dec fixed show 1 (8 ∷ []) 2 rotation room
