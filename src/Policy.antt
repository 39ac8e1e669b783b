-- ===== src/Policy.antt =====
-- crates/purple-wolf-core/src/policy.rs: `decide`, with `none` for an index out of range.
pub mod Worst
pub mod Laws
mod Tests
use purple_wolf.Detectors.{Group, Verdict, rank, Mode, GroupMode}
use purple_wolf.Prelude.{
  ◌>>=◌, ℕ, zero, suc, Bool, true, false, not, ◌&&◌, List, [], ◌∷◌, ◌++◌, Option, none, some, ltb,
  get_elem?, if◌then◌else◌,
}

pub data Action : Type 0 where
  allow block : Action

pub record Decision : Type 0 where
  pub action : Action
  pub blocked_by : Option Verdict
  pub would_block : List Verdict

unfoldable pub is_off : GroupMode → Bool
is_off GroupMode.off = true
is_off _ = false

-- `global == Mode::Enforce && gm == GroupMode::Enforce`.
unfoldable pub both_enforce : Mode → GroupMode → Bool
both_enforce Mode.enforce GroupMode.enforce = true
both_enforce _ _ = false

-- The first loop: the enforced pool and the verdicts that are only reported.
unfoldable pub partition :
    Mode
    → (Group → GroupMode)
    → List Verdict
    → List Verdict
    → List Verdict
    → List Verdict × List Verdict
unfolding is_off both_enforce
partition global group_mode [] pool would = (pool, would)
partition global group_mode (v ∷ vs) pool would =
    let gm = group_mode v.group in
    partition global group_mode vs
      (if is_off gm then pool else if both_enforce global gm then pool ++ v ∷ [] else pool)
      (if is_off gm then would else if both_enforce global gm then would else would ++ v ∷ [])

-- The second loop, from index `i` on; `idx` is the worst verdict so far.
unfoldable pub worst_index : List Verdict → ℕ → ℕ → List Verdict → Option ℕ
unfolding rank
worst_index pool idx i [] = some idx
worst_index pool idx i (v ∷ vs) = do
  w ← get_elem? pool idx
  worst_index pool (if ltb (rank w.severity) (rank v.severity) then i else idx) (suc i) vs

module _ {ℓ} {A : Type ℓ} where
  -- The last element of `x ∷ xs`, and what stands before it.
  unfoldable pub split_last : A → List A → List A × A
  split_last x [] = ([], x)
  split_last x (y ∷ ys) = let r = split_last y ys in (x ∷ r.0, r.1)

  -- `Vec::swap_remove`: the last element takes the place of the removed one.
  unfoldable pub swap_remove : List A → ℕ → Option (A × List A)
  unfolding split_last
  swap_remove [] i = none
  swap_remove (x ∷ []) zero = some (x, [])
  swap_remove (x ∷ y ∷ ys) zero = let r = split_last y ys in some (x, r.1 ∷ r.0)
  swap_remove (x ∷ xs) (suc i) = do (a, rest) ← swap_remove xs i; some (a, x ∷ rest)

-- `blocked_by`, and `would_block` with the demoted rest of the pool.
unfoldable pub choose : List Verdict → List Verdict → Option (Option Verdict × List Verdict)
unfolding worst_index swap_remove
choose [] would = some (none, would)
choose (v ∷ vs) would = do
  idx ← worst_index (v ∷ vs) 0 1 vs
  (chosen, rest) ← swap_remove (v ∷ vs) idx
  some (some chosen, would ++ rest)

abbrev pub action_of : Option Verdict → Action
action_of none = allow
action_of (some _) = block

unfoldable pub decide : List Verdict → Mode → (Group → GroupMode) → Option Decision
unfolding partition choose
decide verdicts global group_mode = do
  let parts = partition global group_mode verdicts [] []
  (blocked_by, would) ← choose parts.0 parts.1
  some (record { action = action_of blocked_by; blocked_by = blocked_by; would_block = would })
