-- ===== src/Relay/Tasks/Weights.antt =====
-- How many steps tasks can still take part in.
use purple_wolf.Prelude.{ℕ, zero, suc, ◌+◌, ◌*◌, ◌≤◌, ◌<◌, Bool, ◌≡◌, List, [], ◌∷◌, arith}
use purple_wolf.Relay.Tasks.{
  Joined, Task, running, aborting, leaving, done, abort, abort_all, Acts, leave, leave_late, crash,
  crash_late, yielded, finish, OneActs, Joins, spawn_all,
}

module _ {A : Type 0} where
  -- How many steps a task can still take part in.
  abbrev pub weight : Task A → ℕ
  weight running = 4
  weight aborting = 3
  weight (leaving a) = 2
  weight (done j) = 1

  unfoldable pub weights : List (Task A) → ℕ
  weights [] = 0
  weights (t ∷ ts) = weight t + weights ts

  pub abort-weight : (t : Task A) → weight (abort t) ≤ weight t
  unfolding abort
  abort-weight running = omega arith
  abort-weight aborting = omega arith
  abort-weight (leaving a) = omega arith
  abort-weight (done j) = omega arith

  pub abort_all-weights : (ts : List (Task A)) → weights (abort_all ts) ≤ weights ts
  unfolding weights abort_all
  abort_all-weights [] = omega arith
  abort_all-weights (t ∷ ts) = omega (arith, abort-weight t, abort_all-weights ts)

  pub Acts-weight :
      {storm : Bool} {Permit : A → Type 0} {t t' : Task A}
      → Acts storm Permit t t'
      → weight t' < weight t
  Acts-weight (leave a p) = omega arith
  Acts-weight (leave_late a p) = omega arith
  Acts-weight (crash e) = omega arith
  Acts-weight (crash_late e) = omega arith
  Acts-weight yielded = omega arith
  Acts-weight (finish a) = omega arith

  pub OneActs-weights :
      {storm : Bool} {Permit : A → Type 0} {ts ts' : List (Task A)}
      → OneActs storm Permit ts ts'
      → weights ts' < weights ts
  unfolding weights
  OneActs-weights (OneActs.here a) = omega (arith, Acts-weight a)
  OneActs-weights (OneActs.there o) = omega (arith, OneActs-weights o)

  pub Joins-weights :
      {j : Joined A} {ts ts' : List (Task A)} → Joins ts j ts' → weights ts' < weights ts
  unfolding weights
  Joins-weights Joins.here = omega arith
  Joins-weights (Joins.there o) = omega (arith, Joins-weights o)

pub spawn_all-weights : (A : Type 0) (n : ℕ) → weights (spawn_all {A = A} n) ≡ 4 * n
unfolding weights spawn_all
spawn_all-weights A zero = omega arith
spawn_all-weights A (suc n) = omega (arith, spawn_all-weights A n)
