-- ===== src/Relay/Tasks/Faults.antt =====
-- Which tasks have gone wrong or were aborted.
use purple_wolf.Prelude.{ℕ, zero, suc, Bool, true, false, ◌||◌, ◌≡◌, refl, List, [], ◌∷◌, arith}
use purple_wolf.Relay.Tasks.{
  Joined, finished, cancelled, panicked, Task, running, aborting, leaving, done, abort, abort_all,
  Acts, leave, leave_late, crash, crash_late, yielded, finish, OneActs, Joins, spawn_all,
}

-- Whether a task has gone wrong: it panicked, or its result is bad.
module _ {A : Type 0} (bad : A → Bool) where
  abbrev pub bad_end : Joined A → Bool
  bad_end (finished a) = bad a
  bad_end cancelled = false
  bad_end panicked = true

  abbrev pub went_bad : Task A → Bool
  went_bad running = false
  went_bad aborting = false
  went_bad (leaving a) = bad a
  went_bad (done j) = bad_end j

  unfoldable pub any_bad : List (Task A) → Bool
  any_bad [] = false
  any_bad (t ∷ ts) = went_bad t || any_bad ts

  pub Acts-went_bad :
      {storm : Bool} {Permit : A → Type 0} {t t' : Task A}
      → Acts storm Permit t t'
      → went_bad t ≡ true
      → went_bad t' ≡ true
  Acts-went_bad (leave a p) h = cc
  Acts-went_bad (leave_late a p) h = cc
  Acts-went_bad (crash e) h = refl
  Acts-went_bad (crash_late e) h = refl
  Acts-went_bad yielded h = cc
  Acts-went_bad (finish a) h = h

  pub OneActs-any_bad :
      {storm : Bool} {Permit : A → Type 0} {ts ts' : List (Task A)}
      → OneActs storm Permit ts ts'
      → any_bad ts ≡ true
      → any_bad ts' ≡ true
  unfolding any_bad
  OneActs-any_bad (OneActs.here a) h = ground (arith, Acts-went_bad a)
  OneActs-any_bad (OneActs.there o) h = ground (arith, OneActs-any_bad o)

  pub Joins-any_bad :
      {j : Joined A} {ts ts' : List (Task A)}
      → Joins ts j ts'
      → any_bad ts ≡ (bad_end j || any_bad ts')
  unfolding any_bad
  Joins-any_bad Joins.here = refl
  Joins-any_bad (Joins.there o) = ground (arith, Joins-any_bad o)

  pub abort-went_bad : (t : Task A) → went_bad (abort t) ≡ went_bad t
  unfolding abort
  abort-went_bad running = refl
  abort-went_bad aborting = refl
  abort-went_bad (leaving a) = refl
  abort-went_bad (done j) = refl

  pub abort_all-any_bad : (ts : List (Task A)) → any_bad (abort_all ts) ≡ any_bad ts
  unfolding any_bad abort_all
  abort_all-any_bad [] = refl
  abort_all-any_bad (t ∷ ts) = ground (arith, abort-went_bad t, abort_all-any_bad ts)

  -- Without a storm a task goes wrong only by a bad result, if one is permitted.
  pub Acts-went_well :
      {Permit : A → Type 0} {t t' : Task A}
      → ((a : A) → Permit a → bad a ≡ false)
      → Acts false Permit t t'
      → went_bad t ≡ false
      → went_bad t' ≡ false
  Acts-went_well w (leave a p) h = w a p
  Acts-went_well w (leave_late a p) h = w a p
  Acts-went_well w (crash e) h = cc
  Acts-went_well w (crash_late e) h = cc
  Acts-went_well w yielded h = refl
  Acts-went_well w (finish a) h = h

  pub OneActs-any_well :
      {Permit : A → Type 0} {ts ts' : List (Task A)}
      → ((a : A) → Permit a → bad a ≡ false)
      → OneActs false Permit ts ts'
      → any_bad ts ≡ false
      → any_bad ts' ≡ false
  unfolding any_bad
  OneActs-any_well w (OneActs.here {t} {t'} a) h = ground (arith, Acts-went_well w a)
  OneActs-any_well w (OneActs.there o) h = ground (arith, OneActs-any_well w o)

-- Whether a task has been aborted and has not left by itself since.
module _ {A : Type 0} where
  abbrev pub end_aborted : Joined A → Bool
  end_aborted (finished a) = false
  end_aborted cancelled = true
  end_aborted panicked = false

  abbrev pub was_aborted : Task A → Bool
  was_aborted running = false
  was_aborted aborting = true
  was_aborted (leaving a) = false
  was_aborted (done j) = end_aborted j

  unfoldable pub any_aborted : List (Task A) → Bool
  any_aborted [] = false
  any_aborted (t ∷ ts) = was_aborted t || any_aborted ts

  pub Acts-was_aborted :
      {storm : Bool} {Permit : A → Type 0} {t t' : Task A}
      → Acts storm Permit t t'
      → was_aborted t ≡ false
      → was_aborted t' ≡ false
  Acts-was_aborted (leave a p) h = refl
  Acts-was_aborted (leave_late a p) h = refl
  Acts-was_aborted (crash e) h = refl
  Acts-was_aborted (crash_late e) h = refl
  Acts-was_aborted yielded h = cc
  Acts-was_aborted (finish a) h = refl

  pub OneActs-any_aborted :
      {storm : Bool} {Permit : A → Type 0} {ts ts' : List (Task A)}
      → OneActs storm Permit ts ts'
      → any_aborted ts ≡ false
      → any_aborted ts' ≡ false
  unfolding any_aborted
  OneActs-any_aborted (OneActs.here a) h = ground (arith, Acts-was_aborted a)
  OneActs-any_aborted (OneActs.there o) h = ground (arith, OneActs-any_aborted o)

  pub Joins-any_aborted :
      {j : Joined A} {ts ts' : List (Task A)}
      → Joins ts j ts'
      → any_aborted ts ≡ (end_aborted j || any_aborted ts')
  unfolding any_aborted
  Joins-any_aborted Joins.here = refl
  Joins-any_aborted (Joins.there o) = ground (arith, Joins-any_aborted o)

pub spawn_all-any_aborted : (A : Type 0) (n : ℕ) → any_aborted (spawn_all {A = A} n) ≡ false
unfolding any_aborted spawn_all
spawn_all-any_aborted A zero = refl
spawn_all-any_aborted A (suc n) = spawn_all-any_aborted A n

pub spawn_all-any_bad : {A : Type 0} (bad : A → Bool) (n : ℕ) → any_bad bad (spawn_all n) ≡ false
unfolding any_bad spawn_all
spawn_all-any_bad bad zero = refl
spawn_all-any_bad bad (suc n) = spawn_all-any_bad bad n
