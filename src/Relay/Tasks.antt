-- ===== src/Relay/Tasks.antt =====
-- Tasks as tokio runs them for crates/purple-wolf-relay/src/pipeline.rs: what `spawn`, `abort_all` and
-- `JoinSet` say of them.
pub mod Weights
pub mod Stops
pub mod Faults
use purple_wolf.Prelude.{
  ℕ, zero, suc, ◌+◌, ◌*◌, ◌≤◌, ◌<◌, Bool, true, false, ◌||◌, ◌≡◌, refl, ◌⊎◌, inl, inr, List, [],
  ◌∷◌, map, All, arith,
}

-- What `join_next` tells of a task: its result, or a `JoinError`.
pub data Joined (A : Type 0) : Type 0 where
  finished : A → Joined A
  cancelled panicked : Joined A

-- A task is `leaving` from the moment that its body has dropped its channels until the runtime calls it
-- finished, and `aborting` from an abort until its next await.
pub data Task (A : Type 0) : Type 0 where
  running aborting : Task A
  leaving : A → Task A
  done : Joined A → Task A

module _ {A : Type 0} where
  abbrev pub holds_channels : Task A → Bool
  holds_channels running = true
  holds_channels aborting = true
  holds_channels (leaving a) = false
  holds_channels (done j) = false

  abbrev pub is_finished : Task A → Bool
  is_finished (done j) = true
  is_finished running = false
  is_finished aborting = false
  is_finished (leaving a) = false

  abbrev pub is_running : Task A → Bool
  is_running running = true
  is_running aborting = false
  is_running (leaving a) = false
  is_running (done j) = false

  unfoldable pub abort : Task A → Task A
  abort running = aborting
  abort aborting = aborting
  abort (leaving a) = leaving a
  abort (done j) = done j

  unfoldable pub abort_all : List (Task A) → List (Task A)
  unfolding abort
  abort_all ts = map abort ts

  -- What a task may do by itself: leave with a result that is permitted, panic where `storm` is set, end at
  -- an await after an abort, and be finished.
  pub data Acts (storm : Bool) (Permit : A → Type 0) : Task A → Task A → Type 0 where
    leave : (a : A) → Permit a → Acts storm Permit running (leaving a)
    leave_late : (a : A) → Permit a → Acts storm Permit aborting (leaving a)
    crash : storm ≡ true → Acts storm Permit running (done panicked)
    crash_late : storm ≡ true → Acts storm Permit aborting (done panicked)
    yielded : Acts storm Permit aborting (done cancelled)
    finish : (a : A) → Acts storm Permit (leaving a) (done (finished a))

  -- One task of a set acts.
  pub data OneActs (storm : Bool) (Permit : A → Type 0)
      : List (Task A) → List (Task A) → Type 0 where
    here :
        {t t' : Task A} {ts : List (Task A)}
        → Acts storm Permit t t'
        → OneActs storm Permit (t ∷ ts) (t' ∷ ts)
    there :
        {t : Task A} {ts ts' : List (Task A)}
        → OneActs storm Permit ts ts'
        → OneActs storm Permit (t ∷ ts) (t ∷ ts')

  -- `join_next` takes a finished task out of the set.
  pub data Joins : List (Task A) → Joined A → List (Task A) → Type 0 where
    here : {j : Joined A} {ts : List (Task A)} → Joins (done j ∷ ts) j ts
    there :
        {j : Joined A} {t : Task A} {ts ts' : List (Task A)}
        → Joins ts j ts'
        → Joins (t ∷ ts) j (t ∷ ts')

  -- So many tasks, just spawned.
  unfoldable pub spawn_all : ℕ → List (Task A)
  spawn_all zero = []
  spawn_all (suc n) = running ∷ spawn_all n
