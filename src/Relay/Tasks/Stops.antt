-- ===== src/Relay/Tasks/Stops.antt =====
-- When tasks stop, and that they go on till then.
use purple_wolf.Prelude.{Bool, true, false, ◌≡◌, refl, ◌⊎◌, inl, inr, List, [], ◌∷◌, All}
use purple_wolf.Relay.Tasks.{
  Joined, Task, running, aborting, leaving, done, holds_channels, is_finished, is_running, abort,
  abort_all, Acts, leave, leave_late, crash, crash_late, yielded, finish, OneActs, Joins,
}

module _ {A : Type 0} where
  pub OneActs-nil :
      {storm : Bool} {Permit : A → Type 0} {ts ts' : List (Task A)}
      → OneActs storm Permit ts ts'
      → ts ≡ []
      → ts' ≡ []
  OneActs-nil (OneActs.here a) e = cc
  OneActs-nil (OneActs.there o) e = cc

  pub Joins-nil : {j : Joined A} {ts ts' : List (Task A)} → Joins ts j ts' → ts ≡ [] → ts' ≡ []
  Joins-nil Joins.here e = cc
  Joins-nil (Joins.there o) e = cc

  pub Acts-is_finished :
      {storm : Bool} {Permit : A → Type 0} {t t' : Task A}
      → Acts storm Permit t t'
      → is_finished t ≡ false
  Acts-is_finished (leave a p) = refl
  Acts-is_finished (leave_late a p) = refl
  Acts-is_finished (crash e) = refl
  Acts-is_finished (crash_late e) = refl
  Acts-is_finished yielded = refl
  Acts-is_finished (finish a) = refl

  pub abort-is_finished : (t : Task A) → is_finished (abort t) ≡ is_finished t
  unfolding abort
  abort-is_finished running = refl
  abort-is_finished aborting = refl
  abort-is_finished (leaving a) = refl
  abort-is_finished (done j) = refl

  abbrev pub AllStopped : List (Task A) → Type 0
  AllStopped ts = All (λ t. is_running t ≡ false) ts

  pub abort_all-AllStopped : (ts : List (Task A)) → AllStopped (abort_all ts)
  unfolding abort_all
  abort_all-AllStopped [] = tt
  abort_all-AllStopped (running ∷ ts) = (refl, abort_all-AllStopped ts)
  abort_all-AllStopped (aborting ∷ ts) = (refl, abort_all-AllStopped ts)
  abort_all-AllStopped (leaving a ∷ ts) = (refl, abort_all-AllStopped ts)
  abort_all-AllStopped (done j ∷ ts) = (refl, abort_all-AllStopped ts)

  Acts-is_running :
      {storm : Bool} {Permit : A → Type 0} {t t' : Task A}
      → Acts storm Permit t t'
      → is_running t' ≡ false
  Acts-is_running (leave a p) = refl
  Acts-is_running (leave_late a p) = refl
  Acts-is_running (crash e) = refl
  Acts-is_running (crash_late e) = refl
  Acts-is_running yielded = refl
  Acts-is_running (finish a) = refl

  pub OneActs-AllStopped :
      {storm : Bool} {Permit : A → Type 0} {ts ts' : List (Task A)}
      → OneActs storm Permit ts ts'
      → AllStopped ts
      → AllStopped ts'
  OneActs-AllStopped (OneActs.here a) (_, h) = (Acts-is_running a, h)
  OneActs-AllStopped (OneActs.there o) (e, h) = (e, OneActs-AllStopped o h)

  -- A task that may leave goes on by itself until it is done.
  pub task_goes :
      (Permit : A → Type 0) (a : A)
      → Permit a
      → (t : Task A) → ((t' : Task A) × Acts false Permit t t') ⊎ ((j : Joined A) × (t ≡ done j))
  task_goes Permit a p running = inl (_, leave a p)
  task_goes Permit a p aborting = inl (_, yielded)
  task_goes Permit a p (leaving b) = inl (_, finish b)
  task_goes Permit a p (done j) = inr (j, refl)

  -- So does a set of tasks, until it is empty or one can be joined.
  pub set_goes :
      (Permit : A → Type 0) (a : A)
      → Permit a
      → (ts : List (Task A))
      → ((ts' : List (Task A)) × OneActs false Permit ts ts')
        ⊎ ((j : Joined A) × (ts' : List (Task A)) × Joins ts j ts')
        ⊎ (ts ≡ [])
  set_goes Permit a p [] = inr (inr refl)
  set_goes Permit a p (running ∷ ts) = inl (_, OneActs.here (leave a p))
  set_goes Permit a p (aborting ∷ ts) = inl (_, OneActs.here yielded)
  set_goes Permit a p (leaving b ∷ ts) = inl (_, OneActs.here (finish b))
  set_goes Permit a p (done j ∷ ts) = inr (inl (j, _, Joins.here))

  -- Unless all have let go of their channels, one of them can leave.
  pub let_go :
      (Permit : A → Type 0) (a : A)
      → Permit a
      → (ts : List (Task A))
      → All (λ t. holds_channels t ≡ false) ts
        ⊎ ((ts' : List (Task A)) × OneActs false Permit ts ts')
  let_go Permit a p [] = inl tt
  let_go Permit a p (running ∷ ts) = inr (_, OneActs.here (leave a p))
  let_go Permit a p (aborting ∷ ts) = inr (_, OneActs.here yielded)
  let_go Permit a p (leaving b ∷ ts) = elim (let_go Permit a p ts) [
    | inl h ↦ inl (refl, h)
    | inr (_, o) ↦ inr (_, OneActs.there o)
  ]
  let_go Permit a p (done j ∷ ts) = elim (let_go Permit a p ts) [
    | inl h ↦ inl (refl, h)
    | inr (_, o) ↦ inr (_, OneActs.there o)
  ]

pub finished-holds : {A : Type 0} (t : Task A) → is_finished t ≡ true → holds_channels t ≡ false
finished-holds running h = cc
finished-holds aborting h = cc
finished-holds (leaving a) h = refl
finished-holds (done j) h = refl
