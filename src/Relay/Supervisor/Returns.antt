-- ===== src/Relay/Supervisor/Returns.antt =====
-- The supervisor returns, if its tasks end when they may.
use purple_wolf.Prelude.{
  ℕ, zero, suc, ◌+◌, ◌*◌, ◌≤◌, Bool, true, false, ◌≡◌, ◌≢◌, ◌⊎◌, inl, inr, refl, sym, ap, List, [],
  subst, All, arith,
}
use purple_wolf.Relay.Tasks.{Joined, Task, done, is_finished, holds_channels, Joins}
use purple_wolf.Relay.Tasks.Stops.{task_goes, set_goes, let_go, finished-holds}
use purple_wolf.Relay.Tasks.Weights.{spawn_all-weights}
use purple_wolf.Relay.Supervisor.Ends.{phases_left, measure, Step-measure, Run-measure}
use purple_wolf.Relay.Supervisor.Shape.{Shape, Step-Shape, Run-Shape, spawned-Shape}
use purple_wolf.Relay.Supervisor.{
  ParserExit, SourceEnd, stopped, Phase, supervising, draining_sources, sweeping_sources,
  awaiting_parser, reaping_parser, draining_sinks, sweeping_sinks, returned, System, spawned,
  MayExit, MayEnd, MayStop, Step, Run,
}

abbrev CanStep : System → Type 0
CanStep s = (t : System) × Step false s t

no_sources : (s : System) → s.sources ≡ [] → MayExit s ParserExit.sources_closed
no_sources s e = subst (λ ts. All (λ t. holds_channels t ≡ false) ts) (sym e) tt

sources_go :
    (s : System)
    → CanStep s
      ⊎ ((j : Joined SourceEnd) × (ts : List (Task SourceEnd)) × Joins s.sources j ts)
      ⊎ (s.sources ≡ [])
sources_go s = elim (set_goes (MayEnd false) stopped tt s.sources) [
  | inl (ts, o) ↦ inl (_, Step.source_acts o)
  | inr more ↦ inr more
]

parser_goes :
    (s : System)
    → MayExit s ParserExit.sources_closed
    → CanStep s ⊎ ((j : Joined ParserExit) × (s.parser ≡ done j))
parser_goes s h = elim (task_goes (MayExit s) ParserExit.sources_closed h s.parser) [
  | inl (t, o) ↦ inl (_, Step.parser_acts o)
  | inr more ↦ inr more
]

sinks_go :
    (s : System)
    → is_finished s.parser ≡ true
    → CanStep s
      ⊎ ((j : Joined (Unit {0})) × (ts : List (Task (Unit {0}))) × Joins s.sinks j ts)
      ⊎ (s.sinks ≡ [])
sinks_go s h = elim (set_goes (MayStop s) tt (inr (finished-holds s.parser h)) s.sinks) [
  | inl (ts, o) ↦ inl (_, Step.sink_acts o)
  | inr more ↦ inr more
]

-- In every phase but the last a step can be taken that needs no storm.
progress : (p : Phase) (s : System) → s.phase ≡ p → p ≢ returned → Shape s → CanStep s
progress supervising s e n h = elim (let_go (MayEnd false) stopped tt s.sources) [
  | inr (ts, o) ↦ (_, Step.source_acts o)
  | inl free ↦ elim (parser_goes s free) [ inl g ↦ g | inr (j, d) ↦ (_, Step.parser_joined e d) ]
]
progress (draining_sources f) s e n h = elim (sources_go s) [
  | inl g ↦ g
  | inr (inl (j, ts, o)) ↦ (_, Step.source_drained e o)
  | inr (inr d) ↦ (_, Step.sources_drained e d)
]
progress sweeping_sources s e n h = elim (sources_go s) [
  | inl g ↦ g
  | inr (inl (j, ts, o)) ↦ (_, Step.source_swept e o)
  | inr (inr d) ↦ (_, Step.sources_swept e d)
]
progress awaiting_parser s e n h =
    elim (parser_goes s (no_sources s (h.past_sources (omega (arith, ap phases_left e))))) [
      | inl g ↦ g
      | inr (j, d) ↦ (_, Step.parser_awaited e d)
    ]
progress reaping_parser s e n h =
    elim (parser_goes s (no_sources s (h.past_sources (omega (arith, ap phases_left e))))) [
      | inl g ↦ g
      | inr (j, d) ↦ (_, Step.parser_reaped e d)
    ]
progress draining_sinks s e n h =
    elim (sinks_go s (h.past_parser (omega (arith, ap phases_left e)))) [
      | inl g ↦ g
      | inr (inl (j, ts, o)) ↦ (_, Step.sink_drained e o)
      | inr (inr d) ↦ (_, Step.sinks_drained e d)
    ]
progress sweeping_sinks s e n h =
    elim (sinks_go s (h.past_parser (omega (arith, ap phases_left e)))) [
      | inl g ↦ g
      | inr (inl (j, ts, o)) ↦ (_, Step.sink_swept e o)
      | inr (inr d) ↦ (_, Step.sinks_swept e d)
    ]
progress returned s e n h = absurd (n refl)

pub Run-cons :
    {storm : Bool} {s t u : System} {n : ℕ}
    → Step storm s t
    → Run storm t n u
    → Run storm s (suc n) u
Run-cons st Run.here = Run.later Run.here st
Run-cons st (Run.later r st') = Run.later (Run-cons st r) st'

is_returned : (p : Phase) → (p ≡ returned) ⊎ (p ≢ returned)
is_returned supervising = inr (λ e. cc)
is_returned (draining_sources f) = inr (λ e. cc)
is_returned sweeping_sources = inr (λ e. cc)
is_returned awaiting_parser = inr (λ e. cc)
is_returned reaping_parser = inr (λ e. cc)
is_returned draining_sinks = inr (λ e. cc)
is_returned sweeping_sinks = inr (λ e. cc)
is_returned returned = inl refl

-- A run without a storm to the return of the supervisor.
abbrev pub CanReturn : System → Type 0
CanReturn s = (m : ℕ) × (t : System) × Run false s m t × (t.phase ≡ returned)

pub returns : (k : ℕ) (s : System) → measure s ≤ k → Shape s → CanReturn s
returns zero s b h = elim (is_returned s.phase) [
  | inl e ↦ (0, s, Run.here, e)
  | inr n ↦ let (t, st) = progress s.phase s refl n h in absurd (omega (arith, Step-measure st))
]
returns (suc k) s b h = elim (is_returned s.phase) [
  | inl e ↦ (0, s, Run.here, e)
  | inr n ↦
      let (t, st) = progress s.phase s refl n h in
      let (m, u, r, e) = returns k t (omega (arith, Step-measure st)) (Step-Shape st h) in
      (suc m, u, Run-cons st r, e)
]

-- A run of the supervisor has at most four steps for each source, each sink and the parser, and eight
-- more, whatever the tasks do: sources that fail, panics, time limits that pass and the signal included. At
-- any moment of any run the supervisor can still come to its return without any of these.
pub supervise-returns :
    (n m k : ℕ) (s : System) → Run true (spawned n m) k s → (k ≤ 4 * (n + m) + 12) × CanReturn s
unfolding spawned measure
supervise-returns n m k s r = (
  omega (arith, Run-measure r, spawn_all-weights SourceEnd n, spawn_all-weights (Unit {0}) m),
  returns (measure s) s (omega arith) (Run-Shape r (spawned-Shape n m)),
)
