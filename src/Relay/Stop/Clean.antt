-- ===== src/Relay/Stop/Clean.antt =====
-- When the relay exits with success.
use purple_wolf.Prelude.{ℕ, Bool, true, false, ◌≡◌, ◌⊎◌, inl, inr, refl, [], none, some, Str}
use purple_wolf.Relay.Config.{Checked, Outside, Resolved, validate}
use purple_wolf.Relay.Stop.{
  TaskName, RunError, Outcome, Stop, on_signal, on_admin, on_pipeline, ◌and_then◌, task_outcome,
  stop_result, Loaded, loaded, unreadable, serve, checked, run, exit_code,
}
use purple_wolf.Relay.Supervisor.Honest.{returned-ok}
use purple_wolf.Relay.Supervisor.Known.{went_wrong}
use purple_wolf.Relay.Supervisor.{Failure, System, returned, spawned, Run}
use purple_wolf.Relay.Tasks.{Joined, finished, cancelled, panicked, is_finished}

-- Both tasks ended by themselves and without an error, and if the admin server was first, that was not
-- before a signal or the end of the pipeline.
abbrev pub EndsWell : {E : Type 0} → Stop E → Type 0
EndsWell (on_signal signal a p) = (signal ≡ none) × (a ≡ finished none) × (p ≡ finished none)
EndsWell (on_admin a p) = ⊥
EndsWell (on_pipeline p a) = (p ≡ finished none) × (a ≡ finished none)

task_outcome-none :
    {E F : Type 0} (name : TaskName) (wrap : F → RunError E) (j : Joined (Outcome F))
    → task_outcome name wrap j ≡ none
    → j ≡ finished none
unfolding task_outcome
task_outcome-none name wrap (finished none) h = refl
task_outcome-none name wrap (finished (some e)) h = cc
task_outcome-none name wrap cancelled h = cc
task_outcome-none name wrap panicked h = cc

and_then-none : {E : Type 0} (a b : Outcome E) → (a and_then b) ≡ none → (a ≡ none) × (b ≡ none)
and_then-none none b h = (refl, h)
and_then-none (some e) b h = cc

stop_result-EndsWell : {E : Type 0} (stop : Stop E) → stop_result stop ≡ none → EndsWell stop
unfolding stop_result
stop_result-EndsWell (on_signal none a p) h =
    let (ha, hp) = and_then-none (task_outcome _ _ a) _ h in
    (refl, task_outcome-none _ _ a ha, task_outcome-none _ _ p hp)
stop_result-EndsWell (on_signal (some e) a p) h = cc
stop_result-EndsWell (on_admin a p) h =
    let (ha, h') = and_then-none (task_outcome _ _ a) _ h in
    let (hp, h'') = and_then-none (task_outcome _ _ p) _ h' in absurd (cc)
stop_result-EndsWell (on_pipeline p a) h =
    let (hp, ha) = and_then-none (task_outcome _ _ p) _ h in
    (task_outcome-none _ _ p hp, task_outcome-none _ _ a ha)

EndsWell-stop_result : {E : Type 0} (stop : Stop E) → EndsWell stop → stop_result stop ≡ none
unfolding stop_result task_outcome
EndsWell-stop_result (on_signal signal a p) (hs, ha, hp) = rw (hs, ha, hp) refl
EndsWell-stop_result (on_admin a p) h = absurd h
EndsWell-stop_result (on_pipeline p a) (hp, ha) = rw (hp, ha) refl

-- What a success needs: a configuration that is valid and, unless only that is asked for, metrics, an
-- address, and tasks that end well.
abbrev pub Succeeds :
    {E : Type 0} → Outside → Loaded → Bool → Outcome Str → Outcome Str → Stop E → Type 0
Succeeds o (unreadable e) only metrics addr stop = ⊥
Succeeds o (loaded cfg) only metrics addr stop =
    (r : Resolved) × (validate o cfg ≡ Checked.ok r)
    × ((only ≡ true) ⊎ ((metrics ≡ none) × (addr ≡ none) × EndsWell stop))

checked-Succeeds :
    {E : Type 0} (c : Checked Resolved) (only : Bool) (metrics addr : Outcome Str) (stop : Stop E)
    → checked c only metrics addr stop ≡ none
    → (r : Resolved) × (c ≡ Checked.ok r)
      × ((only ≡ true) ⊎ ((metrics ≡ none) × (addr ≡ none) × EndsWell stop))
unfolding checked serve
checked-Succeeds (Checked.bail e) only metrics addr stop h = cc
checked-Succeeds (Checked.ok r) true metrics addr stop h = (r, refl, inl refl)
checked-Succeeds (Checked.ok r) false none none stop h =
    (r, refl, inr (refl, refl, stop_result-EndsWell stop h))
checked-Succeeds (Checked.ok r) false none (some e) stop h = cc
checked-Succeeds (Checked.ok r) false (some e) addr stop h = cc

Succeeds-checked :
    {E : Type 0} (c : Checked Resolved) (r : Resolved) (only : Bool) (metrics addr : Outcome Str)
    (stop : Stop E)
    → c ≡ Checked.ok r
    → (only ≡ true) ⊎ ((metrics ≡ none) × (addr ≡ none) × EndsWell stop)
    → checked c only metrics addr stop ≡ none
unfolding checked serve
Succeeds-checked c r only metrics addr stop e (inl o) = rw (e, o) refl
Succeeds-checked c r true metrics addr stop e (inr h) = rw e refl
Succeeds-checked c r false metrics addr stop e (inr (m, a, w)) =
    rw (e, m, a) (EndsWell-stop_result stop w)

-- The relay ends without an error exactly when its file could be read and is a valid configuration and, unless
-- only this was asked for, the metrics and the address are fine, both tasks end by themselves and without an
-- error, and it is the signal or the end of the pipeline that stops the relay, not the admin server.
pub run-ok_iff :
    {E : Type 0} (o : Outside) (l : Loaded) (only : Bool) (metrics addr : Outcome Str)
    (stop : Stop E)
    → (run o l only metrics addr stop ≡ none → Succeeds o l only metrics addr stop)
      × (Succeeds o l only metrics addr stop → run o l only metrics addr stop ≡ none)
unfolding run
run-ok_iff o (unreadable e) only metrics addr stop = (λ h. cc, λ h. absurd h)
run-ok_iff o (loaded cfg) only metrics addr stop = (
  checked-Succeeds (validate o cfg) only metrics addr stop,
  λ (r, e, h). Succeeds-checked (validate o cfg) r only metrics addr stop e h,
)

abbrev pub pipeline_end : {E : Type 0} → Stop E → Joined (Outcome E)
pipeline_end (on_signal signal a p) = p
pipeline_end (on_admin a p) = p
pipeline_end (on_pipeline p a) = p

EndsWell-pipeline : {E : Type 0} (stop : Stop E) → EndsWell stop → pipeline_end stop ≡ finished none
EndsWell-pipeline (on_signal signal a p) (_, _, h) = h
EndsWell-pipeline (on_admin a p) h = absurd h
EndsWell-pipeline (on_pipeline p a) (h, _) = h

exit_code-none : {E : Type 0} (out : Outcome (RunError E)) → exit_code out ≡ 0 → out ≡ none
unfolding exit_code
exit_code-none none h = refl
exit_code-none (some e) h = cc

served :
    {E : Type 0} (o : Outside) (l : Loaded) (metrics addr : Outcome Str) (stop : Stop E)
    → run o l false metrics addr stop ≡ none
    → EndsWell stop
served o (unreadable e) metrics addr stop h =
    absurd ((run-ok_iff o (unreadable e) false metrics addr stop).0 h)
served o (loaded cfg) metrics addr stop h =
    elim ((run-ok_iff o (loaded cfg) false metrics addr stop).0 h).2 [
      | inl no_serve ↦ cc
      | inr (m, a, w) ↦ w
    ]

-- If the relay, asked to serve, exits with success, and its pipeline came to its end by a run of the
-- supervisor, then at no moment of that run had a source failed or a task of the pipeline panicked, and every
-- source, the parser and every sink has ended.
pub exit_code-clean :
    (o : Outside) (l : Loaded) (metrics addr : Outcome Str) (stop : Stop Failure) (n m i j : ℕ)
    (t s : System)
    → exit_code (run o l false metrics addr stop) ≡ 0
    → pipeline_end stop ≡ finished s.outcome
    → Run true (spawned n m) i t
    → Run true t j s
    → s.phase ≡ returned
    → (went_wrong t ≡ false) × (s.sources ≡ []) × (s.sinks ≡ []) × (is_finished s.parser ≡ true)
exit_code-clean o l metrics addr stop n m i j t s h e r r' back =
    let w = served o l metrics addr stop (exit_code-none _ h) in
    let ok : s.outcome ≡ none = cc (EndsWell-pipeline stop w) in
    returned-ok n m i j t s r r' back ok
