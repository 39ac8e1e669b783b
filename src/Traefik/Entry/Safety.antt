-- ===== src/Traefik/Entry/Safety.antt =====
-- What `inspect` of crates/purple-wolf-traefik/src/entry.rs answers.
use mathlib.Core.Option.{some-injective}
use purple_wolf.Config.{FailMode}
use purple_wolf.Detectors.{Verdict, engine_inspect}
use purple_wolf.Policy.Laws.{is_enforced, decide-perm, decide-block_iff}
use purple_wolf.Policy.{Action, Decision, decide}
use purple_wolf.Prelude.{
  true, false, not, ◌&&◌, List, [], ◌∷◌, any, Option, none, some, Str, codes, ◌≡◌, ◌↔◌, ◌⊎◌, inl,
  inr, refl, sym, ap, ◌∙◌, Bool-cases,
}
use purple_wolf.Request.{Request}
use purple_wolf.Traefik.Body.{BodyRead, BodyReadError, BodyResult, forwarding_is_safe}
use purple_wolf.Traefik.Entry.{
  PluginState, Host, Outcome, get, stopped, body_failed, conclude, fail, respond, inspect_body,
  is_block, request_of, detect, inspect,
}

module _ {S : Type 0} where
  -- A request that passes has no response; one that is stopped has one, of status 403.
  abbrev pub Answered : Outcome S → Type 0
  Answered o =
      ((o.action ≡ Action.allow) × (o.responses ≡ []))
      ⊎ ((o.action ≡ Action.block) × (text : Str) × (o.responses ≡ (403, text) ∷ []))

  respond-Answered : (a : Action) (s : S) (d : Option Decision) → Answered (respond a s d)
  unfolding respond
  respond-Answered Action.allow s d = inl (refl, refl)
  respond-Answered Action.block s d = inr (refl, _, refl)

  body_failed-Answered : (m : FailMode) (s : S) (e : BodyReadError) → Answered (body_failed m s e)
  unfolding body_failed forwarding_is_safe fail
  body_failed-Answered m s BodyReadError.stream_stalled = inr (refl, _, refl)
  body_failed-Answered m s BodyReadError.host_contract_violation = inr (refl, _, refl)
  body_failed-Answered FailMode.fail_open s BodyReadError.buffering_unsupported = inl (refl, refl)
  body_failed-Answered FailMode.fail_closed s BodyReadError.buffering_unsupported =
      inr (refl, _, refl)

  respond-action : (a : Action) (s : S) (d : Option Decision) → (respond a s d).action ≡ a
  unfolding respond
  respond-action Action.allow s d = refl
  respond-action Action.block s d = refl

module _ {S Ip : Type 0} where
  abbrev pub verdicts_of : PluginState S Ip → S → Request Ip → List Verdict
  verdicts_of st s req = (engine_inspect st.engine s req st.enabled_groups).1

  pub detect-runs :
      (st : PluginState S Ip) (s : S) (req : Request Ip) (d : Decision)
      → decide (verdicts_of st s req) st.cfg.mode (get st.group_modes) ≡ some d
      → detect st s req
        ≡ some (conclude (engine_inspect st.engine s req st.enabled_groups).0 st.fallback d)
  unfolding detect
  detect-runs st s req d run = rw run

  detect-Answered :
      (st : PluginState S Ip) (s : S) (req : Request Ip)
      → (o : Outcome S) × (detect st s req ≡ some o) × Answered o
  unfolding conclude
  detect-Answered st s req =
      let (d, run, _) = decide-perm st.cfg.mode (get st.group_modes) (verdicts_of st s req) in
      (_, detect-runs st s req d run, respond-Answered d.action _ _)

  -- The detectors find what blocks exactly when a verdict's group enforces and the global mode does.
  pub detect-block_iff :
      (st : PluginState S Ip) (s : S) (req : Request Ip) (o : Outcome S)
      → detect st s req ≡ some o
      → (o.action ≡ Action.block)
        ↔ (any (is_enforced st.cfg.mode (get st.group_modes)) (verdicts_of st s req) ≡ true)
  unfolding conclude
  detect-block_iff st s req o run =
      let (d, decided, _) = decide-perm st.cfg.mode (get st.group_modes) (verdicts_of st s req) in
      let same =
        ap (λ x. x.action) (some-injective _ _ (sym (detect-runs st s req d decided) ∙ run)) in
      let both =
        decide-block_iff st.cfg.mode (get st.group_modes) (verdicts_of st s req) d decided in
      let acts = respond-action d.action (engine_inspect st.engine s req st.enabled_groups).0 _ in
      (λ b. both.0 (sym acts ∙ same ∙ b), λ b. sym same ∙ acts ∙ both.1 b)

module _ {S Ip : Type 0} (percent_decode : Str → Str) (parse : Str → Option Ip)
    (unspecified : Ip) where
  inspect_body-Answered :
      (st : PluginState S Ip) (s : S) (h : Host) (r : BodyResult)
      → (o : Outcome S) × (inspect_body percent_decode parse unspecified st s h r ≡ some o)
        × Answered o
  unfolding inspect_body
  inspect_body-Answered st s h (BodyResult.err e) =
      (_, refl, body_failed-Answered st.cfg.fail_mode s e)
  inspect_body-Answered st s h (BodyResult.ok b) =
      elim (Bool-cases (b.exceeded && is_block st.cfg.body.over_cap)) [
        | inl over ↦
            (stopped s (codes "body exceeds inspection cap") none, rw over, inr (refl, _, refl))
        | inr within ↦
            let (o, run, a) =
              detect-Answered st s (request_of percent_decode parse unspecified st.cfg h b) in
            (o, rw within run, a)
      ]

  -- Whatever the host answers, a request is either let through with no response written, or stopped
  -- with one response, of status 403; the policy never indexes out of range.
  pub inspect-Answered :
      (st : PluginState S Ip) (s : S) (h : Host)
      → (o : Outcome S) × (inspect percent_decode parse unspecified st s h ≡ some o) × Answered o
  unfolding inspect
  inspect-Answered st s h = inspect_body-Answered st s h _

  pub inspect-block_iff :
      (st : PluginState S Ip) (s : S) (h : Host) (b : BodyRead) (o : Outcome S)
      → h.read_request_body st.cfg.body.max_inspect_bytes (not (is_block st.cfg.body.over_cap))
        ≡ BodyResult.ok b
      → (b.exceeded && is_block st.cfg.body.over_cap) ≡ false
      → inspect percent_decode parse unspecified st s h ≡ some o
      → (o.action ≡ Action.block) ↔ (
          any
            (is_enforced st.cfg.mode (get st.group_modes))
            (verdicts_of st s (request_of percent_decode parse unspecified st.cfg h b))
          ≡ true)
  unfolding inspect inspect_body
  inspect-block_iff st s h b o read within run =
      detect-block_iff st s (request_of percent_decode parse unspecified st.cfg h b) o
        (rw (read, within) at run)
