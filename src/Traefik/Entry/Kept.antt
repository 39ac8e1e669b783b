-- ===== src/Traefik/Entry/Kept.antt =====
-- The detectors' state across `inspect` of crates/purple-wolf-traefik/src/entry.rs.
use mathlib.Core.Option.{some-injective}
use purple_wolf.Config.{FailMode}
use purple_wolf.Detectors.{engine_inspect}
use purple_wolf.Policy.Laws.{decide-perm}
use purple_wolf.Policy.{Action, Decision}
use purple_wolf.Prelude.{
  ◌&&◌, some, Option, Str, ◌≡◌, refl, sym, ap, ◌∙◌, subst, inl, inr, Bool-cases,
}
use purple_wolf.Request.{Request}
use purple_wolf.Traefik.Body.{BodyReadError, BodyResult, forwarding_is_safe}
use purple_wolf.Traefik.Entry.Safety.{verdicts_of, detect-runs}
use purple_wolf.Traefik.Entry.{
  PluginState, Host, Outcome, get, body_failed, conclude, fail, respond, inspect_body, is_block,
  request_of, detect, inspect,
}

module _ {S : Type 0} where
  respond-detectors : (a : Action) (s : S) (d : Option Decision) → (respond a s d).detectors ≡ s
  unfolding respond
  respond-detectors Action.allow s d = refl
  respond-detectors Action.block s d = refl

  body_failed-detectors :
      (m : FailMode) (s : S) (e : BodyReadError) → (body_failed m s e).detectors ≡ s
  unfolding body_failed forwarding_is_safe fail
  body_failed-detectors m s BodyReadError.stream_stalled = refl
  body_failed-detectors m s BodyReadError.host_contract_violation = refl
  body_failed-detectors FailMode.fail_open s BodyReadError.buffering_unsupported = refl
  body_failed-detectors FailMode.fail_closed s BodyReadError.buffering_unsupported = refl

module _ {S Ip : Type 0} (Good : S → Type 0) (st : PluginState S Ip) (s : S) (good : Good s)
    (keeps : (req : Request Ip) → Good (engine_inspect st.engine s req st.enabled_groups).0) where
  detect-keeps : (req : Request Ip) (o : Outcome S) → detect st s req ≡ some o → Good o.detectors
  unfolding conclude
  detect-keeps req o run =
      let (d, decided, _) = decide-perm st.cfg.mode (get st.group_modes) (verdicts_of st s req) in
      let same =
        ap (λ x. x.detectors) (some-injective _ _ (sym (detect-runs st s req d decided) ∙ run)) in
      subst Good (sym (respond-detectors d.action _ _) ∙ same) (keeps req)

  module _ (percent_decode : Str → Str) (parse : Str → Option Ip) (unspecified : Ip) where
    inspect_body-keeps :
        (h : Host) (r : BodyResult) (o : Outcome S)
        → inspect_body percent_decode parse unspecified st s h r ≡ some o
        → Good o.detectors
    unfolding inspect_body
    inspect_body-keeps h (BodyResult.err e) o run =
        subst Good
          (sym (body_failed-detectors st.cfg.fail_mode s e)
            ∙ ap (λ x. x.detectors) (some-injective _ _ run))
          good
    inspect_body-keeps h (BodyResult.ok b) o run =
        elim (Bool-cases (b.exceeded && is_block st.cfg.body.over_cap)) [
          | inl over ↦ subst Good (ap (λ x. x.detectors) (some-injective _ _ (rw over at run))) good
          | inr within ↦
              detect-keeps (request_of percent_decode parse unspecified st.cfg h b) o
                (rw within at run)
        ]

    -- What holds of the detectors' state, and holds of it after the engine has run on any request,
    -- holds of it after `inspect`.
    pub inspect-keeps :
        (h : Host) (o : Outcome S)
        → inspect percent_decode parse unspecified st s h ≡ some o
        → Good o.detectors
    unfolding inspect
    inspect-keeps h o run = inspect_body-keeps h _ o run
