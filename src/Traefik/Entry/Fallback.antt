-- ===== src/Traefik/Entry/Fallback.antt =====
-- When `inspect` of crates/purple-wolf-traefik/src/entry.rs stops a request, and that a configuration
-- that does not parse stops none of them for its content.
use mathlib.Core.Option.{some-injective}
use purple_wolf.Config.{Config, FailMode, OverCap}
use purple_wolf.Detectors.{Group, Verdict, Detector, Mode, GroupMode, engine_inspect}
use purple_wolf.Policy.Laws.{is_enforced}
use purple_wolf.Policy.{Action, both_enforce}
use purple_wolf.Prelude.{
  Bool, true, false, ◌&&◌, List, [], ◌∷◌, any, Option, none, some, Str, ◌≡◌, ◌≢◌, refl, sym, ap,
  ◌∙◌,
}
use purple_wolf.Request.{Request}
use purple_wolf.Traefik.Body.{BodyReadError, BodyResult, forwarding_is_safe}
use purple_wolf.Traefik.Entry.Safety.{detect-block_iff}
use purple_wolf.Traefik.Entry.{
  PluginState, Host, Outcome, get, fallback_config, state, body_failed, fail, is_block, request_of,
  inspect_body, inspect,
}

-- Nothing enforces while the global mode is monitor.
none-enforced :
    (m : Mode) (group_mode : Group → GroupMode) (vs : List Verdict)
    → m ≡ Mode.monitor
    → any (is_enforced m group_mode) vs ≡ false
unfolding any is_enforced both_enforce
none-enforced Mode.enforce group_mode vs h = absurd cc
none-enforced Mode.monitor group_mode [] h = refl
none-enforced Mode.monitor group_mode (v ∷ vs) h = none-enforced Mode.monitor group_mode vs refl

true-ne-false : true ≢ false
true-ne-false e = cc

allow-ne-block : Action.allow ≢ Action.block
allow-ne-block e = cc

fail-open :
    {S : Type 0} (m : FailMode) (s : S) → m ≡ FailMode.fail_open → (fail m s).action ≡ Action.allow
unfolding fail
fail-open FailMode.fail_open s h = refl
fail-open FailMode.fail_closed s h = absurd cc

body_failed-unsafe :
    {S : Type 0} (m : FailMode) (s : S) (e : BodyReadError)
    → m ≡ FailMode.fail_open
    → (body_failed m s e).action ≡ Action.block
    → forwarding_is_safe e ≡ false
unfolding body_failed forwarding_is_safe
body_failed-unsafe m s BodyReadError.stream_stalled opened blocks = refl
body_failed-unsafe m s BodyReadError.host_contract_violation opened blocks = refl
body_failed-unsafe m s BodyReadError.buffering_unsupported opened blocks =
    absurd (allow-ne-block (sym (fail-open m s opened) ∙ blocks))

and-pass : (b : Bool) (c : OverCap) → c ≡ OverCap.pass → (b && is_block c) ≡ false
unfolding is_block
and-pass true OverCap.pass h = refl
and-pass false OverCap.pass h = refl
and-pass b OverCap.block h = absurd cc

module _ {S Ip : Type 0} (percent_decode : Str → Str) (parse : Str → Option Ip)
    (unspecified : Ip) where
  inspect_body-lenient :
      (st : PluginState S Ip) (s : S) (h : Host) (r : BodyResult) (o : Outcome S)
      → st.cfg.mode ≡ Mode.monitor
      → st.cfg.body.over_cap ≡ OverCap.pass
      → st.cfg.fail_mode ≡ FailMode.fail_open
      → inspect_body percent_decode parse unspecified st s h r ≡ some o
      → o.action ≡ Action.block
      → (e : BodyReadError) × (r ≡ BodyResult.err e) × (forwarding_is_safe e ≡ false)
  unfolding inspect_body
  inspect_body-lenient st s h (BodyResult.err e) o monitor pass opened run blocks = (
    e,
    refl,
    body_failed-unsafe st.cfg.fail_mode s e opened
        (ap (λ x. x.action) (some-injective _ _ run) ∙ blocks),
  )
  inspect_body-lenient st s h (BodyResult.ok b) o monitor pass opened run blocks =
      let req = request_of percent_decode parse unspecified st.cfg h b in
      let found =
        (detect-block_iff st s req o (rw (and-pass b.exceeded st.cfg.body.over_cap pass) at run)).0
          blocks in
      let quiet =
        none-enforced st.cfg.mode (get st.group_modes)
          (engine_inspect st.engine s req st.enabled_groups).1 monitor in
      absurd (true-ne-false (sym found ∙ quiet))

  module _ (detector_of : Config → Group → Detector S (Request Ip)) where
    -- With a configuration that does not parse, a request is stopped only when its body could not be
    -- handed on: reading it failed after parts of it were consumed.
    pub inspect-fallback :
        (s : S) (h : Host) (o : Outcome S)
        → inspect percent_decode parse unspecified (state detector_of none) s h ≡ some o
        → o.action ≡ Action.block
        → (e : BodyReadError) × (h.read_request_body 1048576 true ≡ BodyResult.err e)
          × (forwarding_is_safe e ≡ false)
    unfolding inspect state fallback_config is_block
    inspect-fallback s h o run blocks =
        inspect_body-lenient (state detector_of none) s h (h.read_request_body 1048576 true) o refl
          refl refl run blocks
