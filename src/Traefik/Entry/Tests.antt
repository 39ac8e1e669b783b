-- ===== src/Traefik/Entry/Tests.antt =====
-- Runs of `inspect`, and its properties at concrete requests.
use purple_wolf.Config.{Config, FailMode, OverCap}
use purple_wolf.Detectors.{
  Group, Severity, Verdict, Detector, Mode, GroupMode, engine_inspect, is_enabled, group_eq,
}
use purple_wolf.Policy.{
  Action, decide, partition, choose, worst_index, swap_remove, is_off, both_enforce,
}
use purple_wolf.Prelude.{
  ℕ, true, false, [], ◌∷◌, any, keep, Option, none, some, Str, codes, ◌≡◌, refl,
}
use purple_wolf.Request.{Request}
use purple_wolf.Traefik.Body.{BodyRead, BodyReadError, BodyResult, forwarding_is_safe}
use purple_wolf.Traefik.Entry.Fallback.{inspect-fallback}
use purple_wolf.Traefik.Entry.{
  PluginState, Host, Outcome, get, state, inspect, stopped, inspect_body, body_failed, detect,
  conclude, respond, decision_is_noteworthy, engine, from_config, effective_group_mode, mode_of,
}

program : Unit {0}
unfolding inspect inspect_body body_failed forwarding_is_safe state detect decide engine_inspect
    conclude respond decision_is_noteworthy engine from_config get partition choose worst_index
    swap_remove is_enabled group_eq is_off both_enforce effective_group_mode mode_of any keep
program = tt

-- A detector that reports every request, and counts them.
abbrev detector_of : Config → Group → Detector ℕ (Request Str)
detector_of cfg g = record {
  group = g;
  inspect = λ s r.
      (s, record { group = g; rule = codes "r"; severity = Severity.high; detail = [] } ∷ []);
}

abbrev parse : Str → Option Str
parse [] = none
parse (a ∷ s) = some (a ∷ s)

abbrev enforcing : Config
enforcing = record {
  mode = Mode.enforce;
  fail_mode = FailMode.fail_closed;
  body = record { max_inspect_bytes = 10; over_cap = OverCap.pass };
  groups = record {
    injection = some (record { enabled = true; mode = GroupMode.enforce });
    signatures = none;
    structural = none;
    reputation = none;
  };
  reputation = record { per_second = 1; deny_list = []; max_tracked_ips = 1 };
  trusted_hops = 0;
  labels = [];
}

abbrev a_host : BodyResult → Host
a_host r = record {
  header_names = codes "Host" ∷ [];
  header_value = λ _. some (codes "h");
  source_addr = codes "1.2.3.4:5";
  uri = codes "/p?q=1";
  method = codes "GET";
  read_request_body = λ _ _. r;
}

abbrev short_body : BodyRead
short_body = record { bytes = codes "b"; exceeded = false }

abbrev st : PluginState ℕ Str
unfolding state
st = state detector_of (some enforcing)

abbrev refused : Outcome ℕ
refused = stopped 0 (codes "request body could not be preserved") none

fallback_stops :
    inspect
      (λ s. s)
      parse
      []
      (state detector_of none)
      0
      (a_host (BodyResult.err BodyReadError.stream_stalled))
    ≡ some refused
unfolding program
fallback_stops = refl

inspect-fallback_example :
    (e : BodyReadError) × (BodyResult.err BodyReadError.stream_stalled ≡ BodyResult.err e)
    × (forwarding_is_safe e ≡ false)
inspect-fallback_example =
    inspect-fallback (λ s. s) parse [] detector_of 0
      (a_host (BodyResult.err BodyReadError.stream_stalled)) refused fallback_stops refl

abbrev reported : Verdict
reported = record {
  group = Group.injection;
  rule = codes "r";
  severity = Severity.high;
  detail = [];
}

abbrev blocked : Outcome ℕ
blocked =
    stopped 0 (codes "request blocked by purple-wolf")
      (some (record { action = Action.block; blocked_by = some reported; would_block = [] }))
