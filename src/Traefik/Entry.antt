-- ===== src/Traefik/Entry.antt =====
-- `state` and `inspect` of crates/purple-wolf-traefik/src/entry.rs.
pub mod Safety
pub mod Fallback
pub mod Kept
mod Tests
use purple_wolf.Config.{
  Config, FailMode, OverCap, Groups, GroupConfig, all_monitor, default_reputation,
}
use purple_wolf.Detectors.{Group, Verdict, Detector, Mode, GroupMode, engine_inspect}
use purple_wolf.Policy.{Action, Decision, decide, is_off}
use purple_wolf.Prelude.{
  ◌>>=◌, ℕ, Bool, true, false, not, ◌&&◌, ◌||◌, List, [], ◌∷◌, ◌++◌, map, keep, Option, none, some,
  or_else, unwrap_or, if◌then◌else◌, Bytes, Str, codes, str_eq, split_once, to_ascii_lowercase,
}
use purple_wolf.Request.Client.{client_ip}
use purple_wolf.Request.{Request, Header, build, with_truncated_body, non_empty}
use purple_wolf.Traefik.Peer.{parse_peer}
use purple_wolf.Traefik.Body.{BodyRead, BodyReadError, BodyResult, forwarding_is_safe}

pub record EffectiveGroupModes : Type 0 where
  pub injection : GroupMode
  pub signatures : GroupMode
  pub structural : GroupMode
  pub reputation : GroupMode

unfoldable pub mode_of : Option GroupConfig → GroupMode
mode_of (some g) = if g.enabled then g.mode else GroupMode.off
mode_of none = GroupMode.off

unfoldable pub effective_group_mode : Config → Group → GroupMode
unfolding mode_of
effective_group_mode cfg Group.injection = mode_of cfg.groups.injection
effective_group_mode cfg Group.signatures = mode_of cfg.groups.signatures
effective_group_mode cfg Group.structural = mode_of cfg.groups.structural
effective_group_mode cfg Group.reputation = mode_of cfg.groups.reputation

unfoldable pub from_config : Config → EffectiveGroupModes
unfolding effective_group_mode
from_config cfg = record {
  injection = effective_group_mode cfg Group.injection;
  signatures = effective_group_mode cfg Group.signatures;
  structural = effective_group_mode cfg Group.structural;
  reputation = effective_group_mode cfg Group.reputation;
}

unfoldable pub get : EffectiveGroupModes → Group → GroupMode
get m Group.injection = m.injection
get m Group.signatures = m.signatures
get m Group.structural = m.structural
get m Group.reputation = m.reputation

unfoldable pub fallback_config : Config
unfolding all_monitor default_reputation
fallback_config = record {
  mode = Mode.monitor;
  fail_mode = FailMode.fail_open;
  body = record { max_inspect_bytes = 1048576; over_cap = OverCap.pass };
  groups = all_monitor;
  reputation = default_reputation;
  trusted_hops = 0;
  labels = [];
}

-- `S` is the state of the detectors.
pub record PluginState (S Ip : Type 0) : Type 0 where
  pub cfg : Config
  pub engine : List (Detector S (Request Ip))
  pub fallback : Bool
  pub enabled_groups : List Group
  pub group_modes : EffectiveGroupModes

-- `detector_of` makes the detector of a group.
module _ {S Ip : Type 0} (detector_of : Config → Group → Detector S (Request Ip)) where
  unfoldable pub engine : Config → List Group → List (Detector S (Request Ip))
  engine cfg enabled_groups = map (detector_of cfg) enabled_groups

  -- The state for what the adapter made of the Middleware configuration; `none` is a parse error.
  unfoldable pub state : Option Config → PluginState S Ip
  unfolding from_config get keep engine is_off
  state parsed =
      let cfg = unwrap_or parsed fallback_config in
      let group_modes = from_config cfg in
      let enabled_groups =
        keep (λ g. not (is_off (get group_modes g)))
          (Group.injection ∷ Group.signatures ∷ Group.structural ∷ Group.reputation ∷ []) in
      record {
        cfg = cfg;
        engine = engine cfg enabled_groups;
        fallback = elim parsed [ none ↦ true | some _ ↦ false ];
        enabled_groups = enabled_groups;
        group_modes = group_modes;
      }

-- What the host answers for one request.
pub record Host : Type 0 where
  pub header_names : List Str
  pub header_value : Str → Option Str
  pub source_addr : Str
  pub uri : Str
  pub method : Str
  pub read_request_body : ℕ → Bool → BodyResult

-- What a request leaves behind: the detectors' state, the action, the responses that were written, and
-- the decision of the audit line, when there is one.
pub record Outcome (S : Type 0) : Type 0 where
  pub detectors : S
  pub action : Action
  pub responses : List (ℕ × Str)
  pub audited : Option Decision

unfoldable pub find_host : List Header → Str
find_host [] = []
find_host ((k, v) ∷ hs) = let rest = find_host hs in if str_eq k (codes "host") then v else rest

unfoldable pub collect_headers : (Str → Option Str) → List Str → List Header
collect_headers value [] = []
collect_headers value (name ∷ names) =
    let rest = collect_headers value names in
    elim (value name) [ none ↦ rest | some v ↦ (to_ascii_lowercase name, v) ∷ rest ]

unfoldable pub decision_is_noteworthy : Decision → Bool → Bool
decision_is_noteworthy d fallback = elim d.blocked_by [
  | some _ ↦ true
  | none ↦ elim d.would_block [ _ ∷ _ ↦ true | [] ↦ fallback ]
]

module _ {S : Type 0} where
  -- A response is written, and the request stops.
  abbrev pub stopped : S → Str → Option Decision → Outcome S
  stopped s text audited = record {
    detectors = s;
    action = Action.block;
    responses = (403, text) ∷ [];
    audited = audited;
  }

  abbrev pub passed : S → Option Decision → Outcome S
  passed s audited = record {
    detectors = s;
    action = Action.allow;
    responses = [];
    audited = audited;
  }

  unfoldable pub fail : FailMode → S → Outcome S
  fail FailMode.fail_open s = passed s none
  fail FailMode.fail_closed s = stopped s (codes "inspection failed (fail_closed)") none

  unfoldable pub body_failed : FailMode → S → BodyReadError → Outcome S
  unfolding fail
  body_failed fail_mode s error =
      if not (forwarding_is_safe error)
      then stopped s (codes "request body could not be preserved") none
      else fail fail_mode s

  -- The end of `inspect`: what is made of the decision.
  unfoldable pub respond : Action → S → Option Decision → Outcome S
  respond Action.allow s audited = passed s audited
  respond Action.block s audited = stopped s (codes "request blocked by purple-wolf") audited

  unfoldable pub conclude : S → Bool → Decision → Outcome S
  unfolding decision_is_noteworthy respond
  conclude s fallback d =
      respond d.action s (if decision_is_noteworthy d fallback then some d else none)

unfoldable pub split_uri : Str → Str × Str
split_uri uri = unwrap_or (split_once b'?' uri) (uri, [])

unfoldable pub is_block : OverCap → Bool
is_block OverCap.block = true
is_block OverCap.pass = false

-- One pass of percent-decoding, `FromStr` of addresses, and the address 0.0.0.0.
module _ {Ip : Type 0} (percent_decode : Str → Str) (parse : Str → Option Ip)
    (unspecified : Ip) where
  unfoldable pub request_of : Config → Host → BodyRead → Request Ip
  unfolding collect_headers find_host split_uri
  request_of cfg h body_read =
      let headers = collect_headers h.header_value h.header_names in
      let peer = parse_peer parse unspecified h.source_addr in
      let source_ip = client_ip parse headers peer cfg.trusted_hops in
      let (path, raw_query) = split_uri h.uri in
      with_truncated_body
        (build percent_decode h.method (find_host headers) path raw_query headers body_read.bytes
          (non_empty body_read.bytes) source_ip)
        body_read.exceeded

module _ {S Ip : Type 0} where
  -- From the engine on.
  unfoldable pub detect : PluginState S Ip → S → Request Ip → Option (Outcome S)
  unfolding conclude get
  detect st s req = do
    let (s', verdicts) = engine_inspect st.engine s req st.enabled_groups
    d ← decide verdicts st.cfg.mode (get st.group_modes)
    some (conclude s' st.fallback d)

module _ {S Ip : Type 0} (percent_decode : Str → Str) (parse : Str → Option Ip)
    (unspecified : Ip) where
  -- What is made of the body.
  unfoldable pub inspect_body : PluginState S Ip → S → Host → BodyResult → Option (Outcome S)
  inspect_body st s h (BodyResult.err error) = some (body_failed st.cfg.fail_mode s error)
  inspect_body st s h (BodyResult.ok body_read) =
      let req = request_of percent_decode parse unspecified st.cfg h body_read in
      if body_read.exceeded && is_block st.cfg.body.over_cap
      then some (stopped s (codes "body exceeds inspection cap") none)
      else detect st s req

  unfoldable pub inspect : PluginState S Ip → S → Host → Option (Outcome S)
  unfolding inspect_body
  inspect st s h =
      inspect_body st s h
        (h.read_request_body st.cfg.body.max_inspect_bytes (not (is_block st.cfg.body.over_cap)))
