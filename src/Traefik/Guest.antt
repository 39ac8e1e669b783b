-- ===== src/Traefik/Guest.antt =====
-- The detectors that `engine` of crates/purple-wolf-traefik/src/entry.rs builds, and `handle_request`.
pub mod Live
pub mod Reports
pub mod Blocks
pub mod Runs
mod Tests
use purple_wolf.Config.{Config}
use purple_wolf.Detectors.{Group, Verdict, Detector}
use purple_wolf.Policy.{Action}
use purple_wolf.Prelude.{◌>>=◌, ℕ, suc, Bool, List, [], ◌∷◌, Option, none, some, Bytes, Str}
use purple_wolf.Reputation.Detect.{ReputationDetector, with_capacity}
use purple_wolf.Reputation.Float.{Float}
use purple_wolf.Request.{Request}
use purple_wolf.Traefik.Entry.{PluginState, Host, Outcome, inspect, state}
use purple_wolf.Traefik.Peer.{parse_ip}

-- What the guest uses of other crates and of the standard library.
pub record Libraries (Ip T : Type 0) : Type 0 where
  pub percent_decode : Str → Str
  pub parse : Str → Option Ip
  pub unspecified : Ip
  pub dec : Discrete Ip
  pub show_ip : Ip → Str
  pub find_iter : Bytes → List ℕ
  pub lossy_chars : Bytes → List ℕ
  pub collect : List ℕ → Str
  pub is_sqli : Bytes → Bool
  pub is_xss : Bytes → Bool
  pub float : Float T

-- What changes inside the detectors: the reputation detector, and how often it read the clock.
pub record Inner (Ip T : Type 0) : Type 0 where
  pub reputation : ReputationDetector Ip T
  pub readings : ℕ

-- `none` once a detector has panicked: on wasm a panic ends the guest.
abbrev pub Held : Type 0 → Type 0 → Type 0
Held Ip T = Option (Inner Ip T)

-- What a request leaves behind, with the value that `handle_request` returns.
pub record Handled (Ip T : Type 0) : Type 0 where
  pub inner : Inner Ip T
  pub signal : ℕ
  pub responses : List (ℕ × Str)

unfoldable pub signal_of : Action → ℕ
signal_of Action.allow = 1
signal_of Action.block = 0

-- `clock` is what the readings of the clock give, one after the other.
module _ {Ip T : Type 0} (lib : Libraries Ip T) (clock : ℕ → ℕ) where
  -- The closure on the deny list, with `collect`.
  unfoldable pub parse_deny_list : List Str → List Ip
  parse_deny_list [] = []
  parse_deny_list (entry ∷ entries) =
      let rest = parse_deny_list entries in
      elim (parse_ip lib.parse entry) [ none ↦ rest | some ip ↦ ip ∷ rest ]

  -- The reputation detector of `engine`.
  unfoldable pub initial : Config → Inner Ip T
  unfolding parse_deny_list with_capacity
  initial cfg = record {
    reputation =
        with_capacity lib.dec cfg.reputation.per_second (parse_deny_list cfg.reputation.deny_list)
          cfg.reputation.max_tracked_ips;
    readings = 0;
  }

  unfoldable pub inspect_signatures : Held Ip T → Request Ip → Held Ip T × List Verdict
  inspect_signatures held req = elim (purple_wolf.Detectors.Signatures.inspect lib.find_iter req) [
    | none ↦ (none, [])
    | some verdicts ↦ (held, verdicts)
  ]

  unfoldable pub inspect_reputation : Held Ip T → Request Ip → Held Ip T × List Verdict
  inspect_reputation none req = (none, [])
  inspect_reputation (some i) req =
      elim (purple_wolf.Reputation.Detect.inspect lib.dec lib.float lib.show_ip i.reputation
        (clock i.readings) req.source_ip) [
          | none ↦ (none, [])
          | some (d, verdicts) ↦
              (some (record { reputation = d; readings = suc i.readings }), verdicts)
        ]

  unfoldable pub inspect_group : Group → Held Ip T → Request Ip → Held Ip T × List Verdict
  unfolding inspect_signatures inspect_reputation
  inspect_group Group.injection held req = (
    held,
    purple_wolf.Detectors.Injection.inspect lib.lossy_chars lib.collect lib.is_sqli lib.is_xss req,
  )
  inspect_group Group.signatures held req = inspect_signatures held req
  inspect_group Group.structural held req = (held, purple_wolf.Detectors.Structural.inspect req)
  inspect_group Group.reputation held req = inspect_reputation held req

  -- The detector that the loop of `engine` pushes for a group.
  unfoldable pub detector_of : Config → Group → Detector (Held Ip T) (Request Ip)
  unfolding inspect_group
  detector_of cfg group = record { group = group; inspect = inspect_group group }

  -- `state` with these detectors, for what the adapter made of the Middleware configuration.
  unfoldable pub guest : Option Config → PluginState (Held Ip T) Ip
  unfolding state detector_of
  guest parsed = state detector_of parsed

  -- `none` is a panic, which on wasm does not return.
  unfoldable pub handle_request :
      PluginState (Held Ip T) Ip → Inner Ip T → Host → Option (Handled Ip T)
  unfolding inspect signal_of
  handle_request st i h = do
    o ← inspect lib.percent_decode lib.parse lib.unspecified st (some i) h
    i' ← o.detectors
    some (record { inner = i'; signal = signal_of o.action; responses = o.responses })

  -- The requests that one instance of the guest is given, in order.
  unfoldable pub handle_requests :
      PluginState (Held Ip T) Ip → Inner Ip T → List Host → Option (List (Handled Ip T))
  unfolding handle_request
  handle_requests st i [] = some []
  handle_requests st i (h ∷ hs) = do
    handled ← handle_request st i h
    rest ← handle_requests st handled.inner hs
    some (handled ∷ rest)
