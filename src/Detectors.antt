-- ===== src/Detectors.antt =====
-- crates/purple-wolf-core/src/detectors/mod.rs and the modes of crates/purple-wolf-core/src/config.rs.
pub mod Structural
pub mod Signatures
pub mod Injection
pub mod Tests
use purple_wolf.Prelude.{ℕ, Bool, true, false, List, [], ◌∷◌, ◌++◌, any, Str, codes, if◌then◌else◌}

pub data Group : Type 0 where
  injection signatures structural reputation : Group

unfoldable pub group_as_str : Group → Str
group_as_str injection = codes "injection"
group_as_str signatures = codes "signatures"
group_as_str structural = codes "structural"
group_as_str reputation = codes "reputation"

-- `PartialEq` of the enumeration.
unfoldable pub group_eq : Group → Group → Bool
group_eq injection injection = true
group_eq signatures signatures = true
group_eq structural structural = true
group_eq reputation reputation = true
group_eq _ _ = false

pub data Severity : Type 0 where
  low medium high critical : Severity

unfoldable pub severity_as_str : Severity → Str
severity_as_str low = codes "low"
severity_as_str medium = codes "medium"
severity_as_str high = codes "high"
severity_as_str critical = codes "critical"

-- The derived order: the position of the variant.
unfoldable pub rank : Severity → ℕ
rank low = 0
rank medium = 1
rank high = 2
rank critical = 3

pub record Verdict : Type 0 where
  pub group : Group
  pub rule : Str
  pub severity : Severity
  pub detail : Str

-- A detector on requests of type `R`. `inspect` takes `&self`; the one detector with inner state,
-- the reputation detector, threads its own state, so every detector here is a step on a state `S`.
pub record Detector (S R : Type 0) : Type 0 where
  pub group : Group
  pub inspect : S → R → S × List Verdict

-- `enabled.contains(&d.group())`.
unfoldable pub is_enabled : List Group → Group → Bool
unfolding any group_eq
is_enabled enabled g = any (group_eq g) enabled

-- `Engine::inspect`: the detectors run in order, and their verdicts are concatenated.
unfoldable pub engine_inspect :
    {S R : Type 0} → List (Detector S R) → S → R → List Group → S × List Verdict
unfolding is_enabled
engine_inspect [] s req enabled = (s, [])
engine_inspect (d ∷ ds) s req enabled =
    let run = d.inspect s req in
    let hit = engine_inspect ds run.0 req enabled in
    let miss = engine_inspect ds s req enabled in
    if is_enabled enabled d.group then (hit.0, run.1 ++ hit.1) else miss

pub data Mode : Type 0 where
  monitor enforce : Mode

pub data GroupMode : Type 0 where
  enforce monitor off : GroupMode
