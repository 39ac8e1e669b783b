-- ===== src/Traefik/Adapter/Accepted.antt =====
-- What holds of a configuration that the adapter lets through.
use mathlib.Core.Option.{some-injective}
use purple_wolf.Config.{Config, GroupConfig, LabelError, validate_labels}
use purple_wolf.Detectors.{Group, GroupMode}
use purple_wolf.Prelude.{
  ℕ, ◌≤◌, Bool, true, false, not, ◌==◌, if◌then◌else◌, List, [], ◌∷◌, keep, All, Option, none, some,
  or_else, ◌>>=◌, Str, Bytes, ◌≡◌, refl, sym, ap, ◌∙◌, subst, arith, Bool-cases, Option-cases, inl,
  inr,
}
use purple_wolf.Traefik.Adapter.{
  Adapted, AdapterError, Warning, Wire, WireGroups, WireBody, WireReputation, WireXff, Raw,
  labelled, parse_wire, read_wire, parse, config_from, all_warnings, kept_labels, clamp,
  is_reserved, fill_groups, groups_from, read_groups, read_body, read_reputation, read_xff,
}
use purple_wolf.Traefik.Body.{max_alloc}
use purple_wolf.Traefik.Entry.{effective_group_mode, mode_of}

pub record Safe (cfg : Config) : Type 0 where
  pub inspects : 1 ≤ cfg.body.max_inspect_bytes
  pub bounded : cfg.body.max_inspect_bytes ≤ max_alloc
  pub rate : 1 ≤ cfg.reputation.per_second
  pub unreserved : All (λ l. is_reserved l ≡ false) cfg.labels
  pub labels : validate_labels cfg.labels ≡ none
  pub injection : GroupConfig
  pub injection_set : cfg.groups.injection ≡ some injection
  pub signatures : GroupConfig
  pub signatures_set : cfg.groups.signatures ≡ some signatures
  pub structural : GroupConfig
  pub structural_set : cfg.groups.structural ≡ some structural
  pub reputation : GroupConfig
  pub reputation_set : cfg.groups.reputation ≡ some reputation

tests-pass :
    (b c : Bool) (x : Adapted) (e₀ e₁ : AdapterError) (cfg : Config) (ws : List Warning)
    → (if b then Adapted.err e₀ else if c then Adapted.err e₁ else x) ≡ Adapted.ok cfg ws
    → (b ≡ false) × (c ≡ false) × (x ≡ Adapted.ok cfg ws)
tests-pass true c x e₀ e₁ cfg ws h = cc
tests-pass false true x e₀ e₁ cfg ws h = cc
tests-pass false false x e₀ e₁ cfg ws h = (refl, refl, h)

labelled-ok :
    (w : Wire) (e : Option LabelError) (cfg : Config) (ws : List Warning)
    → labelled w e ≡ Adapted.ok cfg ws
    → (e ≡ none) × (config_from w ≡ cfg) × (all_warnings w ≡ ws)
unfolding labelled
labelled-ok w (some e) cfg ws h = cc
labelled-ok w none cfg ws h = (refl, cc, cc)

keep-unreserved :
    (ls : List (Str × Str)) → All (λ l. is_reserved l ≡ false) (keep (λ l. not (is_reserved l)) ls)
unfolding keep
keep-unreserved [] = tt
keep-unreserved (l ∷ ls) = elim (Bool-cases (is_reserved l)) [
  | inl reserved ↦ rw reserved (keep-unreserved ls)
  | inr free ↦ rw free (free, keep-unreserved ls)
]

clamp-bounds : (n : ℕ) → n == 0 ≡ false → (1 ≤ clamp n) × (clamp n ≤ max_alloc)
unfolding clamp
clamp-bounds n h = ground arith

filled :
    (o : Option GroupConfig) (d : GroupConfig) → (g : GroupConfig) × (or_else o (some d) ≡ some g)
filled none d = (d, refl)
filled (some g) d = (g, refl)

config_from-Safe :
    (w : Wire)
    → w.reputation.per_second == 0 ≡ false
    → w.body.max_inspect_bytes == 0 ≡ false
    → validate_labels (kept_labels w) ≡ none
    → Safe (config_from w)
unfolding config_from kept_labels
config_from-Safe w rate size valid =
    let (low, high) = clamp-bounds w.body.max_inspect_bytes size in
    let groups = groups_from w.groups in
    let (i, i_set) = filled groups.injection _ in
    let (s, s_set) = filled groups.signatures _ in
    let (t, t_set) = filled groups.structural _ in
    let (r, r_set) = filled groups.reputation _ in
    record {
      inspects = low;
      bounded = high;
      rate = ground arith;
      unreserved = keep-unreserved w.labels;
      labels = valid;
      injection = i;
      injection_set = i_set;
      signatures = s;
      signatures_set = s_set;
      structural = t;
      structural_set = t_set;
      reputation = r;
      reputation_set = r_set;
    }

parse-wire :
    (from_slice : Bytes → Option Raw) (bytes : Bytes) (cfg : Config) (ws : List Warning)
    → parse from_slice bytes ≡ Adapted.ok cfg ws
    → (w : Wire) × ((from_slice bytes >>= read_wire) ≡ some w)
      × (w.reputation.per_second == 0 ≡ false)
      × (w.body.max_inspect_bytes == 0 ≡ false)
      × (validate_labels (kept_labels w) ≡ none)
      × (config_from w ≡ cfg)
unfolding parse parse_wire
parse-wire from_slice bytes cfg ws h = elim (Option-cases (from_slice bytes >>= read_wire)) [
  | inl missing ↦ absurd (ground (arith, missing))
  | inr (w, found) ↦
      let (rate, size, rest) =
        tests-pass (w.reputation.per_second == 0) (w.body.max_inspect_bytes == 0)
          (labelled w (validate_labels (kept_labels w))) _ _ cfg ws
          (ap parse_wire (sym found) ∙ h) in
      let (valid, e, _) = labelled-ok w (validate_labels (kept_labels w)) cfg ws rest in
      (w, found, rate, size, valid, e)
]

-- Whatever the JSON text, a configuration that the adapter accepts inspects at least one byte of a body and
-- at most what the guest can allocate, allows at least one request a second, has only valid labels and none
-- under the reserved prefix, and has every group set.
pub parse-Safe :
    (from_slice : Bytes → Option Raw) (bytes : Bytes) (cfg : Config) (ws : List Warning)
    → parse from_slice bytes ≡ Adapted.ok cfg ws
    → Safe cfg
parse-Safe from_slice bytes cfg ws h =
    let (w, _, rate, size, valid, e) = parse-wire from_slice bytes cfg ws h in
    subst Safe e (config_from-Safe w rate size valid)

wire-groups :
    (b : Option WireBody) (g : Option WireGroups) (r : Option WireReputation) (x : Option WireXff)
    (f : WireBody → WireGroups → WireReputation → WireXff → Wire) (w : Wire)
    → ((b : WireBody) (g : WireGroups) (r : WireReputation) (x : WireXff) → (f b g r x).groups ≡ g)
    → (b >>= λ b. g >>= λ g. r >>= λ r. x >>= λ x. some (f b g r x)) ≡ some w
    → g ≡ some w.groups
wire-groups none g r x f w own h = cc
wire-groups (some b) none r x f w own h = cc
wire-groups (some b) (some g) none x f w own h = cc
wire-groups (some b) (some g) (some r) none f w own h = cc
wire-groups (some b) (some g) (some r) (some x) f w own h =
    ap some (sym (own b g r x) ∙ ap (λ w. w.groups) (some-injective _ _ h))

read_wire-groups :
    (raw : Raw) (w : Wire) → read_wire raw ≡ some w → read_groups raw.groups ≡ some w.groups
unfolding read_wire
read_wire-groups raw w h =
    wire-groups (read_body raw.body) (read_groups raw.groups) (read_reputation raw.reputation)
      (read_xff raw.trusted_hops) _ w (λ b g r x. refl) h

abbrev pub default_mode : Group → GroupMode
default_mode Group.injection = GroupMode.enforce
default_mode Group.signatures = GroupMode.enforce
default_mode Group.structural = GroupMode.monitor
default_mode Group.reputation = GroupMode.off

abbrev no_groups : WireGroups
no_groups = record { injection = none; signatures = none; structural = none; reputation = none }

filled-defaults :
    (cfg : Config) (group : Group)
    → cfg.groups ≡ fill_groups (groups_from no_groups)
    → effective_group_mode cfg group ≡ default_mode group
unfolding effective_group_mode mode_of
filled-defaults cfg Group.injection e = ap (λ g. mode_of g.injection) e
filled-defaults cfg Group.signatures e = ap (λ g. mode_of g.signatures) e
filled-defaults cfg Group.structural e = ap (λ g. mode_of g.structural) e
filled-defaults cfg Group.reputation e = ap (λ g. mode_of g.reputation) e

config_from-defaults :
    (w : Wire) (group : Group)
    → read_groups none ≡ some w.groups
    → effective_group_mode (config_from w) group ≡ default_mode group
unfolding config_from read_groups
config_from-defaults w group h =
    filled-defaults (config_from w) group
      (ap (λ g. fill_groups (groups_from g)) (sym (some-injective _ _ h)))

-- A configuration that names no group is inspected with the injection and signature groups enforced, the
-- structural group monitored and the reputation group off.
pub parse-defaults :
    (from_slice : Bytes → Option Raw) (bytes : Bytes) (raw : Raw) (cfg : Config) (ws : List Warning)
    → from_slice bytes ≡ some raw
    → raw.groups ≡ none
    → parse from_slice bytes ≡ Adapted.ok cfg ws
    → (group : Group) → effective_group_mode cfg group ≡ default_mode group
parse-defaults from_slice bytes raw cfg ws text unnamed h group =
    let (w, found, _, _, _, e) = parse-wire from_slice bytes cfg ws h in
    let groups = read_wire-groups raw w (ap (λ o. o >>= read_wire) (sym text) ∙ found) in
    ap (λ c. effective_group_mode c group) (sym e)
    ∙ config_from-defaults w group (ap read_groups (sym unnamed) ∙ groups)
