-- ===== src/Detectors/Injection/Probe.antt =====
-- What `InjectionDetector::inspect` and its User-Agent probe report.
use purple_wolf.Detectors.Injection.{
  tail_behind, unless_same, ua_suffix_candidates, find_after_paren, find_after_space, rfind,
  field_verdicts, scan, probe_user_agent, inspect,
}
use purple_wolf.Detectors.{Verdict}
use purple_wolf.Prelude.{
  ℕ, suc, ◌<◌, Bool, true, false, not, ◌&&◌, ◌||◌, List, [], ◌∷◌, ◌++◌, any, flat_map, length, drop,
  if◌then◌else◌, Option, none, some, ◌>>=◌, Bytes, Str, find, trim, ◌≡◌, refl, ap, ltb→lt,
}
use purple_wolf.Request.Fields.{fields}
use purple_wolf.Request.{Request, non_empty, user_agent}

or-if : (b c d : Bool) → ((if b then true else c) || d) ≡ (c || (b || d))
or-if true true d = refl
or-if true false d = refl
or-if false c d = refl

if-not : (b : Bool) (vs : List Verdict) → (if not b then vs else []) ≡ (if b then [] else vs)
if-not true vs = refl
if-not false vs = refl

module _ (lossy_chars : Bytes → List ℕ) (collect : List ℕ → Str)
    (is_sqli is_xss : Bytes → Bool) where
  abbrev pub vs_of : Bytes → List Verdict
  vs_of = field_verdicts lossy_chars collect is_sqli is_xss

  scan-flat_map :
      (found : Bool) (fs : List Bytes)
      → scan lossy_chars collect is_sqli is_xss found fs
        ≡ (found || any is_sqli fs, flat_map vs_of fs)
  unfolding scan any flat_map
  scan-flat_map true [] = refl
  scan-flat_map false [] = refl
  scan-flat_map found (f ∷ fs) = rw (
    scan-flat_map (if is_sqli f then true else found) fs,
    or-if (is_sqli f) found (any is_sqli fs),
  )

  module _ {Ip : Type 0} where
    -- The detector reports each inspected field that libinjection takes for SQL or for a script, in the
    -- order of the fields, and probes the tails of the User-Agent exactly when no field was SQL.
    pub inspect-flat_map :
        (req : Request Ip)
        → inspect lossy_chars collect is_sqli is_xss req
          ≡ flat_map vs_of (fields req)
            ++ (if any is_sqli (fields req)
                then []
                else probe_user_agent lossy_chars collect is_sqli is_xss (user_agent req))
    unfolding inspect
    inspect-flat_map req =
        rw (scan-flat_map false (fields req))
          (ap (λ vs. flat_map vs_of (fields req) ++ vs) (if-not (any is_sqli (fields req)) _))

-- A candidate of the probe: it is neither empty nor as long as the whole value.
abbrev pub Shorter : Str → Option Str → Type 0
Shorter ua none = Unit
Shorter ua (some tail) = (non_empty tail ≡ true) × (length tail < length ua)

if-Shorter :
    (ua tail : Str) (b : Bool)
    → (b ≡ true → Shorter ua (some tail))
    → Shorter ua (if b then some tail else none)
if-Shorter ua tail true h = h refl
if-Shorter ua tail false h = tt

bind-Shorter :
    (ua : Str) {A : Type 0} (o : Option A) (f : A → Option Str)
    → ((a : A) → Shorter ua (f a))
    → Shorter ua (o >>= f)
bind-Shorter ua none f h = tt
bind-Shorter ua (some a) f h = h a

and-split : (a b : Bool) → (a && b) ≡ true → (a ≡ true) × (b ≡ true)
and-split true b h = (refl, h)
and-split false b h = absurd cc

tail_behind-Shorter : (ua : Str) (idx : ℕ) → Shorter ua (tail_behind ua idx)
unfolding tail_behind
tail_behind-Shorter ua idx =
    if-Shorter ua (trim (drop (suc idx) ua)) _
      (λ good. let (full, short) = and-split _ _ good in (full, ltb→lt _ _ short))

unless_same-Shorter :
    (ua : Str) (o tail : Option Str) → Shorter ua tail → Shorter ua (tail >>= unless_same o)
unfolding unless_same
unless_same-Shorter ua o none h = tt
unless_same-Shorter ua o (some tail) h = if-Shorter ua tail _ (λ _. h)

-- Every tail that the probe looks at is a text of at least one byte and shorter than the User-Agent
-- value, so the value itself, which was looked at before, is not probed again.
pub ua_suffix_candidates-Shorter :
    (ua : Str) → Shorter ua (ua_suffix_candidates ua).0 × Shorter ua (ua_suffix_candidates ua).1
unfolding ua_suffix_candidates find_after_paren find_after_space
ua_suffix_candidates-Shorter ua = (
  bind-Shorter ua (rfind b')' ua) (tail_behind ua) (tail_behind-Shorter ua),
  bind-Shorter ua (find (b' ' ∷ []) ua) _
      (λ idx. unless_same-Shorter ua _ (tail_behind ua idx) (tail_behind-Shorter ua idx)),
)
