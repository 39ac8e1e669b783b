-- ===== src/Detectors/Injection.antt =====
-- `InjectionDetector` of crates/purple-wolf-core/src/detectors/injection.rs.
pub mod Probe
use purple_wolf.Detectors.{Group, high, critical, Verdict}
use purple_wolf.Prelude.{
  ℕ, zero, suc, ◌+◌, Bool, true, false, not, ◌&&◌, ◌||◌, ◌==◌, ltb, List, [], ◌∷◌, ◌++◌, map,
  length, drop, take, if◌then◌else◌, Option, none, some, ◌>>=◌, Bytes, Str, codes, str_eq, find,
  trim,
}
use purple_wolf.Request.Fields.{fields}
use purple_wolf.Request.{Request, non_empty, user_agent}

-- `str::rfind` of a byte.
unfoldable pub rfind : ℕ → Str → Option ℕ
rfind c [] = none
rfind c (a ∷ s) = elim (rfind c s) [
  | some i ↦ some (suc i)
  | none ↦ if a == c then some 0 else none
]

-- The tail behind an index, when it is not empty and shorter than the value.
unfoldable pub tail_behind : Str → ℕ → Option Str
tail_behind ua idx =
    let tail = trim (drop (suc idx) ua) in
    if non_empty tail && ltb (length tail) (length ua) then some tail else none

unfoldable pub option_eq : Option Str → Option Str → Bool
option_eq none none = true
option_eq (some a) (some b) = str_eq a b
option_eq _ _ = false

unfoldable pub unless_same : Option Str → Str → Option Str
unless_same seen tail = if not (option_eq (some tail) seen) then some tail else none

unfoldable pub find_after_paren : Str → Option Str
find_after_paren ua = do idx ← rfind b')' ua; tail_behind ua idx

unfoldable pub find_after_space : Str → Option Str → Option Str
find_after_space ua after_paren = do
  idx ← find (b' ' ∷ []) ua
  tail ← tail_behind ua idx
  unless_same after_paren tail

unfoldable pub ua_suffix_candidates : Str → Option Str × Option Str
unfolding find_after_paren find_after_space
ua_suffix_candidates ua = (find_after_paren ua, find_after_space ua (find_after_paren ua))

-- `into_iter().flatten()`.
abbrev pub flatten : Option Str × Option Str → List Str
flatten (none, none) = []
flatten (none, some b) = b ∷ []
flatten (some a, none) = a ∷ []
flatten (some a, some b) = a ∷ b ∷ []

-- `lossy_chars` is the lossy conversion with `chars`, and `collect` puts characters into a text.
module _ (lossy_chars : Bytes → List ℕ) (collect : List ℕ → Str) where
  unfoldable pub printable : ℕ → ℕ
  printable c = if ltb c 0x20 || c == 0x7f then b'.' else c

  unfoldable pub truncate_bytes : Bytes → Str
  unfolding printable
  truncate_bytes s = collect (map printable (take 80 (lossy_chars s)))

  unfoldable pub sqli_verdict : Str → Bytes → Verdict
  sqli_verdict intro s = record {
    group = Group.injection;
    rule = codes "sqli";
    severity = critical;
    detail = intro ++ truncate_bytes s;
  }

  unfoldable pub xss_verdict : Bytes → Verdict
  xss_verdict s = record {
    group = Group.injection;
    rule = codes "xss";
    severity = high;
    detail = codes "XSS in field: " ++ truncate_bytes s;
  }

  -- The calls of libinjection.
  module _ (is_sqli is_xss : Bytes → Bool) where
    unfoldable pub field_verdicts : Bytes → List Verdict
    field_verdicts field =
        (if is_sqli field then sqli_verdict (codes "SQLi in field: ") field ∷ [] else [])
        ++ (if is_xss field then xss_verdict field ∷ [] else [])

    -- The loop over the fields, with its flag.
    unfoldable pub scan : Bool → List Bytes → Bool × List Verdict
    scan found [] = (found, [])
    scan found (field ∷ rest) =
        let (found', vs) = scan (if is_sqli field then true else found) rest in
        (found', field_verdicts field ++ vs)

    -- The probes, which end at the first hit.
    unfoldable pub probe : List Str → List Verdict
    probe [] = []
    probe (cand ∷ cands) =
        let rest = probe cands in
        if is_sqli cand then sqli_verdict (codes "SQLi in User-Agent suffix: ") cand ∷ [] else rest

    unfoldable pub probe_user_agent : Option Str → List Verdict
    probe_user_agent none = []
    probe_user_agent (some ua) = probe (flatten (ua_suffix_candidates ua))

    module _ {Ip : Type 0} where
      -- The fields are those that the iterator of the request gives (Request/Fields).
      unfoldable pub inspect : Request Ip → List Verdict
      inspect req =
          let (sqli_found, vs) = scan false (fields req) in
          vs ++ (if not sqli_found then probe_user_agent (user_agent req) else [])
