-- ===== src/Detectors/Signatures.antt =====
-- `SignatureDetector` of crates/purple-wolf-core/src/detectors/signatures.rs.
pub mod Once
use purple_wolf.Detectors.{Group, Severity, medium, high, critical, Verdict}
use purple_wolf.Prelude.{
  ◌>>=◌, ℕ, zero, suc, ◌+◌, ◌<◌, ◌≤◌, Bool, true, false, List, [], ◌∷◌, ◌++◌, map, flat_map, length,
  get_elem?, set, All, ◌==◌, ◌||◌, if◌then◌else◌, Option, none, some, Bytes, Str, codes, ◌≡◌, refl,
  sym, ap, inl, inr, arith, Bool-cases, length-set, get_elem?-set,
}
use purple_wolf.Request.Fields.{fields}
use purple_wolf.Request.{Request}

pub record Signature : Type 0 where
  pub literal : Str
  pub rule : Str
  pub severity : Severity

abbrev sig : Str → Str → Severity → Signature
sig l r s = record { literal = l; rule = r; severity = s }

unfoldable pub signatures : List Signature
signatures =
    sig (codes "../") (codes "path_traversal") high
    ∷ sig (codes "..\\") (codes "path_traversal") high
    ∷ sig (codes "/etc/passwd") (codes "lfi") critical
    ∷ sig (codes "/etc/shadow") (codes "lfi") critical
    ∷ sig (codes "/proc/self/environ") (codes "lfi") critical
    ∷ sig (codes "/web-inf/") (codes "lfi") high
    ∷ sig (codes "$(") (codes "rce_subshell") critical
    ∷ sig (codes "`") (codes "rce_backtick") high
    ∷ sig (codes "/bin/sh") (codes "rce_shell") critical
    ∷ sig (codes ";wget") (codes "rce_cmd") critical
    ∷ sig (codes ";curl") (codes "rce_cmd") critical
    ∷ sig (codes ";bash") (codes "rce_cmd") critical
    ∷ sig (codes ";nc ") (codes "rce_cmd") critical
    ∷ sig (codes "|bash") (codes "rce_cmd") critical
    ∷ sig (codes "|sh ") (codes "rce_cmd") critical
    ∷ sig (codes "${jndi:") (codes "jndi_lookup") critical
    ∷ sig (codes "php://") (codes "php_wrapper") high
    ∷ sig (codes "phar://") (codes "php_wrapper") high
    ∷ sig (codes "expect://") (codes "php_wrapper") critical
    ∷ sig (codes "xp_cmdshell") (codes "rce_sql") critical
    ∷ sig (codes "sqlmap") (codes "scanner_ua") medium
    ∷ sig (codes "nikto") (codes "scanner_ua") medium
    ∷ sig (codes "nuclei") (codes "scanner_ua") medium
    ∷ []

unfoldable pub verdict_of : Signature → Verdict
verdict_of s = record {
  group = Group.signatures;
  rule = s.rule;
  severity = s.severity;
  detail = codes "matched signature `" ++ s.literal ++ codes "`";
}

abbrev pub Seen : Type 0
Seen = List Bool × List Verdict

-- One match: `none` where an index is out of range.
unfoldable pub report : List Signature → Seen → ℕ → Option Seen
report table (matched, verdicts) pattern = do
  flag ← get_elem? matched pattern
  if flag then some (matched, verdicts) else do
    s ← get_elem? table pattern
    some (set matched pattern true, verdicts ++ verdict_of s ∷ [])

unfoldable pub report_all : List Signature → Seen → List ℕ → Option Seen
report_all table seen [] = some seen
report_all table seen (m ∷ ms) = do seen' ← report table seen m; report_all table seen' ms

unfoldable pub unmatched : List Signature → List Bool
unmatched [] = []
unmatched (_ ∷ table) = false ∷ unmatched table

-- `find_iter` gives the patterns of the matches of the aho-corasick automaton in a field.
module _ (find_iter : Bytes → List ℕ) where
  unfoldable pub scan : List Signature → Seen → List Bytes → Option Seen
  unfolding report_all
  scan table seen [] = some seen
  scan table seen (field ∷ rest) = do
    seen' ← report_all table seen (find_iter field)
    scan table seen' rest

  module _ {Ip : Type 0} where
    -- The fields are those that the iterator of the request gives (Request/Fields).
    unfoldable pub inspect : Request Ip → Option (List Verdict)
    unfolding scan unmatched
    inspect req = do
      (_, verdicts) ← scan signatures (unmatched signatures, []) (fields req)
      some verdicts
