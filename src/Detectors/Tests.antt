-- ===== src/Detectors/Tests.antt =====
-- Runs of the detectors, and the properties at concrete requests.
use purple_wolf.Detectors.Signatures.Once.{firsts, named, inspect-firsts}
use purple_wolf.Detectors.Signatures.{signatures}
use purple_wolf.Detectors.Structural.Rules.{Anomaly, reports, inspect-any}
use purple_wolf.Detectors.Structural.{allowed_methods}
use purple_wolf.Prelude.{
  All, not, ltb, contains, str_eq, ℕ, false, ◌||◌, ◌==◌, List, [], ◌∷◌, any, flat_map,
  if◌then◌else◌, none, some, Bytes, codes, ◌≡◌, refl, arith,
}
use purple_wolf.Request.Fields.{fields}
use purple_wolf.Request.{Request}

abbrev pub a_request : Request ℕ
a_request = record {
  method = codes "GET";
  host = codes "h";
  path = codes "/a";
  raw_query = none;
  query_params = (codes "q", codes "x`y$(z") ∷ (codes "r", codes "`") ∷ [];
  headers = (codes "user-agent", codes "M (X) 1 OR 1") ∷ [];
  header_bytes = 22;
  body = [];
  body_inspected = false;
  body_truncated = false;
  source_ip = 7;
  inspectable_headers = codes "M (X) 1 OR 1" ∷ [];
}

inspect-any_example :
    (reports (codes "method_not_allowed") (purple_wolf.Detectors.Structural.inspect a_request)
      ≡ not (any (str_eq (codes "GET")) allowed_methods))
    × (reports (codes "headers_too_large") (purple_wolf.Detectors.Structural.inspect a_request)
        ≡ ltb 16384 22)
    × (reports (codes "too_many_headers") (purple_wolf.Detectors.Structural.inspect a_request)
        ≡ ltb 100 1)
    × (reports (codes "null_byte") (purple_wolf.Detectors.Structural.inspect a_request)
        ≡ (contains 0 (codes "/a") || any (λ q. contains 0 q.1) a_request.query_params))
    × (reports (codes "crlf_injection") (purple_wolf.Detectors.Structural.inspect a_request) ≡ (
        (contains 13 (codes "/a") || contains 10 (codes "/a"))
        || any (λ q. contains 13 q.1 || contains 10 q.1) a_request.query_params))
    × All Anomaly (purple_wolf.Detectors.Structural.inspect a_request)
inspect-any_example = inspect-any a_request

-- An automaton that knows two of the patterns.
abbrev find_iter : Bytes → List ℕ
find_iter [] = []
find_iter (a ∷ s) =
    let rest = find_iter s in if a == b'`' then 7 ∷ rest else if a == b'$' then 6 ∷ rest else rest

inspect-firsts_example :
    purple_wolf.Detectors.Signatures.inspect find_iter a_request
    ≡ some (flat_map (named signatures) (firsts [] (flat_map find_iter (fields a_request))))
unfolding signatures fields flat_map
inspect-firsts_example =
    inspect-firsts find_iter a_request (omega arith, (omega arith, (omega arith, tt)))

found : firsts [] (flat_map find_iter (fields a_request)) ≡ 7 ∷ 6 ∷ []
unfolding flat_map fields
found = refl
