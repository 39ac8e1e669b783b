-- ===== src/Detectors/Structural.antt =====
-- `StructuralDetector` of crates/purple-wolf-core/src/detectors/structural.rs.
pub mod Rules
use purple_wolf.Detectors.{Group, medium, Verdict}
use purple_wolf.Prelude.{
  ℕ, ◌*◌, Bool, true, false, not, ◌&&◌, ◌||◌, List, [], ◌∷◌, ◌++◌, length, any, All, ltb,
  if◌then◌else◌, Str, codes, str_eq, contains, show, ◌≡◌, refl, ◌∙◌, arith,
}
use purple_wolf.Request.{Request}

abbrev pub allowed_methods : List Str
allowed_methods =
    codes "GET"
    ∷ codes "POST"
    ∷ codes "PUT"
    ∷ codes "PATCH"
    ∷ codes "DELETE"
    ∷ codes "HEAD"
    ∷ codes "OPTIONS"
    ∷ []

abbrev pub max_header_bytes : ℕ
max_header_bytes = 16 * 1024

abbrev pub max_header_count : ℕ
max_header_count = 100

-- A verdict that is pushed under a condition.
unfoldable pub push_if : Bool → Str → Str → List Verdict
push_if b rule detail =
    if b
    then record { group = Group.structural; rule = rule; severity = medium; detail = detail } ∷ []
    else []

unfoldable pub has_nul : Str → Bool
has_nul s = contains 0 s

unfoldable pub has_line_break : Str → Bool
has_line_break s = contains b'\r' s || contains b'\n' s

-- The loop over the query parameters, with its early exit.
unfoldable pub control_loop : Bool → Bool → List (Str × Str) → Bool × Bool
control_loop has_null has_crlf [] = (has_null, has_crlf)
control_loop has_null has_crlf ((_, value) ∷ qs) =
    let n = if not has_null && has_nul value then true else has_null in
    let c = if not has_crlf && has_line_break value then true else has_crlf in
    let rest = control_loop n c qs in if n && c then (n, c) else rest

unfoldable pub control_verdicts : Bool × Bool → List Verdict
control_verdicts (has_null, has_crlf) =
    push_if has_null (codes "null_byte") (codes "NUL byte in request path or query")
    ++ push_if has_crlf (codes "crlf_injection") (codes "CR/LF in request path or query")

module _ {Ip : Type 0} where
  unfoldable pub control_bytes : Request Ip → Bool × Bool
  control_bytes req = control_loop (has_nul req.path) (has_line_break req.path) req.query_params

  unfoldable pub shape_verdicts : Request Ip → List Verdict
  shape_verdicts req =
      push_if (not (any (str_eq req.method) allowed_methods)) (codes "method_not_allowed")
        (codes "method `" ++ req.method ++ codes "` not in allowlist")
      ++ push_if (ltb max_header_bytes req.header_bytes) (codes "headers_too_large")
          (show req.header_bytes ++ codes " header bytes exceeds " ++ show max_header_bytes)
      ++ push_if (ltb max_header_count (length req.headers)) (codes "too_many_headers")
          (show (length req.headers) ++ codes " headers exceeds " ++ show max_header_count)

  unfoldable pub inspect : Request Ip → List Verdict
  inspect req = shape_verdicts req ++ control_verdicts (control_bytes req)
