-- ===== src/Detectors/Structural/Rules.antt =====
-- What `StructuralDetector` of crates/purple-wolf-core/src/detectors/structural.rs reports.
use purple_wolf.Detectors.Structural.{
  allowed_methods, push_if, has_nul, has_line_break, control_loop, control_verdicts, control_bytes,
  shape_verdicts, inspect,
}
use purple_wolf.Detectors.{Group, medium, Verdict}
use purple_wolf.Prelude.{
  Bool, true, false, not, ◌&&◌, ◌||◌, List, [], ◌∷◌, ◌++◌, length, any, All, ltb, if◌then◌else◌,
  Str, codes, str_eq, contains, ◌≡◌, refl, ◌∙◌, arith,
}
use purple_wolf.Request.{Request}

round-any :
    (n c a b x y : Bool)
    → ◌≡◌ {A = Bool × Bool}
        (let n' = if not n && a then true else n in
          let c' = if not c && b then true else c in
          if n' && c' then (n', c') else (n' || x, c' || y))
        (n || (a || x), c || (b || y))
round-any true true a b x y = refl
round-any true false a true x y = refl
round-any true false a false x y = refl
round-any false true true b x y = refl
round-any false true false b x y = refl
round-any false false true true x y = refl
round-any false false true false x y = refl
round-any false false false true x y = refl
round-any false false false false x y = refl

control_loop-any :
    (n c : Bool) (qs : List (Str × Str))
    → control_loop n c qs ≡ (n || any (λ q. has_nul q.1) qs, c || any (λ q. has_line_break q.1) qs)
unfolding control_loop any
control_loop-any true true [] = refl
control_loop-any true false [] = refl
control_loop-any false true [] = refl
control_loop-any false false [] = refl
control_loop-any n c ((k, v) ∷ qs) =
    rw
      (control_loop-any (if not n && has_nul v then true else n)
        (if not c && has_line_break v then true else c) qs)
      (round-any n c (has_nul v) (has_line_break v) _ _)

control_bytes-any :
    {Ip : Type 0} (req : Request Ip)
    → control_bytes req ≡ (
      has_nul req.path || any (λ q. has_nul q.1) req.query_params,
      has_line_break req.path || any (λ q. has_line_break q.1) req.query_params,
    )
unfolding control_bytes
control_bytes-any req =
    control_loop-any (has_nul req.path) (has_line_break req.path) req.query_params

or-false : (b : Bool) → (b || false) ≡ b
or-false true = refl
or-false false = refl

-- Some verdict of the list names the rule.
abbrev pub reports : Str → List Verdict → Bool
reports rule vs = any (λ v. str_eq v.rule rule) vs

reports-append :
    (rule : Str) (xs ys : List Verdict)
    → reports rule (xs ++ ys) ≡ (reports rule xs || reports rule ys)
unfolding any
reports-append rule [] ys = refl
reports-append rule (x ∷ xs) ys = ground (arith, reports-append rule xs ys)

reports-push_if :
    (b : Bool) (name detail rule : Str)
    → reports rule (push_if b name detail) ≡ (b && str_eq name rule)
unfolding push_if any
reports-push_if true name detail rule = or-false (str_eq name rule)
reports-push_if false name detail rule = refl

-- The five verdicts of the detector, by their conditions.
abbrev pub five : Bool → Bool → Bool → Bool → Bool → Str → Bool
five a b c d e rule =
    (((a && str_eq (codes "method_not_allowed") rule)
        || (b && str_eq (codes "headers_too_large") rule))
      || (c && str_eq (codes "too_many_headers") rule))
    || ((d && str_eq (codes "null_byte") rule) || (e && str_eq (codes "crlf_injection") rule))

first : (a b c d e : Bool) → five a b c d e (codes "method_not_allowed") ≡ a
unfolding str_eq
first a b c d e = ground arith

second : (a b c d e : Bool) → five a b c d e (codes "headers_too_large") ≡ b
unfolding str_eq
second a b c d e = ground arith

third : (a b c d e : Bool) → five a b c d e (codes "too_many_headers") ≡ c
unfolding str_eq
third a b c d e = ground arith

fourth : (a b c d e : Bool) → five a b c d e (codes "null_byte") ≡ d
unfolding str_eq
fourth a b c d e = ground arith

fifth : (a b c d e : Bool) → five a b c d e (codes "crlf_injection") ≡ e
unfolding str_eq
fifth a b c d e = ground arith

-- The group and the severity of a verdict of this detector.
abbrev pub Anomaly : Verdict → Type 0
Anomaly v = (v.group ≡ Group.structural) × (v.severity ≡ medium)

All-append : (xs ys : List Verdict) → All Anomaly xs → All Anomaly ys → All Anomaly (xs ++ ys)
All-append [] ys h k = k
All-append (x ∷ xs) ys (a, h) k = (a, All-append xs ys h k)

push_if-Anomaly : (b : Bool) (rule detail : Str) → All Anomaly (push_if b rule detail)
unfolding push_if
push_if-Anomaly true rule detail = ((refl, refl), tt)
push_if-Anomaly false rule detail = tt

module _ {Ip : Type 0} where
  inspect-five :
      (req : Request Ip) (rule : Str)
      → reports rule (inspect req)
        ≡ five
            (not (any (str_eq req.method) allowed_methods))
            (ltb 16384 req.header_bytes)
            (ltb 100 (length req.headers))
            (has_nul req.path || any (λ q. has_nul q.1) req.query_params)
            (has_line_break req.path || any (λ q. has_line_break q.1) req.query_params)
            rule
  unfolding inspect shape_verdicts control_verdicts
  inspect-five req rule = rw (control_bytes-any req) (simp (reports-append, reports-push_if) refl)

  inspect-Anomaly : (req : Request Ip) → All Anomaly (inspect req)
  unfolding inspect shape_verdicts control_verdicts
  inspect-Anomaly req =
      All-append _ _
        (All-append _ _ (All-append _ _ (push_if-Anomaly _ _ _) (push_if-Anomaly _ _ _))
          (push_if-Anomaly _ _ _))
        (All-append _ _ (push_if-Anomaly _ _ _) (push_if-Anomaly _ _ _))

  -- Each rule of the detector is reported exactly under its condition: the method is none of the seven
  -- listed, the headers have more than 16384 bytes, there are more than 100 headers, and the decoded path
  -- or the decoded value of some query parameter has a NUL byte, or has a CR or an LF. So the early exit of
  -- the loop over the parameters loses nothing. Every verdict is of the structural group and medium.
  pub inspect-any :
      (req : Request Ip)
      → (reports (codes "method_not_allowed") (inspect req)
          ≡ not (
              any (str_eq req.method) (
                codes "GET"
                ∷ codes "POST"
                ∷ codes "PUT"
                ∷ codes "PATCH"
                ∷ codes "DELETE"
                ∷ codes "HEAD"
                ∷ codes "OPTIONS"
                ∷ [])))
        × (reports (codes "headers_too_large") (inspect req) ≡ ltb 16384 req.header_bytes)
        × (reports (codes "too_many_headers") (inspect req) ≡ ltb 100 (length req.headers))
        × (reports (codes "null_byte") (inspect req)
            ≡ (contains 0 req.path || any (λ q. contains 0 q.1) req.query_params))
        × (reports (codes "crlf_injection") (inspect req) ≡ (
            (contains 13 req.path || contains 10 req.path)
            || any (λ q. contains 13 q.1 || contains 10 q.1) req.query_params))
        × All Anomaly (inspect req)
  unfolding has_nul has_line_break
  inspect-any req =
      let a = not (any (str_eq req.method) allowed_methods) in
      let b = ltb 16384 req.header_bytes in
      let c = ltb 100 (length req.headers) in
      let d = has_nul req.path || any (λ q. has_nul q.1) req.query_params in
      let e = has_line_break req.path || any (λ q. has_line_break q.1) req.query_params in
      (
        inspect-five req (codes "method_not_allowed") ∙ first a b c d e,
        inspect-five req (codes "headers_too_large") ∙ second a b c d e,
        inspect-five req (codes "too_many_headers") ∙ third a b c d e,
        inspect-five req (codes "null_byte") ∙ fourth a b c d e,
        inspect-five req (codes "crlf_injection") ∙ fifth a b c d e,
        inspect-Anomaly req,
      )
