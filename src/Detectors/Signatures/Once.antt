-- ===== src/Detectors/Signatures/Once.antt =====
-- What `SignatureDetector::inspect` reports, for any table of signatures.
use purple_wolf.Detectors.Signatures.{
  Signature, Seen, signatures, verdict_of, report, report_all, unmatched, scan, inspect,
}
use purple_wolf.Detectors.{Verdict}
use purple_wolf.Prelude.{
  ◌>>=◌, ℕ, zero, suc, ◌<◌, Bool, true, false, List, [], ◌∷◌, ◌++◌, flat_map, length, get_elem?,
  set, All, ◌==◌, ◌||◌, if◌then◌else◌, Option, none, some, Bytes, ◌≡◌, refl, ap, ◌∙◌, inl, inr,
  arith, Bool-cases, Option-cases, get_elem?-set, append_assoc, append-nil,
}
use purple_wolf.Request.Fields.{fields}
use purple_wolf.Request.{Request}

abbrev member : ℕ → List ℕ → Bool
member i [] = false
member i (j ∷ js) = j == i || member i js

-- The patterns that are not in `seen`, each where it first occurs.
abbrev pub firsts : List ℕ → List ℕ → List ℕ
firsts seen [] = []
firsts seen (i ∷ is) = if member i seen then firsts seen is else i ∷ firsts (i ∷ seen) is

abbrev pub verdict_list : Option Signature → List Verdict
verdict_list none = []
verdict_list (some s) = verdict_of s ∷ []

abbrev pub named : List Signature → ℕ → List Verdict
named table i = verdict_list (get_elem? table i)

-- The flags stand for the patterns that were seen.
Marks : ℕ → List Bool → List ℕ → Type 0
Marks n matched seen = (i : ℕ) → i < n → get_elem? matched i ≡ some (member i seen)

pub get_elem?-of_lt :
    (table : List Signature) (i : ℕ)
    → i < length table
    → (s : Signature) × (get_elem? table i ≡ some s)
get_elem?-of_lt [] i h = elim h [ ]
get_elem?-of_lt (s ∷ table) zero h = (s, refl)
get_elem?-of_lt (s ∷ table) (suc i) h = get_elem?-of_lt table i (omega arith)

if-some : (b c : Bool) → (if b then some true else some c) ≡ some (b || c)
if-some true c = refl
if-some false c = refl

Marks-set :
    (n : ℕ) (matched : List Bool) (seen : List ℕ) (p : ℕ)
    → Marks n matched seen
    → p < n
    → Marks n (set matched p true) (p ∷ seen)
unfolding Marks
Marks-set n matched seen p h fits i below =
    rw (get_elem?-set matched p i true (h p fits), h i below) (if-some (p == i) (member i seen))

module _ (table : List Signature) where
  report-seen :
      (matched : List Bool) (vs : List Verdict) (p : ℕ)
      → get_elem? matched p ≡ some true
      → report table (matched, vs) p ≡ some (matched, vs)
  unfolding report
  report-seen matched vs p e = rw e

  report-new :
      (matched : List Bool) (vs : List Verdict) (p : ℕ) {s : Signature}
      → get_elem? matched p ≡ some false
      → get_elem? table p ≡ some s
      → report table (matched, vs) p ≡ some (set matched p true, vs ++ named table p)
  unfolding report
  report-new matched vs p e found = rw (e, found)

  mark :
      (matched : List Bool) (seen : List ℕ)
      → Marks (length table) matched seen
      → (i : ℕ) → i < length table
      → get_elem? matched i ≡ some (member i seen)
  unfolding Marks
  mark matched seen h i below = h i below

  report_all-firsts :
      (ms seen : List ℕ) (matched : List Bool) (vs : List Verdict)
      → Marks (length table) matched seen
      → All (λ i. i < length table) ms
      → (after : List Bool) × (report_all table (matched, vs) ms
          ≡ some (after, vs ++ flat_map (named table) (firsts seen ms)))
  unfolding report_all flat_map
  report_all-firsts [] seen matched vs h fits = (matched, rw (append-nil vs))
  report_all-firsts (m ∷ ms) seen matched vs h (below, fits) = elim (Bool-cases (member m seen)) [
    | inl old ↦
        let (after, e) = report_all-firsts ms seen matched vs h fits in
        (after, rw (report-seen matched vs m (mark matched seen h m below ∙ ap some old), old) e)
    | inr new ↦
        let (s, found) = get_elem?-of_lt table m below in
        let (after, e) =
          report_all-firsts ms (m ∷ seen) (set matched m true) (vs ++ named table m)
            (Marks-set (length table) matched seen m h below) fits in
        (
          after,
          rw (report-new matched vs m (mark matched seen h m below ∙ ap some new) found, new)
              (e
                ∙ rw (
                    append_assoc vs (named table m)
                      (flat_map (named table) (firsts (m ∷ seen) ms)))),
        )
  ]

  report_all-append :
      (ms ns : List ℕ) (seen : Seen)
      → report_all table seen (ms ++ ns)
        ≡ (report_all table seen ms >>= λ seen'. report_all table seen' ns)
  unfolding report_all
  report_all-append [] ns seen = refl
  report_all-append (m ∷ ms) ns seen = elim (Option-cases (report table seen m)) [
    | inl panics ↦ rw panics
    | inr (seen', runs) ↦ rw runs (report_all-append ms ns seen')
  ]

  scan-report_all :
      (find_iter : Bytes → List ℕ) (fs : List Bytes) (seen : Seen)
      → scan find_iter table seen fs ≡ report_all table seen (flat_map find_iter fs)
  unfolding scan report_all flat_map
  scan-report_all find_iter [] seen = refl
  scan-report_all find_iter (f ∷ fs) seen =
      elim (Option-cases (report_all table seen (find_iter f))) [
        | inl panics ↦
            rw (panics, report_all-append (find_iter f) (flat_map find_iter fs) seen, panics)
        | inr (seen', runs) ↦
            rw (report_all-append (find_iter f) (flat_map find_iter fs) seen, runs)
              (scan-report_all find_iter fs seen')
      ]

  get_elem?-unmatched :
      (t : List Signature) (i : ℕ) → i < length t → get_elem? (unmatched t) i ≡ some false
  unfolding unmatched
  get_elem?-unmatched [] i h = elim h [ ]
  get_elem?-unmatched (_ ∷ t) zero h = refl
  get_elem?-unmatched (_ ∷ t) (suc i) h = get_elem?-unmatched t i (omega arith)

  Marks-unmatched : Marks (length table) (unmatched table) []
  unfolding Marks
  Marks-unmatched = get_elem?-unmatched table

module _ (find_iter : Bytes → List ℕ) {Ip : Type 0} (req : Request Ip) where
  -- When the automaton only names patterns of the table, the detector does not panic, and its verdicts
  -- are those of the patterns that match in some field, each pattern once, where it first matches.
  pub inspect-firsts :
      All (λ i. i < length signatures) (flat_map find_iter (fields req))
      → inspect find_iter req
        ≡ some (flat_map (named signatures) (firsts [] (flat_map find_iter (fields req))))
  unfolding inspect
  inspect-firsts fits =
      let run =
        report_all-firsts signatures (flat_map find_iter (fields req)) [] (unmatched signatures) []
          (Marks-unmatched signatures) fits in
      rw (scan-report_all signatures find_iter (fields req) (unmatched signatures, []), run.1)
