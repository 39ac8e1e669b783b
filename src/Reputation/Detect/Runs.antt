-- ===== src/Reputation/Detect/Runs.antt =====
-- Sequences of requests for `ReputationDetector` of
-- crates/purple-wolf-core/src/detectors/reputation.rs, from `with_capacity` on.
use mathlib.Core.Logic.{ite}
use purple_wolf.Detectors.{Group, Severity, medium, high, Verdict}
use purple_wolf.Prelude.{
  ◌>>=◌, ℕ, ◌≤◌, max, Bool, true, false, ◌||◌, List, [], ◌∷◌, ◌++◌, map, any, Option, some,
  if◌then◌else◌, Str, codes, ◌≡◌, refl, ap, ◌∙◌, inl, inr, Bool-cases, Option-cases,
}
use purple_wolf.Reputation.Detect.{
  DenyList, ReputationDetector, with_capacity, deny_list_new, deny_contains-new, member,
  denied_verdicts, limited_verdicts, locked_check, inspect,
}
use purple_wolf.Reputation.Float.{Float}
use purple_wolf.Reputation.Lru.Runs.{run_checks, run_checks-new, spec_run}
use purple_wolf.Reputation.Lru.{nil, LruTokenBuckets, check, new}

-- What a verdict is told by.
abbrev pub Tag : Type 0
Tag = Group × Str × Severity

abbrev pub tag : Verdict → Tag
tag v = (v.group, v.rule, v.severity)

abbrev pub limited_tags : Bool → List Tag
limited_tags allowed = if allowed then [] else (Group.reputation, codes "rate_limited", medium) ∷ []

module _ {K : Type 0} (dec : Discrete K) where
  -- Some entry is the address.
  abbrev pub listed : List K → K → Bool
  listed items ip = any (λ item. ite (dec item ip) true false) items

  ite-or : {P : Type 0} (d : Dec P) (b : Bool) → ite d true b ≡ (ite d true false || b)
  ite-or (yes p) b = refl
  ite-or (no p) b = refl

  member-listed : (items : List K) (ip : K) → member dec ip items ≡ listed items ip
  unfolding member any
  member-listed [] ip = refl
  member-listed (a ∷ items) ip =
      ite-or (dec a ip) (member dec ip items)
      ∙ ap (λ b. ite (dec a ip) true false || b) (member-listed items ip)

  -- The verdicts on one request.
  abbrev pub expected : List K → K → Bool → List Tag
  expected items ip allowed =
      (if listed items ip then (Group.reputation, codes "ip_denied", high) ∷ [] else [])
      ++ limited_tags allowed

  abbrev pub expected_all : List K → List (ℕ × K) → List Bool → List (List Tag)
  expected_all items [] bs = []
  expected_all items (req ∷ reqs) [] = []
  expected_all items ((now, ip) ∷ reqs) (b ∷ bs) = expected items ip b ∷ expected_all items reqs bs

  module _ {T : Type 0} (f : Float T) (show_ip : K → Str) where
    -- The requests of a run are times and addresses; its lists of verdicts are in the same order.
    unfoldable pub run_inspects :
        List (ℕ × K)
        → ReputationDetector K T
        → Option (ReputationDetector K T × List (List Verdict))
    run_inspects [] d = some (d, [])
    run_inspects ((now, ip) ∷ reqs) d = do
      (d', verdicts) ← inspect dec f show_ip d now ip
      (last, rest) ← run_inspects reqs d'
      some (last, verdicts ∷ rest)

    abbrev verdict_lists : ReputationDetector K T → List (ℕ × K) → List Bool → List (List Verdict)
    verdict_lists d [] bs = []
    verdict_lists d (req ∷ reqs) [] = []
    verdict_lists d ((now, ip) ∷ reqs) (b ∷ bs) =
        (denied_verdicts dec f show_ip d ip ++ limited_verdicts dec f show_ip b ip)
        ∷ verdict_lists d reqs bs

    -- A detector whose mutex is not poisoned.
    abbrev running : LruTokenBuckets K T → DenyList K → ReputationDetector K T
    running s l = record { state = s; poisoned = false; deny_list = l }

    verdict_lists-state :
        (s t : LruTokenBuckets K T) (l : DenyList K) (reqs : List (ℕ × K)) (bs : List Bool)
        → verdict_lists (running t l) reqs bs ≡ verdict_lists (running s l) reqs bs
    unfolding denied_verdicts
    verdict_lists-state s t l [] bs = refl
    verdict_lists-state s t l (req ∷ reqs) [] = refl
    verdict_lists-state s t l ((now, ip) ∷ reqs) (b ∷ bs) =
        ap
          (λ vs.
            (denied_verdicts dec f show_ip (running s l) ip ++ limited_verdicts dec f show_ip b ip)
            ∷ vs)
          (verdict_lists-state s t l reqs bs)

    tags-limited :
        (ip : K) (b : Bool) → map tag (limited_verdicts dec f show_ip b ip) ≡ limited_tags b
    unfolding limited_verdicts
    tags-limited ip true = refl
    tags-limited ip false = refl

    tags-denied :
        (d : ReputationDetector K T) (items : List K) (ip : K) (b : Bool)
        → d.deny_list ≡ deny_list_new dec items
        → map tag (denied_verdicts dec f show_ip d ip ++ limited_verdicts dec f show_ip b ip)
          ≡ expected items ip b
    unfolding denied_verdicts
    tags-denied d items ip b e = elim (Bool-cases (listed items ip)) [
      | inl on ↦
          rw (e, deny_contains-new dec items ip, member-listed items ip, on)
            (ap (◌∷◌ (Group.reputation, codes "ip_denied", high)) (tags-limited ip b))
      | inr off ↦
          rw (e, deny_contains-new dec items ip, member-listed items ip, off) (tags-limited ip b)
    ]

    tags-verdict_lists :
        (d : ReputationDetector K T) (items : List K) (reqs : List (ℕ × K)) (bs : List Bool)
        → d.deny_list ≡ deny_list_new dec items
        → map (map tag) (verdict_lists d reqs bs) ≡ expected_all items reqs bs
    tags-verdict_lists d items [] bs e = refl
    tags-verdict_lists d items (req ∷ reqs) [] e = refl
    tags-verdict_lists d items ((now, ip) ∷ reqs) (b ∷ bs) e =
        ap (λ ts. ts ∷ map (map tag) (verdict_lists d reqs bs)) (tags-denied d items ip b e)
        ∙ ap (◌∷◌ (expected items ip b)) (tags-verdict_lists d items reqs bs e)

    run_inspects-run_checks :
        (reqs : List (ℕ × K)) (s : LruTokenBuckets K T) (l : DenyList K)
        → run_inspects reqs (running s l) ≡ (
            run_checks dec f reqs s >>= λ r.
            some (running r.0 l, verdict_lists (running s l) reqs r.1))
    unfolding run_inspects run_checks inspect locked_check
    run_inspects-run_checks [] s l = refl
    run_inspects-run_checks ((now, ip) ∷ reqs) s l = elim (Option-cases (check dec f s now ip)) [
      | inl e ↦ rw e refl
      | inr ((t, b), e) ↦
          let later = run_inspects-run_checks reqs t l in
          elim (Option-cases (run_checks dec f reqs t)) [
            | inl e' ↦ rw (e, later, e') refl
            | inr ((u, bs), e') ↦ rw (e, later, e', verdict_lists-state s t l reqs bs) refl
          ]
    ]

    -- Whatever the quota, the deny list, the cap and the requests, a detector that starts with them, the
    -- slab having room for the cap, never panics. On each request its verdicts are a denial, of severity
    -- high, exactly if some entry of the list is the address, and behind it a rate limit, of severity
    -- medium, exactly if the list of buckets, with the quota and the cap raised to at least 1, refuses the
    -- request.
    pub run_inspects-with_capacity :
        (quota : ℕ) (items : List K) (limit : ℕ) (reqs : List (ℕ × K))
        → max limit 1 ≤ nil
        → (last : ReputationDetector K T) × (verdicts : List (List Verdict)) × (run_inspects reqs
              (with_capacity dec quota items limit)
            ≡ some (last, verdicts))
          × (map (map tag) verdicts
              ≡ expected_all items reqs (spec_run dec f (max quota 1) (max limit 1) reqs []).1)
    unfolding with_capacity
    run_inspects-with_capacity quota items limit reqs room =
        let d : ReputationDetector K T = with_capacity dec quota items limit in
        let ran = run_checks-new dec f quota limit reqs room in
        let bs = (spec_run dec f (max quota 1) (max limit 1) reqs []).1 in
        (
          record d { state = ran.after },
          verdict_lists d reqs bs,
          run_inspects-run_checks reqs (new quota limit) (deny_list_new dec items)
              ∙ rw ran.runs refl,
          tags-verdict_lists d items reqs bs refl,
        )
