-- ===== src/Reputation/Lru/Runs.antt =====
-- Sequences of requests, from `LruTokenBuckets::new` on.
use purple_wolf.Prelude.{
  ◌>>=◌, ℕ, ◌≤◌, max, Bool, List, [], ◌∷◌, length, Option, some, ◌≡◌, refl, subst, ◌∙◌, arith,
}
use purple_wolf.Reputation.Float.{Float}
use purple_wolf.Reputation.Lru.Acquire.{Repr}
use purple_wolf.Reputation.Lru.Refine.{Served, check-Served}
use purple_wolf.Reputation.Lru.Segment.{Entry, Cells}
use purple_wolf.Reputation.Lru.Spec.{entries, spec_check, slot_of}
use purple_wolf.Reputation.Lru.{nil, LruTokenBuckets, check, new}

module _ {K T : Type 0} (dec : Discrete K) (f : Float T) where
  -- The requests of a run are times and addresses; its answers are in the same order.
  unfoldable pub run_checks :
      List (ℕ × K) → LruTokenBuckets K T → Option (LruTokenBuckets K T × List Bool)
  run_checks [] s = some (s, [])
  run_checks ((now, ip) ∷ reqs) s = do
    (t, allowed) ← check dec f s now ip
    (u, answers) ← run_checks reqs t
    some (u, allowed ∷ answers)

  unfoldable pub spec_run : ℕ → ℕ → List (ℕ × K) → List (Entry K T) → List (Entry K T) × List Bool
  spec_run quota limit [] es = (es, [])
  spec_run quota limit ((now, ip) ∷ reqs) es =
      let step = spec_check dec f quota limit now ip es in
      let rest = spec_run quota limit reqs step.0 in (rest.0, step.1 ∷ rest.1)

  -- The state at the end of a run that gives the answers of the specification.
  pub record Ran (run : Option (LruTokenBuckets K T × List Bool)) (limit : ℕ)
      (buckets : List (Entry K T) × List Bool) : Type 0 where
    pub after : LruTokenBuckets K T
    pub cells : Cells K T
    pub runs : run ≡ some (after, buckets.1)
    pub repr : Repr dec after cells
    pub stands_for : entries cells ≡ buckets.0
    pub within : length after.slab ≤ limit

  -- One request and the rest of the run.
  Ran-cons :
      (quota limit now : ℕ) (ip : K) (reqs : List (ℕ × K)) (s t : LruTokenBuckets K T)
      (es : List (Entry K T))
      → check dec f s now ip ≡ some (t, (spec_check dec f quota limit now ip es).1)
      → Ran
          (run_checks reqs t)
          limit
          (spec_run quota limit reqs (spec_check dec f quota limit now ip es).0)
      → Ran (run_checks ((now, ip) ∷ reqs) s) limit (spec_run quota limit ((now, ip) ∷ reqs) es)
  unfolding run_checks spec_run
  Ran-cons quota limit now ip reqs s t es one more = record {
    after = more.after;
    cells = more.cells;
    runs = rw (one, more.runs);
    repr = more.repr;
    stands_for = more.stands_for;
    within = more.within;
  }

  run_checks-Ran :
      (quota limit : ℕ) (reqs : List (ℕ × K)) (s : LruTokenBuckets K T) (cs : Cells K T)
      → Repr dec s cs
      → s.quota_per_sec ≡ quota
      → s.cap ≡ limit
      → Ran (run_checks reqs s) limit (spec_run quota limit reqs (entries cs))
  unfolding run_checks spec_run
  run_checks-Ran quota limit [] s cs h q c = record {
    after = s;
    cells = cs;
    runs = refl;
    repr = h;
    stands_for = refl;
    within = omega (arith, h.bounded);
  }
  run_checks-Ran quota limit ((now, ip) ∷ reqs) s cs h q c =
      let P : ℕ → ℕ → Type 0 = λ a b.
        Served dec f now s (check dec f s now ip) (spec_check dec f a b now ip (entries cs)) in
      let one : P quota limit =
        subst (P quota) c (subst (λ a. P a s.cap) q (check-Served dec f now s ip cs h)) in
      Ran-cons quota limit now ip reqs s one.after (entries cs) one.runs (
        subst (λ es. Ran (run_checks reqs one.after) limit (spec_run quota limit reqs es))
          one.stands_for
          (run_checks-Ran quota limit reqs one.after one.cells one.repr (one.quota ∙ q)
            (one.cap ∙ c)))

  new_quota :
      (quota limit : ℕ)
      → LruTokenBuckets.quota_per_sec (new {K = K} {T = T} quota limit) ≡ max quota 1
  unfolding new
  new_quota quota limit = refl

  new_cap : (quota limit : ℕ) → LruTokenBuckets.cap (new {K = K} {T = T} quota limit) ≡ max limit 1
  unfolding new
  new_cap quota limit = refl

  pub new-Repr : (quota limit : ℕ) → max limit 1 ≤ nil → Repr {T = T} dec (new quota limit) []
  unfolding new slot_of
  new-Repr quota limit room = record {
    linked = record { chain = tt; head = refl; tail = refl; distinct = tt; no_nil = refl };
    size = refl;
    bounded = omega arith;
    room = room;
    positive = omega arith;
    index = λ k. refl;
    ips = tt;
  }

  -- A run of any length from `new` never panics, gives the answers of the list of buckets with the
  -- quota and the cap raised to at least 1, ends in a state that stands for those buckets, and never
  -- tracks more addresses than the cap.
  pub run_checks-new :
      (quota limit : ℕ) (reqs : List (ℕ × K))
      → max limit 1 ≤ nil
      → Ran
          (run_checks reqs (new quota limit))
          (max limit 1)
          (spec_run (max quota 1) (max limit 1) reqs [])
  run_checks-new quota limit reqs room =
      run_checks-Ran (max quota 1) (max limit 1) reqs (new quota limit) []
        (new-Repr quota limit room) (new_quota quota limit) (new_cap quota limit)
