-- ===== src/Reputation/Detect.antt =====
-- The deny list and `ReputationDetector` of crates/purple-wolf-core/src/detectors/reputation.rs.
pub mod Runs
use mathlib.Core.Logic.{ite}
use purple_wolf.Detectors.{Group, medium, high, Verdict}
use purple_wolf.Prelude.{
  ◌>>=◌, ℕ, Bool, true, false, not, List, [], ◌∷◌, ◌++◌, length, ltb, if◌then◌else◌, Option, some,
  Str, codes, Bool-cases, ◌≡◌, inl, inr, arith,
}
use purple_wolf.Reputation.Float.{Float}
use purple_wolf.Reputation.Lru.Acquire.{Repr}
use purple_wolf.Reputation.Lru.Refine.{check-Served}
use purple_wolf.Reputation.Lru.Segment.{Entry, Cells}
use purple_wolf.Reputation.Lru.Spec.{entries, spec_check}
use purple_wolf.Reputation.Lru.{LruTokenBuckets, check, new}

pub data DenyList (K : Type 0) : Type 0 where
  linear : List K → DenyList K
  hashed : List K → DenyList K

abbrev pub hashed_deny_list_min_len : ℕ
hashed_deny_list_min_len = 64

module _ {K : Type 0} (dec : Discrete K) where
  -- `Vec::contains`.
  unfoldable pub member : K → List K → Bool
  member k [] = false
  member k (a ∷ as') = ite (dec a k) true (member k as')

  -- `into_iter().collect()` into a `HashSet`: an element that is there already is not added again.
  unfoldable pub collect : List K → List K → List K
  unfolding member
  collect [] set = set
  collect (a ∷ as') set = collect as' (if member a set then set else a ∷ set)

  unfoldable pub deny_list_new : List K → DenyList K
  unfolding collect
  deny_list_new items =
      if ltb (length items) hashed_deny_list_min_len
      then linear items
      else hashed (collect items [])

  unfoldable pub deny_contains : DenyList K → K → Bool
  unfolding member
  deny_contains (linear items) ip = member ip items
  deny_contains (hashed items) ip = member ip items

  member-collect :
      (k : K) (xs set : List K)
      → member k (collect xs set) ≡ (if member k set then true else member k xs)
  unfolding member collect
  member-collect k [] set = ground arith
  member-collect k (a ∷ xs) set =
      ground (arith, member-collect k xs set, member-collect k xs (a ∷ set))

  -- However long the deny list is, an address is on it exactly when it is one of the entries.
  pub deny_contains-new :
      (items : List K) (ip : K) → deny_contains (deny_list_new items) ip ≡ member ip items
  unfolding deny_list_new deny_contains
  deny_contains-new items ip = elim (Bool-cases (ltb (length items) hashed_deny_list_min_len)) [
    | inl short ↦ rw short
    | inr long ↦ rw long (member-collect ip items [])
  ]

-- The detector: its buckets, whether a panic has poisoned their mutex, and its deny list.
pub record ReputationDetector (K T : Type 0) : Type 0 where
  pub state : LruTokenBuckets K T
  pub poisoned : Bool
  pub deny_list : DenyList K

module _ {K T : Type 0} (dec : Discrete K) where
  unfoldable pub with_capacity : ℕ → List K → ℕ → ReputationDetector K T
  unfolding deny_list_new new
  with_capacity per_second deny_list max_tracked_ips = record {
    state = new per_second max_tracked_ips;
    poisoned = false;
    deny_list = deny_list_new dec deny_list;
  }

  -- `show_ip` is the `Display` of `IpAddr`, and `now` the reading of the clock.
  module _ (f : Float T) (show_ip : K → Str) where
    unfoldable pub denied_verdicts : ReputationDetector K T → K → List Verdict
    unfolding deny_contains
    denied_verdicts d ip =
        if deny_contains dec d.deny_list ip
        then record {
          group = Group.reputation;
          rule = codes "ip_denied";
          severity = high;
          detail = codes "source IP " ++ show_ip ip ++ codes " on deny list";
        }
          ∷ []
        else []

    unfoldable pub limited_verdicts : Bool → K → List Verdict
    limited_verdicts allowed ip =
        if not allowed
        then record {
          group = Group.reputation;
          rule = codes "rate_limited";
          severity = medium;
          detail = codes "source IP " ++ show_ip ip ++ codes " exceeded rate quota";
        }
          ∷ []
        else []

    -- `self.state.lock().map(|mut s| s.check(ip)).unwrap_or(true)`.
    unfoldable pub locked_check :
        ReputationDetector K T → ℕ → K → Option (ReputationDetector K T × Bool)
    locked_check d now ip =
        if d.poisoned
        then some (d, true)
        else do (s, allowed) ← check dec f d.state now ip; some (record d { state = s }, allowed)

    unfoldable pub inspect :
        ReputationDetector K T → ℕ → K → Option (ReputationDetector K T × List Verdict)
    inspect d now ip = do
      (d', allowed) ← locked_check d now ip
      some (d', denied_verdicts d ip ++ limited_verdicts allowed ip)

    -- What the list of buckets answers.
    abbrev pub answer : ReputationDetector K T → ℕ → K → Cells K T → List (Entry K T) × Bool
    answer d now ip cs = spec_check dec f d.state.quota_per_sec d.state.cap now ip (entries cs)

    locked-runs :
        (d : ReputationDetector K T) (now : ℕ) (ip : K) {t : LruTokenBuckets K T} {b : Bool}
        → d.poisoned ≡ false
        → check dec f d.state now ip ≡ some (t, b)
        → locked_check d now ip ≡ some (record d { state = t }, b)
    unfolding locked_check
    locked-runs d now ip clean run = simp (clean, run)

    locked_check-Served :
        (d : ReputationDetector K T) (now : ℕ) (ip : K) (cs : Cells K T)
        → d.poisoned ≡ false
        → Repr dec d.state cs
        → (t : LruTokenBuckets K T) × (cs' : Cells K T) × (locked_check d now ip
            ≡ some (record d { state = t }, (answer d now ip cs).1))
          × Repr dec t cs'
          × (entries cs' ≡ (answer d now ip cs).0)
    locked_check-Served d now ip cs clean h =
        let one = check-Served dec f now d.state ip cs h in
        (one.after, one.cells, locked-runs d now ip clean one.runs, one.repr, one.stands_for)

    -- Unless its mutex is poisoned the detector never panics. Its verdicts are those of the deny list
    -- and, behind them, those for the answer of the list of buckets, which is asked for a denied
    -- address too; its new state stands for the buckets after the request.
    pub inspect-Served :
        (d : ReputationDetector K T) (now : ℕ) (ip : K) (cs : Cells K T)
        → d.poisoned ≡ false
        → Repr dec d.state cs
        → (t : LruTokenBuckets K T) × (cs' : Cells K T) × (inspect d now ip
            ≡ some (
              record d { state = t },
              denied_verdicts d ip ++ limited_verdicts (answer d now ip cs).1 ip,
            ))
          × Repr dec t cs'
          × (entries cs' ≡ (answer d now ip cs).0)
    unfolding inspect
    inspect-Served d now ip cs clean h =
        let (t, cs', run, r, e) = locked_check-Served d now ip cs clean h in (t, cs', rw run, r, e)
