-- ===== src/Policy/Tests.antt =====
-- Runs of `decide` on the inputs of the unit tests of policy.rs, and its theorems there.
use mathlib.Core.List.{Perm}
use purple_wolf.Detectors.{
  Group, injection, signatures, Severity, medium, critical, Verdict, Mode, GroupMode,
}
use purple_wolf.Policy.Laws.{is_live, to_list, pool_of, decide-perm, decide-IsWorst}
use purple_wolf.Policy.Worst.{IsWorst}
use purple_wolf.Policy.{allow, block, Decision, decide}
use purple_wolf.Prelude.{ℕ, keep, List, [], ◌∷◌, ◌++◌, length, none, some, codes, ◌≡◌, refl}

abbrev verdict : Group → Severity → Verdict
verdict g s = record { group = g; rule = codes "t"; severity = s; detail = codes "d" }

abbrev scanner_then_sqli : List Verdict
scanner_then_sqli = verdict signatures medium ∷ verdict injection critical ∷ []

abbrev all_enforce : Group → GroupMode
all_enforce _ = GroupMode.enforce

abbrev worst_first : Decision
worst_first = record {
  action = block;
  blocked_by = some (verdict injection critical);
  would_block = verdict signatures medium ∷ [];
}

-- highest_severity_verdict_wins_blocked_by
decides_worst : decide scanner_then_sqli Mode.enforce all_enforce ≡ some worst_first
unfolding decide
decides_worst = refl

-- monitor_global_never_blocks
decides_monitor :
    decide scanner_then_sqli Mode.monitor all_enforce
    ≡ some (record { action = allow; blocked_by = none; would_block = scanner_then_sqli })
unfolding decide
decides_monitor = refl

decide-perm_example :
    (d : Decision) × (decide scanner_then_sqli Mode.enforce all_enforce ≡ some d)
    × Perm
        (to_list d.blocked_by ++ d.would_block)
        (keep (is_live Mode.enforce all_enforce) scanner_then_sqli)
decide-perm_example = decide-perm Mode.enforce all_enforce scanner_then_sqli

decide-IsWorst_example :
    (k : ℕ) × IsWorst
      (pool_of Mode.enforce all_enforce scanner_then_sqli)
      k
      (length (pool_of Mode.enforce all_enforce scanner_then_sqli))
      (verdict injection critical)
decide-IsWorst_example =
    decide-IsWorst Mode.enforce all_enforce scanner_then_sqli worst_first
      (verdict injection critical) decides_worst refl
