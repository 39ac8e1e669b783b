-- ===== src/Relay/Glob/Tests.antt =====
-- Runs of the glob matcher, and its theorems at such inputs.
use purple_wolf.Prelude.{find, true, false, [], ◌∷◌, ◌++◌, Str, codes, ◌≡◌, ◌≢◌, inl, refl, arith}
use purple_wolf.Relay.Glob.Complete.{matches-accepts, suffix-missed}
use purple_wolf.Relay.Glob.Lang.{Denotes}
use purple_wolf.Relay.Glob.Sound.{matches-Denotes}
use purple_wolf.Relay.Glob.{
  Glob, new, seek, at_end, first_part, next_cursor, middle_parts, matches_parts, at_stop, matches,
}

program : Unit {0}
unfolding new seek at_end first_part next_cursor middle_parts matches_parts at_stop matches find
program = tt

abbrev rule : Str
rule = codes "injection/sqli"

accepts_prefix : matches (new (codes "injection/*")) rule ≡ true
unfolding program
accepts_prefix = refl

accepts_middle : matches (new (codes "*ject*sq*")) rule ≡ true
unfolding program
accepts_middle = refl

refuses_other : matches (new (codes "signatures/*")) rule ≡ false
unfolding program
refuses_other = refl

-- The text ends in `i`, and the glob asks for nothing else.
misses_suffix : matches (new (codes "*i")) rule ≡ false
unfolding program
misses_suffix = refl

abbrev in_between : Glob
in_between = record { parts = codes "a" ∷ codes "b" ∷ []; starts_wild = false; ends_wild = true }

accepted : matches in_between (codes "axbc") ≡ true
unfolding program
accepted = refl

matches-Denotes_example : Denotes false true (codes "a" ∷ codes "b" ∷ []) (codes "axbc")
matches-Denotes_example = matches-Denotes in_between (codes "axbc") accepted

matches-accepts_example : matches in_between (codes "axbc") ≡ true
matches-accepts_example =
    matches-accepts in_between (codes "axbc") tt
      (codes "xbc", refl, (codes "x", codes "c", refl, inl refl))

not_empty : codes "n" ≢ []
not_empty = λ e. ground (arith, e)

suffix-missed_example :
    let g : Glob = record { parts = codes "n" ∷ []; starts_wild = true; ends_wild = false } in
    Denotes g.starts_wild g.ends_wild g.parts (codes "n" ++ (codes "jectio" ++ codes "n"))
    × (matches g (codes "n" ++ (codes "jectio" ++ codes "n")) ≡ false)
suffix-missed_example = suffix-missed (codes "n") (codes "jectio") not_empty
