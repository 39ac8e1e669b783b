-- ===== src/Relay/Glob/Lang.antt =====
-- What a glob means, with no search in it.
use purple_wolf.Prelude.{◌≡◌, ◌⊎◌, Bool, true, List, [], ◌∷◌, ◌++◌, Str}

-- The rest of a text behind a part: gaps and parts in turn, and nothing more unless the pattern ends
-- in a star.
abbrev pub Tail : Bool → List Str → Str → Type 0
Tail ends_wild [] s = (ends_wild ≡ true) ⊎ (s ≡ [])
Tail ends_wild (p ∷ ps) s =
    (gap : Str) × (rest : Str) × (s ≡ gap ++ (p ++ rest)) × Tail ends_wild ps rest

-- A text that starts with the first part.
abbrev pub Anchored : Bool → List Str → Str → Type 0
Anchored ends_wild [] s = Unit {0}
Anchored ends_wild (p ∷ ps) s = (rest : Str) × (s ≡ p ++ rest) × Tail ends_wild ps rest

-- The texts of a glob: those that its parts follow one another in, the first at the start unless the
-- pattern starts with a star. A pattern with no part stands for every text.
abbrev pub Denotes : Bool → Bool → List Str → Str → Type 0
Denotes starts_wild ends_wild [] s = Unit {0}
Denotes true ends_wild (p ∷ ps) s = Tail ends_wild (p ∷ ps) s
Denotes _ ends_wild (p ∷ ps) s = Anchored ends_wild (p ∷ ps) s
