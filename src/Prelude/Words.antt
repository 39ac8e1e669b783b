-- ===== src/Prelude/Words.antt =====
-- The parts of a text between its white space.
use Prim.Native.Nat.{ℕ, zero, suc}
use mathlib.Core.Bool.{true}
use mathlib.Core.List.{List, [], ◌∷◌, ◌++◌}
use mathlib.Core.Option.{Option, none, some}
use mathlib.Core.Path.{◌≡◌, refl, ap, ◌∙◌}
use native.Mathlib.Omega.{arith}
use purple_wolf.Prelude.Lists.{all, drop, length, drop-append}
use purple_wolf.Prelude.Text.{Str, starts_with}
use purple_wolf.Prelude.Trim.{whites, strip, strip_all, strip-digit, trim_start, is_digit}

-- The text before the first white space.
abbrev cut : ℕ → Str → Option Str → Str
cut c rest none = c ∷ rest
cut c rest (some s) = []

unfoldable pub until_white : Str → Str
unfolding strip
until_white [] = []
until_white (c ∷ s) = let rest = until_white s in cut c rest (strip whites (c ∷ s))

-- `str::split_whitespace`, with fuel for each part: a part takes a byte at least.
abbrev part_then : Str → List Str → List Str
unfolding until_white
part_then [] rest = []
part_then (c ∷ s) rest = until_white (c ∷ s) ∷ rest

unfoldable pub parts : ℕ → Str → List Str
unfolding trim_start until_white part_then
parts zero s = []
parts (suc f) s = let t = trim_start s in part_then t (parts f (drop (length (until_white t)) t))

unfoldable pub split_whitespace : Str → List Str
unfolding parts
split_whitespace s = parts (length s) s

trim_start-digit : (c : ℕ) (s : Str) → is_digit c ≡ true → trim_start (c ∷ s) ≡ c ∷ s
unfolding trim_start strip_all all
trim_start-digit c s d = rw (strip_all, strip-digit whites c s refl d) refl

trim_start-space : (c : ℕ) (s : Str) → is_digit c ≡ true → trim_start (b' ' ∷ c ∷ s) ≡ c ∷ s
unfolding trim_start strip_all strip starts_with all
trim_start-space c s d = rw (strip_all, strip-digit whites c s refl d) refl

until_white-digits :
    (ds rest : Str) (w : ℕ) (after : Str)
    → all is_digit ds ≡ true
    → strip whites (w ∷ rest) ≡ some after
    → until_white (ds ++ w ∷ rest) ≡ ds
unfolding until_white all
until_white-digits [] rest w after h white = rw white refl
until_white-digits (c ∷ ds) rest w after h white =
    let here : is_digit c ≡ true = ground arith in
    let later : all is_digit ds ≡ true = ground arith in
    rw (strip-digit whites c (ds ++ w ∷ rest) refl here)
      (ap (◌∷◌ c) (until_white-digits ds rest w after later white))

parts-digits :
    (f c : ℕ) (ds rest : Str) (w : ℕ) (after s : Str)
    → all is_digit (c ∷ ds) ≡ true
    → strip whites (w ∷ rest) ≡ some after
    → trim_start s ≡ (c ∷ ds) ++ w ∷ rest
    → parts (suc f) s ≡ (c ∷ ds) ∷ parts f (w ∷ rest)
unfolding parts part_then
parts-digits f c ds rest w after s h white e =
    let u : until_white (c ∷ (ds ++ w ∷ rest)) ≡ c ∷ ds =
      until_white-digits (c ∷ ds) rest w after h white in
    rw (e, u) (ap (λ z. (c ∷ ds) ∷ parts f z) (drop-append ds (w ∷ rest)))

two-more :
    (c d : ℕ) (cs ds : Str)
    → (f : ℕ) × (length ((c ∷ cs) ++ b' ' ∷ ((d ∷ ds) ++ 10 ∷ [])) ≡ suc (suc f))
two-more c d [] ds = (_, refl)
two-more c d (x ∷ cs) ds = (_, refl)

-- Two numbers with a space between and a newline behind are the first two parts.
pub split_whitespace-digits :
    (c d : ℕ) (cs ds : Str)
    → all is_digit (c ∷ cs) ≡ true
    → all is_digit (d ∷ ds) ≡ true
    → (rest : List Str) × (split_whitespace ((c ∷ cs) ++ b' ' ∷ ((d ∷ ds) ++ 10 ∷ []))
        ≡ (c ∷ cs) ∷ (d ∷ ds) ∷ rest)
unfolding split_whitespace all strip starts_with
split_whitespace-digits c d cs ds h k =
    let first : is_digit c ≡ true = ground arith in
    let second : is_digit d ≡ true = ground arith in
    let behind = (d ∷ ds) ++ 10 ∷ [] in
    let (f, e) = two-more c d cs ds in
    (
      parts f (10 ∷ []),
      ap (λ n. parts n ((c ∷ cs) ++ b' ' ∷ behind)) e
          ∙ parts-digits (suc f) c cs behind b' ' behind ((c ∷ cs) ++ b' ' ∷ behind) h refl
              (trim_start-digit c (cs ++ b' ' ∷ behind) first)
          ∙ ap (λ z. (c ∷ cs) ∷ z)
              (parts-digits f d ds [] 10 [] (b' ' ∷ behind) k refl
                (trim_start-space d (ds ++ 10 ∷ []) second)),
    )
