-- ===== src/Prelude/Text.antt =====
-- A Rust `String` or `&str` is the list of its UTF-8 bytes, so that `len`, `find`, `starts_with`,
-- slices and the ASCII case functions of the source are functions on the list.
use Prim.Native.Char.{code}
use Prim.Native.Nat.{ℕ, zero, suc, ◌+◌, ◌-◌, ◌/◌, ◌%◌}
use Prim.Native.String.{String}
use mathlib.Core.Bool.{Bool, true, false, ◌&&◌, ◌||◌}
use mathlib.Core.List.{List, [], ◌∷◌, ◌++◌, map}
use mathlib.Core.Logic.{◌↔◌}
use mathlib.Core.Option.{Option, none, some}
use mathlib.Core.Path.{◌≡◌, refl}
use native.Mathlib.Omega.{arith}
use purple_wolf.Prelude.Lists.{drop, length}
use purple_wolf.Prelude.Tests.{==_refl, ltb, leb, ◌==◌, if◌then◌else◌}

abbrev pub Bytes : Type 0
Bytes = List ℕ

abbrev pub Str : Type 0
Str = List ℕ

-- The bytes of an ASCII literal.
abbrev pub codes : String → Str
codes String.[] = []
codes (String.◌∷◌ c s) = code c ∷ codes s

unfoldable pub str_eq : Str → Str → Bool
str_eq [] [] = true
str_eq [] (b ∷ t) = false
str_eq (a ∷ s) [] = false
str_eq (a ∷ s) (b ∷ t) = a == b && str_eq s t

pub str_eq→eq : (s t : Str) → str_eq s t ≡ true → s ≡ t
unfolding str_eq
str_eq→eq [] [] h = refl
str_eq→eq [] (b ∷ t) h = ground arith
str_eq→eq (a ∷ s) [] h = ground arith
str_eq→eq (a ∷ s) (b ∷ t) h = ground (arith, str_eq→eq s t)

pub str_eq_refl : (s : Str) → str_eq s s ≡ true
unfolding str_eq
str_eq_refl [] = refl
str_eq_refl (a ∷ s) = ground (arith, str_eq_refl s)

pub str_eq_iff : (s t : Str) → (str_eq s t ≡ true) ↔ (s ≡ t)
str_eq_iff s t = (str_eq→eq s t, λ e. rw e (str_eq_refl t))

-- `str::starts_with` and, below, the text behind a prefix that is there.
unfoldable pub starts_with : Str → Str → Bool
starts_with [] s = true
starts_with (a ∷ p) [] = false
starts_with (a ∷ p) (b ∷ s) = a == b && starts_with p s

pub starts_with→append : (p s : Str) → starts_with p s ≡ true → s ≡ p ++ drop (length p) s
unfolding starts_with
starts_with→append [] s h = refl
starts_with→append (a ∷ p) [] h = ground arith
starts_with→append (a ∷ p) (b ∷ s) h = ground (arith, starts_with→append p s)

pub starts_with-append : (p s : Str) → starts_with p (p ++ s) ≡ true
unfolding starts_with
starts_with-append [] s = refl
starts_with-append (a ∷ p) s = ground (arith, starts_with-append p s)

-- `slice::contains` of a byte.
unfoldable pub contains : ℕ → Bytes → Bool
contains a [] = false
contains a (b ∷ s) = a == b || contains a s

-- `str::split_once` at a byte.
unfoldable pub split_once : ℕ → Str → Option (Str × Str)
split_once c [] = none
split_once c (a ∷ s) =
    let rest = split_once c s in
    if a == c then some ([], s) else elim rest [ none ↦ none | some (k, v) ↦ some (a ∷ k, v) ]

-- `str::split` at a byte: always at least one part.
abbrev pub cons_part : ℕ → List Str → List Str
cons_part a [] = (a ∷ []) ∷ []
cons_part a (p ∷ ps) = (a ∷ p) ∷ ps

unfoldable pub split : ℕ → Str → List Str
split c [] = [] ∷ []
split c (a ∷ s) = if a == c then [] ∷ split c s else cons_part a (split c s)

pub split-append :
    (c : ℕ) (part rest : Str)
    → contains c part ≡ false
    → split c (part ++ c ∷ rest) ≡ part ∷ split c rest
unfolding contains split
split-append c [] rest apart = rw (==_refl c)
split-append c (a ∷ part) rest apart =
    let later : contains c part ≡ false = ground arith in
    let here : a == c ≡ false = ground arith in rw (here, split-append c part rest later)

-- `u8::to_ascii_lowercase` and `to_ascii_uppercase`.
unfoldable pub lower : ℕ → ℕ
lower a = if leb b'A' a && leb a b'Z' then a + 32 else a

unfoldable pub upper : ℕ → ℕ
upper a = if leb b'a' a && leb a b'z' then a - 32 else a

unfoldable pub to_ascii_lowercase : Str → Str
to_ascii_lowercase = map lower

unfoldable pub to_ascii_uppercase : Str → Str
to_ascii_uppercase = map upper

-- `str::eq_ignore_ascii_case`.
unfoldable pub eq_ignore_ascii_case : Str → Str → Bool
eq_ignore_ascii_case s t = str_eq (to_ascii_lowercase s) (to_ascii_lowercase t)

pub eq_ignore_ascii_case_refl : (s : Str) → eq_ignore_ascii_case s s ≡ true
unfolding eq_ignore_ascii_case
eq_ignore_ascii_case_refl s = str_eq_refl (to_ascii_lowercase s)

-- `{}` of an unsigned integer: decimal digits, with fuel one above the number.
unfoldable pub digits_from : ℕ → ℕ → Str → Str
digits_from zero n out = out
digits_from (suc f) n out =
    let out' = (b'0' + n % 10) ∷ out in
    let rest = digits_from f (n / 10) out' in if ltb n 10 then out' else rest

unfoldable pub show : ℕ → Str
unfolding digits_from
show n = digits_from (suc n) n []
