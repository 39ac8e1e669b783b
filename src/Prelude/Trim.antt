-- ===== src/Prelude/Trim.antt =====
-- `str::trim` and `str::trim_matches`; white space is the characters of Unicode's White_Space, by their UTF-8 encodings.
use Prim.Native.Nat.{ℕ, zero, suc}
use mathlib.Core.List.{List, [], ◌∷◌, ◌++◌, map, reverse, reverse-cons, reverse-reverse}
use mathlib.Core.Option.{Option, none, some}
use mathlib.Core.Path.{◌≡◌, refl}
use purple_wolf.Prelude.Lists.{drop, length, all}
use mathlib.Core.Bool.{Bool, true, false, not, ◌&&◌}
use native.Mathlib.Omega.{arith}
use purple_wolf.Prelude.Tests.{leb, ◌==◌, if◌then◌else◌}
use purple_wolf.Prelude.Text.{Str, starts_with}

abbrev pub whites : List Str
whites =
    (0x09 ∷ [])
    ∷ (0x0a ∷ [])
    ∷ (0x0b ∷ [])
    ∷ (0x0c ∷ [])
    ∷ (0x0d ∷ [])
    ∷ (0x20 ∷ [])
    ∷ (0xc2 ∷ 0x85 ∷ [])
    ∷ (0xc2 ∷ 0xa0 ∷ [])
    ∷ (0xe1 ∷ 0x9a ∷ 0x80 ∷ [])
    ∷ (0xe2 ∷ 0x80 ∷ 0x80 ∷ [])
    ∷ (0xe2 ∷ 0x80 ∷ 0x81 ∷ [])
    ∷ (0xe2 ∷ 0x80 ∷ 0x82 ∷ [])
    ∷ (0xe2 ∷ 0x80 ∷ 0x83 ∷ [])
    ∷ (0xe2 ∷ 0x80 ∷ 0x84 ∷ [])
    ∷ (0xe2 ∷ 0x80 ∷ 0x85 ∷ [])
    ∷ (0xe2 ∷ 0x80 ∷ 0x86 ∷ [])
    ∷ (0xe2 ∷ 0x80 ∷ 0x87 ∷ [])
    ∷ (0xe2 ∷ 0x80 ∷ 0x88 ∷ [])
    ∷ (0xe2 ∷ 0x80 ∷ 0x89 ∷ [])
    ∷ (0xe2 ∷ 0x80 ∷ 0x8a ∷ [])
    ∷ (0xe2 ∷ 0x80 ∷ 0xa8 ∷ [])
    ∷ (0xe2 ∷ 0x80 ∷ 0xa9 ∷ [])
    ∷ (0xe2 ∷ 0x80 ∷ 0xaf ∷ [])
    ∷ (0xe2 ∷ 0x81 ∷ 0x9f ∷ [])
    ∷ (0xe3 ∷ 0x80 ∷ 0x80 ∷ [])
    ∷ []

-- The text behind the first of `ps` that it starts with.
unfoldable pub strip : List Str → Str → Option Str
strip [] s = none
strip (p ∷ ps) s =
    let rest = strip ps s in if starts_with p s then some (drop (length p) s) else rest

-- Strips as long as it can; each time the text loses a byte at least, so its length is fuel enough.
unfoldable pub strip_all : List Str → ℕ → Str → Str
unfolding strip
strip_all ps zero s = s
strip_all ps (suc f) s = elim (strip ps s) [ none ↦ s | some s' ↦ strip_all ps f s' ]

unfoldable pub trim_start : Str → Str
unfolding strip_all
trim_start s = strip_all whites (length s) s

unfoldable pub trim_end : Str → Str
unfolding strip_all
trim_end s = reverse (strip_all (map reverse whites) (length s) (reverse s))

unfoldable pub trim : Str → Str
unfolding trim_start trim_end
trim s = trim_end (trim_start s)

-- `str::trim_matches` of the characters with these encodings.
unfoldable pub trim_matches : List Str → Str → Str
unfolding strip_all
trim_matches ps s =
    let s' = strip_all ps (length s) s in
    reverse (strip_all (map reverse ps) (length s') (reverse s'))

abbrev pub is_digit : ℕ → Bool
is_digit c = leb b'0' c && leb c b'9'

abbrev not_at_digit : Str → Bool
not_at_digit [] = false
not_at_digit (a ∷ p) = not (is_digit a)

pub strip-digit :
    (ps : List Str) (c : ℕ) (s : Str)
    → all not_at_digit ps ≡ true
    → is_digit c ≡ true
    → strip ps (c ∷ s) ≡ none
unfolding strip starts_with all
strip-digit [] c s apart d = refl
strip-digit ([] ∷ ps) c s apart d = cc
strip-digit ((a ∷ p) ∷ ps) c s apart d =
    let later : all not_at_digit ps ≡ true = ground arith in
    let ne : a == c ≡ false = ground arith in rw ne (strip-digit ps c s later d)

strip-nil : (ps : List Str) → all not_at_digit ps ≡ true → strip ps [] ≡ none
unfolding strip starts_with all
strip-nil [] apart = refl
strip-nil ([] ∷ ps) apart = cc
strip-nil ((a ∷ p) ∷ ps) apart = strip-nil ps (ground arith)

strip_all-digits :
    (ps : List Str) (f : ℕ) (s : Str)
    → all not_at_digit ps ≡ true
    → all is_digit s ≡ true
    → strip_all ps f s ≡ s
unfolding strip_all all
strip_all-digits ps zero s apart h = refl
strip_all-digits ps (suc f) [] apart h = rw (strip_all, strip-nil ps apart) refl
strip_all-digits ps (suc f) (c ∷ s) apart h =
    let here : is_digit c ≡ true = ground arith in
    rw (strip_all, strip-digit ps c s apart here) refl

all-append :
    {A : Type 0} (p : A → Bool) (xs ys : List A)
    → all p xs ≡ true
    → all p ys ≡ true
    → all p (xs ++ ys) ≡ true
unfolding all
all-append p [] ys h k = k
all-append p (x ∷ xs) ys h k =
    let later : all p xs ≡ true = ground arith in ground (arith, all-append p xs ys later k)

all-reverse :
    {A : Type 0} (p : A → Bool) (xs : List A) → all p xs ≡ true → all p (reverse xs) ≡ true
unfolding all
all-reverse p [] h = h
all-reverse p (x ∷ xs) h =
    let here : p x ≡ true = ground arith in
    let later : all p xs ≡ true = ground arith in
    rw (reverse-cons x xs)
      (all-append p (reverse xs) (x ∷ []) (all-reverse p xs later) (rw here refl))

-- A text of digits has nothing to trim.
pub trim-digits : (s : Str) → all is_digit s ≡ true → trim s ≡ s
unfolding trim trim_start trim_end all
trim-digits s h =
    rw
      (
        strip_all-digits whites (length s) s refl h,
        strip_all-digits (map reverse whites) (length s) (reverse s) refl
            (all-reverse is_digit s h),
      )
      (reverse-reverse s)
