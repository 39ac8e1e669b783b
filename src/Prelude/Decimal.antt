-- ===== src/Prelude/Decimal.antt =====
-- Decimal texts: `parse` of an unsigned integer, and that it undoes the printing.
use Prim.Native.Nat.{ℕ, zero, suc, ◌+◌, ◌-◌, ◌*◌, ◌/◌, ◌%◌, ◌≤◌}
use mathlib.Core.Bool.{true, false, ◌&&◌}
use mathlib.Core.List.{[], ◌∷◌}
use mathlib.Core.Logic.{inl, inr}
use mathlib.Core.Option.{Option, none, some}
use mathlib.Core.Path.{◌≡◌, refl, sym, ap, ◌∙◌}
use native.Mathlib.Omega.{arith}
use purple_wolf.Prelude.Lists.{all}
use purple_wolf.Prelude.Tests.{leb, ltb, ◌==◌, if◌then◌else◌, Bool-cases}
use purple_wolf.Prelude.Text.{Str, digits_from, show}
use purple_wolf.Prelude.Trim.{is_digit}

-- `parse` of an unsigned integer that is at most `most`: decimal digits, behind a `+` or not.
unfoldable pub parse_digits : ℕ → ℕ → Str → Option ℕ
parse_digits most acc [] = some acc
parse_digits most acc (c ∷ s) =
    let rest = parse_digits most (acc * 10 + (c - b'0')) s in
    if (leb b'0' c && leb c b'9') && leb (acc * 10 + (c - b'0')) most then rest else none

unfoldable pub some_digits : ℕ → Str → Option ℕ
unfolding parse_digits
some_digits most [] = none
some_digits most (c ∷ s) = parse_digits most 0 (c ∷ s)

unfoldable pub parse_unsigned : ℕ → Str → Option ℕ
unfolding some_digits
parse_unsigned most [] = none
parse_unsigned most (c ∷ s) = if c == 43 then some_digits most s else some_digits most (c ∷ s)

parse_digits-step :
    (most acc d n : ℕ) (out : Str)
    → d ≤ 9
    → acc * 10 + d ≡ n
    → n ≤ most
    → parse_digits most acc ((b'0' + d) ∷ out) ≡ parse_digits most n out
unfolding parse_digits
parse_digits-step most acc d n out small e fits =
    let e' : acc * 10 + (b'0' + d - b'0') ≡ n = omega arith in
    let t : (leb b'0' (b'0' + d) && leb (b'0' + d) b'9') && leb n most ≡ true = ground arith in
    rw (e', t) refl

module _ (most : ℕ) where
  parse_digits-digits_from :
      (f n : ℕ) (out : Str)
      → n ≤ f
      → n ≤ most
      → parse_digits most 0 (digits_from (suc f) n out) ≡ parse_digits most n out
  unfolding digits_from
  parse_digits-digits_from zero n out enough fits =
      let one : ltb n 10 ≡ true = ground arith in
      rw one (parse_digits-step most 0 (n % 10) n out (omega arith) (omega arith) fits)
  parse_digits-digits_from (suc f) n out enough fits = elim (Bool-cases (ltb n 10)) [
    | inl one ↦ rw one (parse_digits-step most 0 (n % 10) n out (omega arith) (ground arith) fits)
    | inr more ↦ rw more (
        parse_digits-digits_from f (n / 10) ((b'0' + n % 10) ∷ out) (ground arith) (omega arith)
        ∙ parse_digits-step most (n / 10) (n % 10) n out (omega arith) (omega arith) fits)
  ]

digits_from-digits :
    (f n : ℕ) (out : Str) → all is_digit out ≡ true → all is_digit (digits_from f n out) ≡ true
unfolding digits_from all
digits_from-digits zero n out h = h
digits_from-digits (suc f) n out h =
    let d : is_digit (b'0' + n % 10) && all is_digit out ≡ true = ground (arith, h) in
    elim (Bool-cases (ltb n 10)) [
      | inl one ↦ rw one d
      | inr more ↦ rw more (digits_from-digits f (n / 10) ((b'0' + n % 10) ∷ out) d)
    ]

digits_from-cons :
    (f n : ℕ) (c : ℕ) (out : Str) → (c' : ℕ) × (s : Str) × (digits_from f n (c ∷ out) ≡ c' ∷ s)
unfolding digits_from
digits_from-cons zero n c out = (c, out, refl)
digits_from-cons (suc f) n c out = elim (Bool-cases (ltb n 10)) [
  | inl one ↦ (b'0' + n % 10, c ∷ out, rw one refl)
  | inr more ↦ rw more (digits_from-cons f (n / 10) (b'0' + n % 10) (c ∷ out))
]

pub show-cons : (n : ℕ) → (c : ℕ) × (s : Str) × (show n ≡ c ∷ s)
unfolding show digits_from
show-cons n = elim (Bool-cases (ltb n 10)) [
  | inl one ↦ (b'0' + n % 10, [], rw one refl)
  | inr more ↦ rw more (digits_from-cons n (n / 10) (b'0' + n % 10) [])
]

parse_unsigned-digits :
    (most c : ℕ) (s : Str)
    → all is_digit (c ∷ s) ≡ true
    → parse_unsigned most (c ∷ s) ≡ parse_digits most 0 (c ∷ s)
unfolding parse_unsigned all
parse_unsigned-digits most c s h = let plain : c == 43 ≡ false = ground arith in rw plain refl

pub show-digits : (n : ℕ) → all is_digit (show n) ≡ true
unfolding show all
show-digits n = digits_from-digits (suc n) n [] refl

-- Printing a number that fits and parsing it gives it back.
pub parse_unsigned-show : (most n : ℕ) → n ≤ most → parse_unsigned most (show n) ≡ some n
unfolding show parse_digits
parse_unsigned-show most n fits =
    let (c, s, e) = show-cons n in
    let digits : all is_digit (show n) ≡ true = show-digits n in
    ap (parse_unsigned most) e
    ∙ parse_unsigned-digits most c s (ap (all is_digit) (sym e) ∙ digits)
    ∙ ap (parse_digits most 0) (sym e)
    ∙ parse_digits-digits_from most n n [] (omega arith) fits
