-- ===== src/Prelude/Find.antt =====
-- `str::find` and `str::ends_with`, and what they tell of a text.
use Prim.Native.Nat.{ℕ, suc, ◌+◌, ◌-◌, ◌≤◌}
use mathlib.Core.Bool.{Bool, true, ◌&&◌}
use mathlib.Core.List.{[], ◌∷◌, ◌++◌, append_assoc}
use mathlib.Core.Logic.{inl, inr}
use mathlib.Core.Option.{Option, none, some, some-injective}
use mathlib.Core.Path.{◌≡◌, refl, sym, ap, subst, ◌∙◌}
use native.Mathlib.Nat.{zero-add, suc-add}
use native.Mathlib.Omega.{arith}
use purple_wolf.Prelude.Lists.{
  drop, take, length, length-append, take-append-drop, drop-append, drop-append_le,
}
use purple_wolf.Prelude.Tests.{leb, if◌then◌else◌, Bool-cases, Option-cases}
use purple_wolf.Prelude.Text.{
  Str, str_eq, str_eq→eq, str_eq_refl, starts_with, starts_with→append, starts_with-append,
}

-- The index of the first occurrence.
unfoldable pub find : Str → Str → Option ℕ
unfolding starts_with
find p [] = if starts_with p [] then some 0 else none
find p (c ∷ s) =
    let rest = find p s in
    if starts_with p (c ∷ s) then some 0 else elim rest [ none ↦ none | some i ↦ some (suc i) ]

-- At index `i` of `s` stands `p`.
abbrev StandsAt : Str → Str → ℕ → Type 0
StandsAt p s i = s ≡ take i s ++ (p ++ drop (i + length p) s)

StandsAt-zero : (p s : Str) → starts_with p s ≡ true → StandsAt p s 0
StandsAt-zero p s h = starts_with→append p s h ∙ rw zero-add

StandsAt-suc : (p s : Str) (c i : ℕ) → StandsAt p s i → StandsAt p (c ∷ s) (suc i)
StandsAt-suc p s c i h = ap (◌∷◌ c) h ∙ rw suc-add

pub find→split :
    (p s : Str) (i : ℕ) → find p s ≡ some i → s ≡ take i s ++ (p ++ drop (i + length p) s)
unfolding find
find→split [] [] i h = subst (StandsAt [] []) (some-injective _ _ h) (StandsAt-zero [] [] refl)
find→split (a ∷ p) [] i h = cc
find→split p (c ∷ s) i h = elim (Bool-cases (starts_with p (c ∷ s))) [
  | inl here ↦
      subst (StandsAt p (c ∷ s)) (some-injective _ _ (rw here at h)) (StandsAt-zero p (c ∷ s) here)
  | inr later ↦ elim (Option-cases (find p s)) [
    | inl missing ↦ absurd (ground (arith, later, missing))
    | inr (j, found) ↦
        subst (StandsAt p (c ∷ s)) (some-injective _ _ (rw (later, found) at h))
          (StandsAt-suc p s c j (find→split p s j found))
  ]
]

pub find_of_starts : (p s : Str) → starts_with p s ≡ true → find p s ≡ some 0
unfolding find
find_of_starts p [] h = rw h
find_of_starts p (c ∷ s) h = rw h

-- The occurrence that is found is not behind any other.
pub find-append :
    (p g r : Str)
    → (i : ℕ) × (h : Str) × (find p (g ++ (p ++ r)) ≡ some i)
      × (drop (i + length p) (g ++ (p ++ r)) ≡ h ++ r)
unfolding find
find-append p [] r =
    (0, [], find_of_starts p (p ++ r) (starts_with-append p r), rw zero-add (drop-append p r))
find-append p (c ∷ g) r = elim (Bool-cases (starts_with p (c ∷ (g ++ (p ++ r))))) [
  | inl here ↦ (
    0,
    drop (length p) ((c ∷ g) ++ p),
    rw here,
    rw (zero-add, ← append_assoc (c ∷ g) p r)
        (drop-append_le (length p) ((c ∷ g) ++ p) r (omega (arith, length-append (c ∷ g) p))),
  )
  | inr later ↦
      let (i, h, found, e) = find-append p g r in (suc i, h, rw (later, found), rw suc-add e)
]

unfoldable pub ends_with : Str → Str → Bool
unfolding str_eq
ends_with p s = leb (length p) (length s) && str_eq (drop (length s - length p) s) p

pub ends_with→append :
    (p s : Str)
    → ends_with p s ≡ true
    → (length p ≤ length s) × (s ≡ take (length s - length p) s ++ p)
unfolding ends_with
ends_with→append p s h =
    let e : str_eq (drop (length s - length p) s) p ≡ true = ground arith in
    (
      ground arith,
      sym (take-append-drop (length s - length p) s)
          ∙ ap (λ z. take (length s - length p) s ++ z) (str_eq→eq _ p e),
    )

pub ends_with-append : (p s : Str) → ends_with p (s ++ p) ≡ true
unfolding ends_with
ends_with-append p s =
    let e : length (s ++ p) - length p ≡ length s = omega (arith, length-append s p) in
    let fits : leb (length p) (length (s ++ p)) ≡ true = ground (arith, length-append s p) in
    rw (fits, e, drop-append s p) (str_eq_refl p)

starts_with-le : (p s : Str) → starts_with p s ≡ true → length p ≤ length s
unfolding starts_with
starts_with-le [] s h = omega arith
starts_with-le (a ∷ p) [] h = cc
starts_with-le (a ∷ p) (b ∷ s) h = ground (arith, starts_with-le p s)

pub find-le : (p s : Str) (i : ℕ) → find p s ≡ some i → i + length p ≤ length s
unfolding find
find-le p [] i h = ground (arith, starts_with-le p [])
find-le p (c ∷ s) i h = elim (Bool-cases (starts_with p (c ∷ s))) [
  | inl here ↦ ground (arith, here, starts_with-le p (c ∷ s))
  | inr later ↦ elim (Option-cases (find p s)) [
    | inl missing ↦ absurd (ground (arith, later, missing))
    | inr (j, found) ↦ ground (arith, later, found, find-le p s j found)
  ]
]
