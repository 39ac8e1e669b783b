-- ===== src/Prelude/Maps.antt =====
-- `BTreeMap` with text keys: an association list without an order, where a key is found once.
use mathlib.Core.Bool.{Bool, true, false}
use mathlib.Core.List.{List, [], ◌∷◌}
use mathlib.Core.Logic.{◌≢◌, inl, inr}
use mathlib.Core.Option.{Option, none, some}
use mathlib.Core.Path.{◌≡◌, refl, sym, ◌∙◌}
use native.Mathlib.Omega.{arith}
use purple_wolf.Prelude.Tests.{if◌then◌else◌, Bool-cases}
use purple_wolf.Prelude.Text.{Str, str_eq, str_eq→eq, str_eq_refl}

module _ {V : Type 0} where
  unfoldable pub get : List (Str × V) → Str → Option V
  get [] k = none
  get ((k', v) ∷ m) k = let rest = get m k in if str_eq k' k then some v else rest

  unfoldable pub insert : List (Str × V) → Str → V → List (Str × V)
  insert [] k v = (k, v) ∷ []
  insert ((k', v') ∷ m) k v =
      let rest = insert m k v in if str_eq k' k then (k', v) ∷ m else (k', v') ∷ rest

  unfoldable pub contains_key : List (Str × V) → Str → Bool
  contains_key [] k = false
  contains_key ((k', v) ∷ m) k = let rest = contains_key m k in if str_eq k' k then true else rest

module _ {V : Type 0} where
  unfoldable pub remove : List (Str × V) → Str → List (Str × V)
  remove [] k = []
  remove ((k', v) ∷ m) k = let rest = remove m k in if str_eq k' k then m else (k', v) ∷ rest

  -- `entry(k).or_insert(v)`.
  unfoldable pub or_insert : List (Str × V) → Str → V → List (Str × V)
  unfolding contains_key insert
  or_insert m k v = if contains_key m k then m else insert m k v

pub str_eq-ne : (s t : Str) → s ≢ t → str_eq s t ≡ false
str_eq-ne s t h = elim (Bool-cases (str_eq s t)) [
  | inl e ↦ absurd (h (str_eq→eq s t e))
  | inr e ↦ e
]

module _ {V : Type 0} where
  pub get-insert_self : (m : List (Str × V)) (k : Str) (v : V) → get (insert m k v) k ≡ some v
  unfolding get insert
  get-insert_self [] k v = rw (str_eq_refl k) refl
  get-insert_self ((k', v') ∷ m) k v = elim (Bool-cases (str_eq k' k)) [
    | inl e ↦ rw (e, e) refl
    | inr e ↦ rw (e, e) (get-insert_self m k v)
  ]

  pub get-insert_ne :
      (m : List (Str × V)) (k j : Str) (v : V) → k ≢ j → get (insert m k v) j ≡ get m j
  unfolding get insert
  get-insert_ne [] k j v h = rw (str_eq-ne k j h) refl
  get-insert_ne ((k', v') ∷ m) k j v h = elim (Bool-cases (str_eq k' k)) [
    | inl e ↦ rw (e, str_eq-ne k' j (λ e'. h (sym (str_eq→eq k' k e) ∙ e'))) refl
    | inr e ↦ rw (e, get-insert_ne m k j v h) refl
  ]

  pub contains_key-insert_self :
      (m : List (Str × V)) (k : Str) (v : V) → contains_key (insert m k v) k ≡ true
  unfolding contains_key insert
  contains_key-insert_self [] k v = rw (str_eq_refl k) refl
  contains_key-insert_self ((k', v') ∷ m) k v = elim (Bool-cases (str_eq k' k)) [
    | inl e ↦ rw (e, e) refl
    | inr e ↦ rw (e, e) (contains_key-insert_self m k v)
  ]

  -- A key that is there stays.
  pub contains_key-insert :
      (m : List (Str × V)) (k j : Str) (v : V)
      → contains_key m j ≡ true
      → contains_key (insert m k v) j ≡ true
  unfolding contains_key insert
  contains_key-insert [] k j v h = cc
  contains_key-insert ((k', v') ∷ m) k j v h = elim (Bool-cases (str_eq k' k)) [
    | inl e ↦ rw e h
    | inr e ↦ rw e (ground (arith, contains_key-insert m k j v))
  ]

  clash :
      (m : List (Str × V)) (k j : Str)
      → k ≡ j
      → contains_key m k ≡ false
      → ¬ (contains_key m j ≡ true)
  clash m k j e new there = cc

  pub contains_key-get :
      (m : List (Str × V)) (k : Str) {v : V} → get m k ≡ some v → contains_key m k ≡ true
  unfolding get contains_key
  contains_key-get [] k h = cc
  contains_key-get ((k', v') ∷ m) k h = elim (Bool-cases (str_eq k' k)) [
    | inl e ↦ rw e refl
    | inr e ↦ rw e (contains_key-get m k (rw e at h))
  ]

  pub get-or_insert_self :
      (m : List (Str × V)) (k : Str) (v : V)
      → contains_key m k ≡ false
      → get (or_insert m k v) k ≡ some v
  unfolding or_insert
  get-or_insert_self m k v h = rw h (get-insert_self m k v)

  -- What a key has, it keeps.
  pub get-or_insert :
      (m : List (Str × V)) (k j : Str) (v : V) {w : V}
      → get m j ≡ some w
      → get (or_insert m k v) j ≡ some w
  unfolding or_insert
  get-or_insert m k j v h = elim (Bool-cases (contains_key m k)) [
    | inl there ↦ rw there h
    | inr new ↦ rw new (get-insert_ne m k j v (λ e. clash m k j e new (contains_key-get m j h)) ∙ h)
  ]
