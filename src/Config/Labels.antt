-- ===== src/Config/Labels.antt =====
-- What `validate_labels` of crates/purple-wolf-core/src/config.rs accepts.
use purple_wolf.Config.{
  is_lower, is_key_byte, is_valid_label_key, Totalled, LabelError, saturating_add, label_loop,
  check_total, validate_labels, max_label_keys, max_label_bytes, max_label_value_bytes,
}
use purple_wolf.Prelude.{
  ℕ, ◌+◌, ◌-◌, ◌^◌, ◌≤◌, min, Bool, true, false, ◌&&◌, leb, ltb, List, [], ◌∷◌, length, all, All,
  none, Str, ◌≡◌, ◌↔◌, ◌⊎◌, refl, ap, ◌∙◌, inl, inr, arith, Bool-cases,
}

-- A label that the loop lets through.
abbrev pub good_label : Str × Str → Bool
good_label (k, v) = is_valid_label_key k && leb (length v) max_label_value_bytes

abbrev pub size : List (Str × Str) → ℕ
size [] = 0
size ((k, v) ∷ ls) = length k + length v + size ls

abbrev usize_max : ℕ
usize_max = 2 ^ 64 - 1

saturated :
    (s a b c : ℕ)
    → min usize_max (saturating_add (saturating_add s a) b + c) ≡ min usize_max (s + (a + b + c))
unfolding saturating_add
saturated s a b c = omega arith

saturating_add-le : (a b : ℕ) → saturating_add a b ≤ usize_max
unfolding saturating_add
saturating_add-le a b = omega arith

-- The loop at a label, by the two tests on it.
label_loop-next :
    (k v : Str) (ls : List (Str × Str)) (sum : ℕ)
    → good_label (k, v) ≡ true
    → label_loop sum ((k, v) ∷ ls)
      ≡ label_loop (saturating_add (saturating_add sum (length k)) (length v)) ls
unfolding label_loop
label_loop-next k v ls sum good =
    let key : is_valid_label_key k ≡ true = ground arith in
    let short : ltb max_label_value_bytes (length v) ≡ false = ground arith in rw (key, short)

label_loop-stop :
    (k v : Str) (ls : List (Str × Str)) (sum : ℕ)
    → good_label (k, v) ≡ false
    → (e : LabelError) × (label_loop sum ((k, v) ∷ ls) ≡ Totalled.rejected e)
unfolding label_loop
label_loop-stop k v ls sum bad = elim (Bool-cases (is_valid_label_key k)) [
  | inr other ↦ (LabelError.bad_key k, rw other)
  | inl key ↦
      let long : ltb max_label_value_bytes (length v) ≡ true = ground arith in
      (LabelError.long_value k (length v), rw (key, long))
]

label_loop-good :
    (ls : List (Str × Str)) (sum : ℕ)
    → sum ≤ usize_max
    → all good_label ls ≡ true
    → label_loop sum ls ≡ Totalled.total (min usize_max (sum + size ls))
unfolding label_loop all
label_loop-good [] sum low h = ap Totalled.total (omega arith)
label_loop-good ((k, v) ∷ ls) sum low h =
    let here : good_label (k, v) ≡ true = ground arith in
    let later : all good_label ls ≡ true = ground arith in
    label_loop-next k v ls sum here
    ∙ label_loop-good ls _ (saturating_add-le _ (length v)) later
    ∙ ap Totalled.total (saturated sum (length k) (length v) (size ls))

label_loop-bad :
    (ls : List (Str × Str)) (sum : ℕ)
    → all good_label ls ≡ false
    → (e : LabelError) × (label_loop sum ls ≡ Totalled.rejected e)
unfolding all
label_loop-bad [] sum h = absurd cc
label_loop-bad ((k, v) ∷ ls) sum h = elim (Bool-cases (good_label (k, v))) [
  | inr bad ↦ label_loop-stop k v ls sum bad
  | inl good ↦
      let later : all good_label ls ≡ false = ground arith in
      let (e, run) =
        label_loop-bad ls (saturating_add (saturating_add sum (length k)) (length v)) later in
      (e, label_loop-next k v ls sum good ∙ run)
]

validate-good :
    (ls : List (Str × Str))
    → label_loop 0 ls ≡ Totalled.total (min usize_max (0 + size ls))
    → all good_label ls ≡ true
    → (validate_labels ls ≡ none) ↔ (
        (leb (length ls) max_label_keys && (all good_label ls && leb (size ls) max_label_bytes))
        ≡ true)
unfolding validate_labels check_total
validate-good ls run good = ground (arith, run, good)

validate_labels-tests :
    (ls : List (Str × Str))
    → (validate_labels ls ≡ none) ↔ (
        (leb (length ls) max_label_keys && (all good_label ls && leb (size ls) max_label_bytes))
        ≡ true)
unfolding validate_labels check_total
validate_labels-tests ls = elim (Bool-cases (all good_label ls)) [
  | inl good ↦ validate-good ls (label_loop-good ls 0 (omega arith) good) good
  | inr bad ↦ let (e, run) = label_loop-bad ls 0 bad in ground (arith, run, bad)
]

-- The documented form of a key, `^[a-z][a-z0-9_.-]{0,62}$`.
abbrev pub KeyByte : ℕ → Type 0
KeyByte b = ((97 ≤ b) × (b ≤ 122)) ⊎ (((48 ≤ b) × (b ≤ 57)) ⊎ ((b ≡ 95) ⊎ ((b ≡ 46) ⊎ (b ≡ 45))))

abbrev pub DocumentedKey : Str → Type 0
DocumentedKey [] = ⊥
DocumentedKey (b ∷ k) = (97 ≤ b) × (b ≤ 122) × All KeyByte k × (length k ≤ 62)

is_key_byte_iff : (b : ℕ) → (is_key_byte b ≡ true) ↔ KeyByte b
unfolding is_key_byte is_lower
is_key_byte_iff b = ground arith

and-true : (a b : Bool) → (a && b) ≡ true → (a ≡ true) × (b ≡ true)
and-true true b h = (refl, h)
and-true false b h = absurd cc

all-All :
    {A : Type 0} (p : A → Bool) (P : A → Type 0)
    → ((a : A) → (p a ≡ true) ↔ P a)
    → (xs : List A) → (all p xs ≡ true) ↔ All P xs
unfolding all
all-All p P h [] = (λ e. tt, λ e. refl)
all-All p P h (x ∷ xs) =
    let ih = all-All p P h xs in
    (
      λ e. let (a, b) = and-true (p x) (all p xs) e in ((h x).0 a, ih.0 b),
      λ (a, b). rw ((h x).1 a, ih.1 b) refl,
    )

is_valid_label_key_iff : (k : Str) → (is_valid_label_key k ≡ true) ↔ DocumentedKey k
unfolding is_valid_label_key is_lower
is_valid_label_key_iff [] = (λ e. absurd cc, λ e. absurd e)
is_valid_label_key_iff (b ∷ k) =
    let rest = all-All is_key_byte KeyByte is_key_byte_iff k in
    (
      λ e. (ground arith, ground arith, rest.0 (ground arith), ground arith),
      λ (low, high, bytes, short). let r = rest.1 bytes in ground arith,
    )

good_label_iff : (l : Str × Str) → (good_label l ≡ true) ↔ (DocumentedKey l.0 × (length l.1 ≤ 1024))
good_label_iff (k, v) =
    let key = is_valid_label_key_iff k in
    (
      λ e. let (a, b) = and-true (is_valid_label_key k) _ e in (key.0 a, ground arith),
      λ (a, b). let a' = key.1 a in ground arith,
    )

-- A label map is accepted exactly when it has at most 32 keys, every key is a lower-case letter and at most
-- 62 lower-case letters, digits, underscores, dots and dashes, every value has at most 1024 bytes, and all
-- keys and values together at most 4096; the additions that saturate at the width of the machine do not
-- matter.
pub validate_labels_iff :
    (ls : List (Str × Str))
    → (validate_labels ls ≡ none) ↔ (
        (length ls ≤ 32) × All (λ l. DocumentedKey l.0 × (length l.1 ≤ 1024)) ls × (size ls ≤ 4096))
validate_labels_iff ls =
    let tests = validate_labels-tests ls in
    let labels =
      all-All good_label (λ l. DocumentedKey l.0 × (length l.1 ≤ 1024)) good_label_iff ls in
    (
      λ e.
          let h = tests.0 e in
          let (few, h') = and-true (leb (length ls) max_label_keys) _ h in
          let (good, small) = and-true (all good_label ls) _ h' in
          (ground arith, labels.0 good, ground arith),
      λ (few, good, small). let g = labels.1 good in tests.1 (ground arith),
    )
