-- ===== src/Relay/Enrichers/InStep.antt =====
-- Keys of the cache's entries and of its queue, and what the steps of the cache do to them.
use purple_wolf.Prelude.Maps
use purple_wolf.Prelude.{
  ℕ, ◌+◌, ◌≤◌, true, false, leb, if◌then◌else◌, List, [], ◌∷◌, ◌++◌, map, length, Str, str_eq,
  str_eq→eq, ◌≡◌, refl, ap, Bool-cases, ◌⊎◌, inl, inr, arith, length-append,
}
use purple_wolf.Relay.Enrichers.Cache.{CacheEntry, new, remove_lru_key}

-- One where the keys are the same; how often a key stands in a list.
unfoldable pub one : Str → Str → ℕ
one k j = if str_eq k j then 1 else 0

unfoldable pub count : Str → List Str → ℕ
unfolding one
count j [] = 0
count j (k ∷ ks) = count j ks + one k j

abbrev pub keys : List (Str × CacheEntry) → List Str
keys entries = map (λ e. e.0) entries

-- Two lists have the same keys, each once.
pub record InStep (ks lru : List Str) : Type 0 where
  pub same : (j : Str) → count j ks ≡ count j lru
  pub once : (j : Str) → count j lru ≤ 1
  pub equal : length ks ≡ length lru

pub keys-remove :
    (entries : List (Str × CacheEntry)) (k : Str)
    → keys (Maps.remove entries k) ≡ remove_lru_key (keys entries) k
unfolding Maps.remove remove_lru_key
keys-remove [] k = refl
keys-remove ((k', e) ∷ entries) k = elim (Bool-cases (str_eq k' k)) [
  | inl here ↦ rw here refl
  | inr later ↦ rw later (ap (◌∷◌ k') (keys-remove entries k))
]

one-same : (x k j : Str) → str_eq x k ≡ true → one x j ≡ one k j
one-same x k j e = ap (λ z. one z j) (str_eq→eq x k e)

one-ne : (x k : Str) → str_eq x k ≡ false → one x k ≡ 0
unfolding one
one-ne x k e = rw e refl

-- Removing a key that is there takes away one of it and nothing else.
pub remove-there :
    (ks : List Str) (k : Str)
    → 1 ≤ count k ks
    → ((j : Str) → count j (remove_lru_key ks k) + one k j ≡ count j ks)
      × (length (remove_lru_key ks k) + 1 ≡ length ks)
unfolding count remove_lru_key
remove-there [] k h = absurd (omega arith)
remove-there (x ∷ ks) k h = elim (Bool-cases (str_eq x k)) [
  | inl here ↦ rw here ((λ j. omega (arith, one-same x k j here)), omega arith)
  | inr later ↦
      let (rest, shorter) = remove-there ks k (omega (arith, one-ne x k later)) in
      rw later ((λ j. omega (arith, rest j)), omega arith)
]

pub remove-missing : (ks : List Str) (k : Str) → count k ks ≡ 0 → remove_lru_key ks k ≡ ks
unfolding count remove_lru_key
remove-missing [] k h = refl
remove-missing (x ∷ ks) k h = elim (Bool-cases (str_eq x k)) [
  | inl here ↦ absurd (ground (arith, here))
  | inr later ↦ rw later (ap (◌∷◌ x) (remove-missing ks k (omega arith)))
]

pub InStep-remove :
    (ks lru : List Str) (k : Str)
    → InStep ks lru
    → InStep (remove_lru_key ks k) (remove_lru_key lru k)
InStep-remove ks lru k s = elim (Bool-cases (leb 1 (count k lru))) [
  | inl there ↦
      let (rest, shorter) = remove-there ks k (ground (arith, s.same k)) in
      let (rest', shorter') = remove-there lru k (ground arith) in
      record {
        same = λ j. omega (arith, rest j, rest' j, s.same j);
        once = λ j. omega (arith, rest' j, s.once j);
        equal = omega (arith, shorter, shorter', s.equal);
      }
  | inr missing ↦
      rw (remove-missing ks k (ground (arith, s.same k)), remove-missing lru k (ground arith)) s
]

pub count-append : (ks : List Str) (k j : Str) → count j (ks ++ k ∷ []) ≡ count j ks + one k j
unfolding count
count-append [] k j = refl
count-append (x ∷ ks) k j = omega (arith, count-append ks k j)

one-cases : (k j : Str) → ((k ≡ j) × (one k j ≡ 1)) ⊎ (one k j ≡ 0)
unfolding one
one-cases k j = elim (Bool-cases (str_eq k j)) [
  | inl e ↦ inl (str_eq→eq k j e, rw e refl)
  | inr e ↦ inr (rw e refl)
]

once-append :
    (lru : List Str) (k : Str)
    → ((j : Str) → count j lru ≤ 1)
    → count k lru ≡ 0
    → (j : Str) → count j (lru ++ k ∷ []) ≤ 1
once-append lru k once new j = elim (one-cases k j) [
  | inl (e, o) ↦ omega (arith, count-append lru k j, o, ap (λ z. count z lru) e, new)
  | inr o ↦ omega (arith, count-append lru k j, o, once j)
]

pub InStep-push :
    (ks lru : List Str) (k : Str)
    → InStep ks lru
    → count k lru ≡ 0
    → InStep (ks ++ k ∷ []) (lru ++ k ∷ [])
InStep-push ks lru k s new = record {
  same = λ j. omega (arith, count-append ks k j, count-append lru k j, s.same j);
  once = once-append lru k s.once new;
  equal = omega (arith, length-append ks (k ∷ []), length-append lru (k ∷ []), s.equal);
}

-- To move a key to the end.
pub InStep-touch :
    (ks lru : List Str) (k : Str)
    → InStep ks lru
    → 1 ≤ count k lru
    → InStep ks (remove_lru_key lru k ++ k ∷ [])
      × (length (remove_lru_key lru k ++ k ∷ []) ≡ length lru)
unfolding one
InStep-touch ks lru k s there =
    let (rest, shorter) = remove-there lru k there in
    let same : length (remove_lru_key lru k ++ k ∷ []) ≡ length lru =
      omega (arith, length-append (remove_lru_key lru k) (k ∷ []), shorter) in
    (
      record {
        same = λ j. omega (arith, count-append (remove_lru_key lru k) k j, rest j, s.same j);
        once = λ j. omega (arith, count-append (remove_lru_key lru k) k j, rest j, s.once j);
        equal = omega (arith, same, s.equal);
      },
      same,
    )

pub contains_key-count :
    (entries : List (Str × CacheEntry)) (k : Str)
    → Maps.contains_key entries k ≡ true
    → 1 ≤ count k (keys entries)
unfolding Maps.contains_key count one
contains_key-count [] k h = cc
contains_key-count ((k', e) ∷ entries) k h = elim (Bool-cases (str_eq k' k)) [
  | inl here ↦ ground (arith, here)
  | inr later ↦ ground (arith, later, contains_key-count entries k (rw later at h))
]

pub missing-count :
    (entries : List (Str × CacheEntry)) (k : Str)
    → Maps.contains_key entries k ≡ false
    → count k (keys entries) ≡ 0
unfolding Maps.contains_key count one
missing-count [] k h = refl
missing-count ((k', e) ∷ entries) k h = elim (Bool-cases (str_eq k' k)) [
  | inl here ↦ absurd (ground (arith, here))
  | inr later ↦ ground (arith, later, missing-count entries k (rw later at h))
]

pub keys-insert_new :
    (entries : List (Str × CacheEntry)) (k : Str) (e : CacheEntry)
    → count k (keys entries) ≡ 0
    → keys (Maps.insert entries k e) ≡ keys entries ++ k ∷ []
unfolding Maps.insert count one
keys-insert_new [] k e h = refl
keys-insert_new ((k', e') ∷ entries) k e h = elim (Bool-cases (str_eq k' k)) [
  | inl here ↦ absurd (ground (arith, here))
  | inr later ↦ rw later (ap (◌∷◌ k') (keys-insert_new entries k e (ground (arith, later))))
]

pub keys-insert_there :
    (entries : List (Str × CacheEntry)) (k : Str) (e : CacheEntry)
    → 1 ≤ count k (keys entries)
    → keys (Maps.insert entries k e) ≡ keys entries
unfolding Maps.insert count one
keys-insert_there [] k e h = absurd (omega arith)
keys-insert_there ((k', e') ∷ entries) k e h = elim (Bool-cases (str_eq k' k)) [
  | inl here ↦ rw here refl
  | inr later ↦ rw later (ap (◌∷◌ k') (keys-insert_there entries k e (ground (arith, later))))
]
