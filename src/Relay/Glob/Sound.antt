-- ===== src/Relay/Glob/Sound.antt =====
-- A text that `matches` accepts is a text of the glob.
use mathlib.Core.Option.{some-injective}
use purple_wolf.Prelude.{
  ℕ, suc, ◌+◌, ◌-◌, Bool, true, false, not, ◌&&◌, ◌==◌, List, [], ◌∷◌, ◌++◌, length, take, drop,
  drop-drop, drop_of_length-le, append-nil, none, some, Str, starts_with, starts_with→append,
  ends_with, ends_with→append, find, find→split, ◌≡◌, inl, inr, refl, sym, ap, ◌∙◌, Bool-cases,
  Option-cases, arith,
}
use purple_wolf.Relay.Glob.Lang.{Tail, Denotes}
use purple_wolf.Relay.Glob.{
  Glob, seek, at_end, first_part, next_cursor, middle_parts, at_stop, matches_parts, matches,
}

seek-split :
    (s : Str) (c : ℕ) (p : Str) {c' : ℕ}
    → seek s c p ≡ some c'
    → (gap : Str) × (drop c s ≡ gap ++ (p ++ drop c' s))
unfolding seek
seek-split s c p {c'} h = elim (Option-cases (find p (drop c s))) [
  | inl missing ↦ absurd (ground (arith, missing))
  | inr (i, found) ↦
      let e = find→split p (drop c s) i found in
      let at : c + (i + length p) ≡ c' = some-injective _ _ (rw found at h) in
      (
        take i (drop c s),
        e
            ∙ ap (λ z. take i (drop c s) ++ (p ++ z))
                (drop-drop c (i + length p) s ∙ ap (λ n. drop n s) at),
      )
]

at_end-split :
    (s : Str) (c : ℕ) (p : Str) {c' : ℕ}
    → at_end s c p ≡ some c'
    → (gap : Str) × (drop c s ≡ gap ++ (p ++ drop c' s))
unfolding at_end
at_end-split s c p {c'} h = elim (Bool-cases (ends_with p (drop c s))) [
  | inr no_end ↦ absurd (ground (arith, no_end))
  | inl end ↦
      let (_, e) = ends_with→append p (drop c s) end in
      let stop : drop c' s ≡ [] = drop_of_length-le c' s (ground (arith, end)) in
      let gap = take (length (drop c s) - length p) (drop c s) in
      (gap, e ∙ ap (λ z. gap ++ z) (sym (append-nil p) ∙ ap (λ z. p ++ z) (sym stop)))
]

next_cursor-split :
    (s : Str) (anchor_end : Bool) (c : ℕ) (p : Str) {c' : ℕ}
    → next_cursor s anchor_end c p ≡ some c'
    → (gap : Str) × (drop c s ≡ gap ++ (p ++ drop c' s))
unfolding next_cursor
next_cursor-split s true c p h = at_end-split s c p h
next_cursor-split s false c p h = seek-split s c p h

at_stop-none : (s : Str) (ends_wild : Bool) → ¬ (at_stop s ends_wild none ≡ true)
unfolding at_stop
at_stop-none s ends_wild h = cc

Tail-stop :
    (s : Str) (ends_wild : Bool) (c : ℕ)
    → at_stop s ends_wild (some c) ≡ true
    → Tail ends_wild [] (drop c s)
unfolding at_stop
Tail-stop s true c h = inl refl
Tail-stop s false c h = inr (drop_of_length-le c s (ground arith))

middle_parts-Tail :
    (s : Str) (ends_wild : Bool) (last_idx i c : ℕ) (ps : List Str)
    → at_stop s ends_wild (middle_parts s ends_wild last_idx i c ps) ≡ true
    → Tail ends_wild ps (drop c s)
unfolding middle_parts
middle_parts-Tail s ends_wild last_idx i c [] h = Tail-stop s ends_wild c h
middle_parts-Tail s ends_wild last_idx i c (p ∷ ps) h =
    elim (Option-cases (next_cursor s (i == last_idx && not ends_wild) c p)) [
      | inl missing ↦ absurd (at_stop-none s ends_wild (rw missing at h))
      | inr (c', found) ↦
          let (gap, e) = next_cursor-split s (i == last_idx && not ends_wild) c p found in
          (gap, drop c' s, e, middle_parts-Tail s ends_wild last_idx (suc i) c' ps (rw found at h))
    ]

first_part-Denotes :
    (s : Str) (starts_wild ends_wild : Bool) (p : Str) (ps : List Str) (c : ℕ)
    → first_part starts_wild s p ≡ some c
    → Tail ends_wild ps (drop c s)
    → Denotes starts_wild ends_wild (p ∷ ps) s
unfolding first_part
first_part-Denotes s true ends_wild p ps c h t =
    let (gap, e) = seek-split s 0 p h in (gap, drop c s, e, t)
first_part-Denotes s false ends_wild p ps c h t = elim (Bool-cases (starts_with p s)) [
  | inr other ↦ absurd (ground (arith, other))
  | inl start ↦
      let at : length p ≡ c = some-injective _ _ (rw start at h) in
      (drop c s, starts_with→append p s start ∙ ap (λ n. p ++ drop n s) at, t)
]

matches_parts-Denotes :
    (s : Str) (starts_wild ends_wild : Bool) (parts : List Str)
    → matches_parts s starts_wild ends_wild parts ≡ true
    → Denotes starts_wild ends_wild parts s
unfolding matches_parts
matches_parts-Denotes s starts_wild ends_wild [] h = tt
matches_parts-Denotes s starts_wild ends_wild (p ∷ ps) h =
    elim (Option-cases (first_part starts_wild s p)) [
      | inl missing ↦ absurd (at_stop-none s ends_wild (rw missing at h))
      | inr (c, found) ↦
          first_part-Denotes s starts_wild ends_wild p ps c found
            (middle_parts-Tail s ends_wild (length ps - 1) 0 c ps (rw found at h))
    ]

-- Whatever `matches` accepts is a text of the glob.
pub matches-Denotes :
    (g : Glob) (s : Str) → matches g s ≡ true → Denotes g.starts_wild g.ends_wild g.parts s
unfolding matches
matches-Denotes g s h = matches_parts-Denotes s g.starts_wild g.ends_wild g.parts h
