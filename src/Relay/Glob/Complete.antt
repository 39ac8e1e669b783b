-- ===== src/Relay/Glob/Complete.antt =====
-- `matches` accepts every text of the glob, but for the globs of one part that start with a star and
-- do not end in one.
use purple_wolf.Prelude.{
  ℕ, zero, suc, ◌+◌, ◌-◌, ◌≤◌, Bool, true, false, not, ◌&&◌, ltb, ◌==◌, List, [], ◌∷◌, ◌++◌, length,
  length-append, length-drop, length-pos, drop, drop-drop, drop-append, append-nil, append_assoc,
  some, Str, starts_with, starts_with-append, ends_with, ends_with-append, find, find_of_starts,
  find-append, find-le, ◌≡◌, ◌≢◌, inl, inr, refl, sym, ap, subst, ◌∙◌, arith,
}
use purple_wolf.Relay.Glob.Lang.{Tail, Denotes}
use purple_wolf.Relay.Glob.{
  Glob, seek, at_end, first_part, next_cursor, middle_parts, at_stop, matches_parts, matches,
}

-- More parts to come, or a star at the end: then a longer gap does no harm.
abbrev Slack : Bool → List Str → Type 0
Slack ends_wild [] = ends_wild ≡ true
Slack ends_wild (p ∷ ps) = Unit {0}

Tail-gap :
    (ends_wild : Bool) (ps : List Str) (h r : Str)
    → Slack ends_wild ps
    → Tail ends_wild ps r
    → Tail ends_wild ps (h ++ r)
Tail-gap ends_wild [] h r slack t = inl slack
Tail-gap ends_wild (p ∷ ps) h r slack (gap, rest, e, t) =
    (h ++ gap, rest, ap (λ z. h ++ z) e ∙ sym (append_assoc h gap (p ++ rest)), t)

-- The search finds the part, and what is left is still a tail.
seek-Tail :
    (s : Str) (ends_wild : Bool) (c : ℕ) (p : Str) (ps : List Str)
    → Slack ends_wild ps
    → c ≤ length s
    → Tail ends_wild (p ∷ ps) (drop c s)
    → (c' : ℕ) × (seek s c p ≡ some c') × (c' ≤ length s) × Tail ends_wild ps (drop c' s)
unfolding seek
seek-Tail s ends_wild c p ps slack le (gap, rest, e, t) =
    let (i, h, found, left) = find-append p gap rest in
    let found' : find p (drop c s) ≡ some i = ap (find p) e ∙ found in
    let left' : drop (c + (i + length p)) s ≡ h ++ rest =
      sym (drop-drop c (i + length p) s) ∙ ap (drop (i + length p)) e ∙ left in
    (
      c + (i + length p),
      rw found',
      omega (arith, find-le p (drop c s) i found', length-drop c s),
      subst (Tail ends_wild ps) (sym left') (Tail-gap ends_wild ps h rest slack t),
    )

at_end-Tail :
    (s : Str) (c : ℕ) (p : Str)
    → c ≤ length s
    → Tail false (p ∷ []) (drop c s)
    → at_end s c p ≡ some (length s)
unfolding at_end
at_end-Tail s c p le (gap, rest, e, inl t) = cc
at_end-Tail s c p le (gap, rest, e, inr nothing) =
    let e' : drop c s ≡ gap ++ p =
      e ∙ ap (λ z. gap ++ (p ++ z)) nothing ∙ ap (λ z. gap ++ z) (append-nil p) in
    let end : ends_with p (drop c s) ≡ true = ap (ends_with p) e' ∙ ends_with-append p gap in
    let len : length s - c ≡ length gap + length p =
      sym (length-drop c s) ∙ ap length e' ∙ length-append gap p in
    let room : ltb (length s - length p) c ≡ false = ground arith in rw (end, room)

stop-ends : (s : Str) → at_stop s false (some (length s)) ≡ true
unfolding at_stop
stop-ends s = ground arith

Tail-stop :
    (s : Str) (ends_wild : Bool) (c : ℕ)
    → c ≤ length s
    → Tail ends_wild [] (drop c s)
    → at_stop s ends_wild (some c) ≡ true
unfolding at_stop
Tail-stop s true c le t = refl
Tail-stop s false c le (inl t) = cc
Tail-stop s false c le (inr e) = ground (arith, ap length e, length-drop c s)

middle_parts-accepts :
    (s : Str) (ends_wild : Bool) (last_idx i c : ℕ) (ps : List Str)
    → i + length ps ≡ suc last_idx
    → c ≤ length s
    → Tail ends_wild ps (drop c s)
    → at_stop s ends_wild (middle_parts s ends_wild last_idx i c ps) ≡ true
unfolding middle_parts next_cursor
middle_parts-accepts s ends_wild last_idx i c [] len le t = Tail-stop s ends_wild c le t
middle_parts-accepts s false last_idx i c (p ∷ []) len le t =
    let last : i == last_idx ≡ true = ground arith in
    rw (last, at_end-Tail s c p le t) (stop-ends s)
middle_parts-accepts s true last_idx i c (p ∷ []) len le t =
    let free : i == last_idx && not true ≡ false = ground arith in
    let (c', found, le', t') = seek-Tail s true c p [] refl le t in
    rw (free, found) (middle_parts-accepts s true last_idx (suc i) c' [] (omega arith) le' t')
middle_parts-accepts s ends_wild last_idx i c (p ∷ q ∷ ps) len le t =
    let free : i == last_idx && not ends_wild ≡ false = ground arith in
    let (c', found, le', t') = seek-Tail s ends_wild c p (q ∷ ps) tt le t in
    rw (free, found)
      (middle_parts-accepts s ends_wild last_idx (suc i) c' (q ∷ ps) (omega arith) le' t')

-- The parts behind the first, where there are any.
rest-accepts :
    (s : Str) (ends_wild : Bool) (c : ℕ) (ps : List Str)
    → c ≤ length s
    → Tail ends_wild ps (drop c s)
    → at_stop s ends_wild (middle_parts s ends_wild (length ps - 1) 0 c ps) ≡ true
unfolding middle_parts
rest-accepts s ends_wild c [] le t = Tail-stop s ends_wild c le t
rest-accepts s ends_wild c (p ∷ ps) le t =
    middle_parts-accepts s ends_wild (suc (length ps) - 1) 0 c (p ∷ ps) (omega arith) le t

-- Not of the form `*part`.
abbrev pub IsRegular : Bool → Bool → List Str → Type 0
IsRegular true false (p ∷ []) = ⊥
IsRegular _ _ _ = Unit {0}

regular-Slack :
    (ends_wild : Bool) (p : Str) (ps : List Str)
    → IsRegular true ends_wild (p ∷ ps)
    → Slack ends_wild ps
regular-Slack true p [] h = refl
regular-Slack false p [] h = absurd h
regular-Slack ends_wild p (q ∷ ps) h = tt

matches_parts-accepts :
    (s : Str) (starts_wild ends_wild : Bool) (parts : List Str)
    → IsRegular starts_wild ends_wild parts
    → Denotes starts_wild ends_wild parts s
    → matches_parts s starts_wild ends_wild parts ≡ true
unfolding matches_parts first_part
matches_parts-accepts s starts_wild ends_wild [] h d = refl
matches_parts-accepts s true ends_wild (p ∷ ps) h d =
    let (c, found, le, t) =
      seek-Tail s ends_wild 0 p ps (regular-Slack ends_wild p ps h) (omega arith) d in
    rw found (rest-accepts s ends_wild c ps le t)
matches_parts-accepts s false ends_wild (p ∷ ps) h (rest, e, t) =
    let start : starts_with p s ≡ true = ap (starts_with p) e ∙ starts_with-append p rest in
    let left : drop (length p) s ≡ rest = ap (drop (length p)) e ∙ drop-append p rest in
    rw start (
      rest-accepts s ends_wild (length p) ps (omega (arith, ap length e, length-append p rest))
        (subst (Tail ends_wild ps) (sym left) t))

-- `matches` accepts every text of the glob, unless the glob has one part, starts with a star and does
-- not end in one.
pub matches-accepts :
    (g : Glob) (s : Str)
    → IsRegular g.starts_wild g.ends_wild g.parts
    → Denotes g.starts_wild g.ends_wild g.parts s
    → matches g s ≡ true
unfolding matches
matches-accepts g s h d = matches_parts-accepts s g.starts_wild g.ends_wild g.parts h d

-- The glob `*p` misses every text that ends in `p` and starts with `p` earlier on: the search stops at
-- the first occurrence, which is not at the end.
pub suffix-missed :
    (p gap : Str)
    → p ≢ []
    → let g : Glob = record { parts = p ∷ []; starts_wild = true; ends_wild = false } in
      Denotes g.starts_wild g.ends_wild g.parts (p ++ (gap ++ p))
      × (matches g (p ++ (gap ++ p)) ≡ false)
unfolding matches matches_parts first_part seek at_stop middle_parts
suffix-missed p gap real =
    let found = find_of_starts p (p ++ (gap ++ p)) (starts_with-append p (gap ++ p)) in
    let longer : zero + (zero + length p) == length (p ++ (gap ++ p)) ≡ false =
      ground (arith, length-append p (gap ++ p), length-append gap p, length-pos p real) in
    (
      (
        p ++ gap,
        [],
        ap (λ z. p ++ (gap ++ z)) (sym (append-nil p)) ∙ sym (append_assoc p gap (p ++ [])),
        inr refl,
      ),
      rw (found, longer),
    )
