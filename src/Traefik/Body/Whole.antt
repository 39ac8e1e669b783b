-- ===== src/Traefik/Body/Whole.antt =====
-- What `drain_body` makes of a body that the host hands over whole.
use purple_wolf.Prelude.{
  ℕ, zero, suc, ◌+◌, ◌-◌, ◌<◌, ◌≤◌, min, Bool, true, false, not, ◌&&◌, ltb, ◌==◌, if◌then◌else◌,
  List, [], ◌∷◌, ◌++◌, length, take, map, All, take-append, some, Bytes, ◌≡◌, refl, sym, ap, ◌∙◌,
  inl, inr, arith, Bool-cases, append_assoc, append-nil, length-append,
}
use purple_wolf.Traefik.Body.{
  scratch_len, BodyResult, Read, Drain, finish, extend, drain_loop, drain_body, max_alloc,
}

-- The chunks of a body, each with what else stands in the scratch space, and the read at their end.
abbrev pub Chunks : Type 0
Chunks = List (Bytes × Bytes)

abbrev pub read_of : Bytes × Bytes → Read
read_of (chunk, stale) = record { eof = false; size = length chunk; scratch = chunk ++ stale }

abbrev pub end_read : Read
end_read = record { eof = true; size = 0; scratch = [] }

abbrev pub reads_of : Chunks → List Read
reads_of cs = map read_of cs ++ end_read ∷ []

unfoldable pub whole : Chunks → Bytes
whole [] = []
whole ((chunk, _) ∷ cs) = chunk ++ whole cs

abbrev pub Fits : Bytes × Bytes → Type 0
Fits (chunk, _) = (0 < length chunk) × (length chunk ≤ scratch_len)

module _ {A : Type 0} where
  take-join : (n : ℕ) (xs ys : List A) → take n (xs ++ ys) ≡ take n xs ++ take (n - length xs) ys
  take-join zero [] ys = refl
  take-join (suc n) [] ys = let e : suc n - 0 ≡ suc n = omega arith in rw e
  take-join zero (x ∷ xs) ys = let e : 0 - suc (length xs) ≡ 0 = omega arith in rw e
  take-join (suc n) (x ∷ xs) ys =
      let e : suc n - suc (length xs) ≡ n - length xs = omega arith in rw (e, take-join n xs ys)

  length-take : (n : ℕ) (xs : List A) → length (take n xs) ≡ min n (length xs)
  length-take (suc n) (x ∷ xs) = omega (arith, length-take n xs)
  length-take zero xs = omega arith
  length-take (suc n) [] = omega arith

  take-min : (n : ℕ) (xs ys : List A) → take (min n (length xs)) (xs ++ ys) ≡ take n xs
  take-min zero [] ys = refl
  take-min (suc n) [] ys = let e : min (suc n) 0 ≡ 0 = omega arith in rw e
  take-min zero (x ∷ xs) ys = let e : min 0 (suc (length xs)) ≡ 0 = omega arith in rw e
  take-min (suc n) (x ∷ xs) ys =
      let e : min (suc n) (suc (length xs)) ≡ suc (min n (length xs)) = omega arith in
      rw (e, take-min n xs ys)

-- The state of the loop when `p` was read.
abbrev at : ℕ → Bytes → Drain
at limit p = record {
  out = take limit p;
  empty_reads = 0;
  exceeded = ltb limit (length p);
  preserved = p;
}

drain_of : Bytes → Bool → Bytes → Drain
drain_of out exceeded preserved = record {
  out = out;
  empty_reads = 0;
  exceeded = exceeded;
  preserved = preserved;
}

room : (limit : ℕ) (p : Bytes) → limit - length (take limit p) ≡ limit - length p
room limit p = omega (arith, length-take limit p)

exceeds :
    (limit n m : ℕ) → (if ltb (min (limit - n) m) m then true else ltb limit n) ≡ ltb limit (n + m)
exceeds limit n m = ground arith

extend-at :
    (limit : ℕ) (p chunk stale : Bytes)
    → extend limit (at limit p) (read_of (chunk, stale)) ≡ at limit (p ++ chunk)
unfolding extend drain_of
extend-at limit p chunk stale = rw (
  room limit p,
  take-min (limit - length p) chunk stale,
  exceeds limit (length p) (length chunk),
  take-append (length chunk) chunk stale refl,
  take-join limit p chunk,
  length-append p chunk,
)

-- The result for a body.
abbrev pub result : ℕ → Bytes → BodyResult
result limit body =
    BodyResult.ok (record { bytes = take limit body; exceeded = ltb limit (length body) })

drain_loop-end :
    (limit : ℕ) (keep_all : Bool) (p : Bytes)
    → drain_loop limit keep_all (at limit p) (reads_of []) ≡ some (result limit (p ++ []), p)
unfolding drain_loop
drain_loop-end limit keep_all p = rw (append-nil p)

stops : (limit n m : ℕ) → 0 < m → ltb (min (limit - n) m) m ≡ ltb limit (n + m)
stops limit n m h = ground arith

-- One chunk: the loop ends behind it when the cap is passed and the rest need not be kept.
drain_loop-chunk :
    (limit : ℕ) (keep_all : Bool) (p chunk stale : Bytes) (rs : List Read)
    → 0 < length chunk
    → length chunk ≤ scratch_len
    → drain_loop limit keep_all (at limit p) (read_of (chunk, stale) ∷ rs) ≡ (
        if ltb limit (length p + length chunk) && not keep_all
        then some (finish (at limit (p ++ chunk)), p ++ chunk)
        else drain_loop limit keep_all (at limit (p ++ chunk)) rs)
unfolding drain_loop
drain_loop-chunk limit keep_all p chunk stale rs some_bytes small =
    let fits : ltb scratch_len (length chunk) ≡ false = ground arith in
    let full : length chunk == 0 ≡ false = ground arith in
    rw (
      fits,
      full,
      extend-at limit p chunk stale,
      room limit p,
      stops limit (length p) (length chunk) some_bytes,
    )

result-over :
    (limit : ℕ) (body rest : Bytes)
    → ltb limit (length body) ≡ true
    → result limit (body ++ rest) ≡ result limit body
result-over limit body rest over =
    let e : limit - length body ≡ 0 = ground arith in
    let more : ltb limit (length body + length rest) ≡ true = ground arith in
    rw (
      take-join limit body rest,
      e,
      append-nil (take limit body),
      length-append body rest,
      more,
      over,
    )

drain_loop-whole :
    (limit : ℕ) (keep_all : Bool) (cs : Chunks) (p : Bytes)
    → All Fits cs
    → (preserved : Bytes) × (drain_loop limit keep_all (at limit p) (reads_of cs)
        ≡ some (result limit (p ++ whole cs), preserved))
      × (keep_all ≡ true → preserved ≡ p ++ whole cs)
unfolding whole
drain_loop-whole limit keep_all [] p fits =
    (p, drain_loop-end limit keep_all p, λ _. sym (append-nil p))
drain_loop-whole limit keep_all ((chunk, stale) ∷ cs) p ((some_bytes, small), fits) =
    let step = drain_loop-chunk limit keep_all p chunk stale (reads_of cs) some_bytes small in
    let (preserved, runs, keeps) = drain_loop-whole limit keep_all cs (p ++ chunk) fits in
    elim (Bool-cases (ltb limit (length p + length chunk) && not keep_all)) [
      | inl stop ↦ (
        p ++ chunk,
        step
            ∙ rw stop (
                ap (λ b. some (b, p ++ chunk))
                  (sym (
                      result-over limit (p ++ chunk) (whole cs)
                        (rw (length-append p chunk) (ground arith)))
                    ∙ ap (result limit) (append_assoc p chunk (whole cs)))),
        λ kept. absurd (ground (arith, kept, stop)),
      )
      | inr go ↦ (
        preserved,
        step
            ∙ rw go (
                runs
                ∙ ap (λ b. some (result limit b, preserved)) (append_assoc p chunk (whole cs))),
        λ kept. keeps kept ∙ append_assoc p chunk (whole cs),
      )
    ]

take-none : (n : ℕ) → ◌≡◌ {A = Bytes} (take n []) []
take-none zero = refl
take-none (suc n) = refl

at-start :
    (limit : ℕ)
    → at limit [] ≡ record { out = []; empty_reads = 0; exceeded = false; preserved = [] }
at-start limit =
    let none_over : ltb limit 0 ≡ false = ground arith in rw (none_over, take-none limit)

-- When the host hands a body over in chunks that fit the scratch space, and then its end, the loop ends
-- without an error. What is kept for inspection is the body up to the cap, or up to `max_alloc` if that
-- is less; it counts as exceeded exactly when the body is longer; and with `preserve_after_cap` every
-- byte of the body is handed on for the upstream.
pub drain_body-whole :
    (max : ℕ) (preserve_after_cap : Bool) (cs : Chunks)
    → All Fits cs
    → (preserved : Bytes) × (drain_body max preserve_after_cap (reads_of cs)
        ≡ some (result (min max max_alloc) (whole cs), preserved))
      × (preserve_after_cap ≡ true → preserved ≡ whole cs)
unfolding drain_body
drain_body-whole max preserve_after_cap cs fits =
    rw (← at-start (min max max_alloc))
      (drain_loop-whole (min max max_alloc) preserve_after_cap cs [] fits)
