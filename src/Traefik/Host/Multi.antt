-- ===== src/Traefik/Host/Multi.antt =====
-- A host that keeps the ABI's contract for values with NUL behind each, and what is read from it.
use purple_wolf.Prelude.{
  ℕ, zero, suc, ◌+◌, ◌-◌, ◌*◌, ◌/◌, ◌%◌, ◌^◌, ◌≤◌, ◌<◌, min, true, false, ltb, leb, ◌==◌,
  if◌then◌else◌, List, [], ◌∷◌, ◌++◌, append_assoc, append-nil, length, take, take-append, All,
  Bytes, contains, ◌≡◌, refl, sym, ap, ◌∙◌, Bool-cases, inl, inr, arith,
}
use purple_wolf.Traefik.Body.{max_alloc}
use purple_wolf.Traefik.Host.{
  scratch_size, max_multi_values, clip, Call, split_packed, nul_loop, split_nul, multi_of,
  read_buf_multi,
}

abbrev pub encoded : List Bytes → Bytes
encoded [] = []
encoded (v ∷ vs) = v ++ 0 ∷ encoded vs

abbrev pub zeros : ℕ → Bytes
zeros zero = []
zeros (suc n) = 0 ∷ zeros n

abbrev pub packed : List Bytes → ℕ
packed vs = length vs * 2 ^ 32 + length (encoded vs)

-- The contract: the count and the length whatever the limit, and the bytes in the buffer if they fit it.
abbrev pub host : List Bytes → Call
host vs call limit = (
  packed vs,
  if leb (length (encoded vs)) limit
      then encoded vs ++ zeros (limit - length (encoded vs))
      else zeros limit,
)

nul_loop-value :
    (n : ℕ) (value v buf : Bytes)
    → contains 0 v ≡ false
    → nul_loop (suc n) value (v ++ 0 ∷ buf) ≡ (value ++ v) ∷ nul_loop n [] buf
unfolding nul_loop contains
nul_loop-value n value [] buf h = ap (λ z. z ∷ nul_loop n [] buf) (sym (append-nil value))
nul_loop-value n value (b ∷ v) buf h =
    let here : b == 0 ≡ false = ground arith in
    let later : contains 0 v ≡ false = ground arith in
    rw here (
      nul_loop-value n (value ++ b ∷ []) v buf later
      ∙ ap (λ z. z ∷ nul_loop n [] buf) (append_assoc value (b ∷ []) v))

nul_loop-zero : (value buf : Bytes) → nul_loop 0 value buf ≡ []
unfolding nul_loop
nul_loop-zero value [] = refl
nul_loop-zero value (b ∷ buf) = refl

nul_loop-encoded :
    (n : ℕ) (vs : List Bytes)
    → All (λ v. contains 0 v ≡ false) vs
    → nul_loop n [] (encoded vs) ≡ take n vs
unfolding nul_loop
nul_loop-encoded zero [] h = refl
nul_loop-encoded (suc n) [] h = refl
nul_loop-encoded zero (v ∷ vs) h = nul_loop-zero [] (encoded (v ∷ vs))
nul_loop-encoded (suc n) (v ∷ vs) (h, hs) =
    nul_loop-value n [] v (encoded vs) h ∙ ap (◌∷◌ v) (nul_loop-encoded n vs hs)

clip-small : (n : ℕ) → n < 2 ^ 31 → clip n ≡ n
unfolding clip
clip-small n h = let t : leb (2 ^ 31) n ≡ false = ground arith in rw t refl

halves : (c l : ℕ) → l < 2 ^ 31 → ((c * 2 ^ 32 + l) / 2 ^ 32 ≡ c) × ((c * 2 ^ 32 + l) % 2 ^ 32 ≡ l)
halves c l h = (omega arith, omega arith)

split_packed-packed :
    (vs : List Bytes)
    → length vs < 2 ^ 31
    → length (encoded vs) < 2 ^ 31
    → split_packed (packed vs) ≡ (length vs, length (encoded vs))
unfolding split_packed
split_packed-packed vs few short =
    let (high, low) = halves (length vs) (length (encoded vs)) short in
    rw (high, low, clip-small (length vs) few, clip-small (length (encoded vs)) short) refl

min-zero : (n : ℕ) → min n 0 ≡ 0
min-zero n = omega arith

min-suc : (n m : ℕ) → min (suc n) (suc m) ≡ suc (min n m)
min-suc n m = omega arith

take-nil : (n : ℕ) → take {A = Bytes} n [] ≡ []
take-nil zero = refl
take-nil (suc n) = refl

take-min : (n m : ℕ) (vs : List Bytes) → n ≡ length vs → take (min n m) vs ≡ take m vs
take-min n zero [] e = rw (min-zero n) refl
take-min n (suc m) [] e = take-nil (min n (suc m))
take-min n zero (v ∷ vs) e = rw (min-zero n) refl
take-min zero (suc m) (v ∷ vs) e = absurd (omega arith)
take-min (suc n) (suc m) (v ∷ vs) e = rw (min-suc n m) (ap (◌∷◌ v) (take-min n m vs (omega arith)))

split_nul-encoded :
    (vs : List Bytes)
    → All (λ v. contains 0 v ≡ false) vs
    → split_nul (encoded vs) (length vs) ≡ take max_multi_values vs
unfolding split_nul
split_nul-encoded [] h = refl
split_nul-encoded (v ∷ vs) h =
    let t : min (length (v ∷ vs)) max_multi_values == 0 ≡ false = ground arith in
    rw t (
      nul_loop-encoded (min (length (v ∷ vs)) max_multi_values) (v ∷ vs) h
      ∙ take-min (length (v ∷ vs)) max_multi_values (v ∷ vs) refl)

-- The first bytes of the buffer of a call with room.
host-buffer :
    (vs : List Bytes) (call limit : ℕ)
    → length (encoded vs) ≤ limit
    → take (length (encoded vs)) (host vs call limit).1 ≡ encoded vs
host-buffer vs call limit fits =
    let t : leb (length (encoded vs)) limit ≡ true = ground arith in
    rw t (take-append (length (encoded vs)) (encoded vs) (zeros (limit - length (encoded vs))) refl)

multi_of-read :
    (vs : List Bytes) (scratch big : Bytes)
    → length (encoded vs) ≤ max_alloc
    → (length (encoded vs) ≤ scratch_size → take (length (encoded vs)) scratch ≡ encoded vs)
    → take (length (encoded vs)) big ≡ encoded vs
    → multi_of (length vs, length (encoded vs)) scratch (length vs, length (encoded vs)) big
      ≡ split_nul (encoded vs) (length vs)
unfolding multi_of
multi_of-read vs scratch big fits first second =
    let under : ltb max_alloc (length (encoded vs)) ≡ false = ground arith in
    let same : ltb (length (encoded vs)) (length (encoded vs)) ≡ false = ground arith in
    elim (Bool-cases (leb (length (encoded vs)) scratch_size)) [
      | inl small ↦ rw small (ap (λ z. split_nul z (length vs)) (first (ground (arith, small))))
      | inr more ↦ rw (more, under, same) (ap (λ z. split_nul z (length vs)) second)
    ]

-- From a host that keeps the contract, values without NUL are read back, the first 1024 of them, whether
-- they fit the scratch buffer or take a second call, if they and their NULs are at most what the guest
-- allocates.
pub read_buf_multi-host :
    (vs : List Bytes)
    → All (λ v. contains 0 v ≡ false) vs
    → length vs < 2 ^ 31
    → length (encoded vs) ≤ max_alloc
    → read_buf_multi (host vs) ≡ take max_multi_values vs
unfolding read_buf_multi
read_buf_multi-host vs h few fits =
    let e = split_packed-packed vs few (omega arith) in
    let len = length (encoded vs) in
    ap
      (λ head.
        multi_of head (host vs 0 scratch_size).1 (split_packed (packed vs)) (host vs 1 head.1).1)
      e
    ∙ ap (λ head. multi_of (length vs, len) (host vs 0 scratch_size).1 head (host vs 1 len).1) e
    ∙ multi_of-read vs (host vs 0 scratch_size).1 (host vs 1 len).1 fits
        (λ small. host-buffer vs 0 scratch_size small) (host-buffer vs 1 len (omega arith))
    ∙ split_nul-encoded vs h
