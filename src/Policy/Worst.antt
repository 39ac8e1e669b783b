-- ===== src/Policy/Worst.antt =====
-- The index loop of `decide` and `swap_remove`: the first verdict of the highest severity is taken
-- out, and the rest of the pool is kept.
use mathlib.Core.List.{Perm, perm_middle}
use mathlib.Core.List.Perm
use mathlib.Core.Option.{some-injective}
use native.Mathlib.Nat.{add_comm}
use native.Mathlib.Numerals.{add-one}
use purple_wolf.Detectors.{Verdict, rank}
use purple_wolf.Policy.{worst_index, split_last, swap_remove}
use purple_wolf.Prelude.{
  ℕ, zero, suc, ◌+◌, ◌≤◌, ◌<◌, Bool-cases, ltb, List, [], ◌∷◌, ◌++◌, length, drop, get_elem?, some,
  ◌≡◌, refl, sym, ap, ◌∙◌, subst, inl, inr, arith, append-nil, ltb→lt,
}

drop_cons {ℓ} :
    {A : Type ℓ} (xs : List A) (i : ℕ) {v : A} {vs : List A}
    → drop i xs ≡ v ∷ vs
    → (get_elem? xs i ≡ some v) × (drop (suc i) xs ≡ vs)
drop_cons [] zero h = cc
drop_cons [] (suc i) h = cc
drop_cons (x ∷ xs) zero h = (cc, cc)
drop_cons (x ∷ xs) (suc i) h = drop_cons xs i h

-- `k` is the first index below `i` at which a verdict of `pool` has the highest severity.
pub record IsWorst (pool : List Verdict) (k i : ℕ) (w : Verdict) : Type 0 where
  pub at : get_elem? pool k ≡ some w
  pub below : k < i
  pub highest :
      (j : ℕ) (u : Verdict) → j < i → get_elem? pool j ≡ some u → rank u.severity ≤ rank w.severity
  pub first :
      (j : ℕ) (u : Verdict) → j < k → get_elem? pool j ≡ some u → rank u.severity < rank w.severity

module _ (pool : List Verdict) where
  IsWorst-keep :
      {idx i : ℕ} {w v : Verdict}
      → IsWorst pool idx i w
      → get_elem? pool i ≡ some v
      → rank v.severity ≤ rank w.severity
      → IsWorst pool idx (suc i) w
  IsWorst-keep {idx} {i} {w} {v} h e le = record {
    at = h.at;
    below = omega arith;
    highest = λ j u lt at. ground (arith, h.highest j u);
    first = h.first;
  }

  IsWorst-replace :
      {idx i : ℕ} {w v : Verdict}
      → IsWorst pool idx i w
      → get_elem? pool i ≡ some v
      → rank w.severity < rank v.severity
      → IsWorst pool i (suc i) v
  IsWorst-replace {idx} {i} {w} {v} h e lt = record {
    at = e;
    below = omega arith;
    highest = λ j u below at. ground (arith, h.highest j u);
    first = λ j u below at. omega (arith, h.highest j u below at);
  }

  worst_index-IsWorst :
      (vs : List Verdict) (idx i : ℕ) (w : Verdict)
      → IsWorst pool idx i w
      → drop i pool ≡ vs
      → (k : ℕ) × (u : Verdict) × (worst_index pool idx i vs ≡ some k)
        × IsWorst pool k (i + length vs) u
  unfolding worst_index
  worst_index-IsWorst [] idx i w h e =
      (idx, w, refl, subst (λ n. IsWorst pool idx n w) (omega arith) h)
  worst_index-IsWorst (v ∷ vs) idx i w h e =
      let (at, rest) = drop_cons pool i e in
      rw h.at (elim (Bool-cases (ltb (rank w.severity) (rank v.severity))) [
        | inl worse ↦ rw worse (
            let (k, u, run, is) =
              worst_index-IsWorst vs i (suc i) v (IsWorst-replace h at (ltb→lt _ _ worse)) rest in
            (k, u, run, subst (λ n. IsWorst pool k n u) (omega arith) is))
        | inr same ↦ rw same (
            let (k, u, run, is) =
              worst_index-IsWorst vs idx (suc i) w (IsWorst-keep h at (ground arith)) rest in
            (k, u, run, subst (λ n. IsWorst pool k n u) (omega arith) is))
      ])

-- Nothing but the first verdict stands below index 1.
singleton_highest :
    (v : Verdict) (vs : List Verdict) (j : ℕ) (u : Verdict)
    → j < 1
    → get_elem? (v ∷ vs) j ≡ some u
    → rank u.severity ≤ rank v.severity
singleton_highest v vs zero u lt h = ground arith
singleton_highest v vs (suc j) u lt h = absurd (omega arith)

-- On a pool that is not empty the loop ends at its first worst verdict.
pub worst_index-first :
    (v : Verdict) (vs : List Verdict)
    → (k : ℕ) × (w : Verdict) × (worst_index (v ∷ vs) 0 1 vs ≡ some k)
      × IsWorst (v ∷ vs) k (length (v ∷ vs)) w
worst_index-first v vs =
    let (k, w, run, is) =
      worst_index-IsWorst (v ∷ vs) vs 0 1 v
        (record {
          at = refl;
          below = omega arith;
          highest = singleton_highest v vs;
          first = λ j u lt at. absurd (omega arith);
        })
        refl in
    (k, w, run, subst (λ n. IsWorst (v ∷ vs) k n w) (add_comm 1 (length vs) ∙ add-one _) is)

module _ {ℓ} {A : Type ℓ} where
  split_last-append :
      (x : A) (xs : List A) → (split_last x xs).0 ++ (split_last x xs).1 ∷ [] ≡ x ∷ xs
  unfolding split_last
  split_last-append x [] = refl
  split_last-append x (y ∷ ys) = ap (◌∷◌ x) (split_last-append y ys)

  split_last-perm :
      (x : A) (xs : List A) → Perm ((split_last x xs).1 ∷ (split_last x xs).0) (x ∷ xs)
  split_last-perm x xs =
      subst (λ l. Perm ((split_last x xs).1 ∷ (split_last x xs).0) l) (split_last-append x xs)
        (Perm.symm (
          subst
            (λ l. Perm ((split_last x xs).0 ++ (split_last x xs).1 ∷ []) ((split_last x xs).1 ∷ l))
            (append-nil _) (perm_middle (split_last x xs).0 [])))

  -- An index in range removes the element there; the rest is a permutation of the others.
  pub swap_remove-perm :
      (xs : List A) (k : ℕ) {a : A}
      → get_elem? xs k ≡ some a
      → (rest : List A) × (swap_remove xs k ≡ some (a, rest)) × Perm (a ∷ rest) xs
  unfolding swap_remove
  swap_remove-perm [] k h = cc
  swap_remove-perm (x ∷ []) zero h =
      ([], cc, Perm.cons' (sym (some-injective _ _ h)) (Perm.refl []))
  swap_remove-perm (x ∷ y ∷ ys) zero h = (
    (split_last y ys).1 ∷ (split_last y ys).0,
    cc,
    Perm.cons' (sym (some-injective _ _ h)) (split_last-perm y ys),
  )
  swap_remove-perm (x ∷ []) (suc k) h = cc
  swap_remove-perm (x ∷ y ∷ ys) (suc k) {a} h =
      let (rest, run, p) = swap_remove-perm (y ∷ ys) k h in
      (x ∷ rest, rw run, Perm.trans (Perm.swap x a rest) (Perm.cons x p))
