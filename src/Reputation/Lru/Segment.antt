-- ===== src/Reputation/Lru/Segment.antt =====
-- Stretches of the recency list in the slab, and what writes to their ends do.
use purple_wolf.Prelude.{
  ℕ, Bool, true, false, ◌||◌, ◌==◌, List, [], ◌∷◌, ◌++◌, get_elem?, get_elem?-set, get_elem?-set_ne,
  set, some, ◌≡◌, ◌≢◌, ◌∙◌, refl, arith,
}
use purple_wolf.Reputation.Lru.{Node}

-- What a linked node stands for.
pub record Entry (K T : Type 0) : Type 0 where
  pub ip : K
  pub tokens : T
  pub last_refill : ℕ

module _ {K T : Type 0} where
  abbrev pub node : Entry K T → ℕ → ℕ → Node K T
  node e p n = record {
    ip = some e.ip;
    tokens = e.tokens;
    last_refill = e.last_refill;
    prev = p;
    next = n;
  }

-- Slots with their entries, the most recently seen first.
abbrev pub Cells : Type 0 → Type 0 → Type 0
Cells K T = List (ℕ × Entry K T)

module _ {K T : Type 0} where
  abbrev pub first : Cells K T → ℕ → ℕ
  first [] d = d
  first ((x, _) ∷ cs) d = x

  abbrev pub last : ℕ → Cells K T → ℕ
  last d [] = d
  last d ((x, _) ∷ cs) = last x cs

  abbrev pub has : ℕ → Cells K T → Bool
  has a [] = false
  has a ((x, _) ∷ cs) = x == a || has a cs

  abbrev pub Distinct : Cells K T → Type 0
  Distinct [] = Unit
  Distinct ((x, _) ∷ cs) = (has x cs ≡ false) × Distinct cs

  -- The links lead through `cs`, from `p` before them to `n` behind them.
  abbrev pub Seg : List (Node K T) → ℕ → Cells K T → ℕ → Type 0
  Seg slab p [] n = Unit
  Seg slab p ((x, e) ∷ cs) n = (get_elem? slab x ≡ some (node e p (first cs n))) × Seg slab x cs n

  pub first-append : (xs ys : Cells K T) (d : ℕ) → first (xs ++ ys) d ≡ first xs (first ys d)
  first-append [] ys d = refl
  first-append (x ∷ xs) ys d = refl

  pub last-append : (d : ℕ) (xs ys : Cells K T) → last d (xs ++ ys) ≡ last (last d xs) ys
  last-append d [] ys = refl
  last-append d ((x, _) ∷ xs) ys = last-append x xs ys

  pub has-append : (a : ℕ) (xs ys : Cells K T) → has a (xs ++ ys) ≡ (has a xs || has a ys)
  has-append a [] ys = refl
  has-append a ((x, _) ∷ xs) ys = ground (arith, has-append a xs ys)

  pub has-last : (c : ℕ × Entry K T) (cs : Cells K T) → has (last c.0 cs) (c ∷ cs) ≡ true
  has-last (x, e) [] = ground arith
  has-last (x, e) (c ∷ cs) = ground (arith, has-last c cs)

  pub has-ne : (a x : ℕ) (cs : Cells K T) → has x cs ≡ false → has a cs ≡ true → a ≢ x
  has-ne a x cs out is e = cc

  pub not-has-cons :
      (a x : ℕ) (e : Entry K T) (cs : Cells K T)
      → has a ((x, e) ∷ cs) ≡ false
      → (a ≢ x) × (has a cs ≡ false)
  not-has-cons a x e cs h = (λ p. absurd (ground arith), ground arith)

  pub not-has-append :
      (a : ℕ) (xs ys : Cells K T)
      → has a (xs ++ ys) ≡ false
      → (has a xs ≡ false) × (has a ys ≡ false)
  not-has-append a xs ys h = ground (arith, has-append a xs ys)

  pub has-join :
      (a : ℕ) (xs ys : Cells K T) → has a xs ≡ false → has a ys ≡ false → has a (xs ++ ys) ≡ false
  has-join a xs ys h k = ground (arith, has-append a xs ys)

  -- No slot of `xs` is in `ys`.
  abbrev pub Apart : Cells K T → Cells K T → Type 0
  Apart xs ys = (a : ℕ) → has a xs ≡ true → has a ys ≡ false

  pub Distinct-split :
      (xs ys : Cells K T) → Distinct (xs ++ ys) → Distinct xs × Distinct ys × Apart xs ys
  Distinct-split [] ys d = (tt, d, λ a h. cc)
  Distinct-split ((x, e) ∷ xs) ys (out, d) =
      let (dx, dy, apart) = Distinct-split xs ys d in
      let both = has-append x xs ys in ((ground arith, dx), dy, λ a h. ground (arith, apart a))

  pub Distinct-join :
      (xs ys : Cells K T) → Distinct xs → Distinct ys → Apart xs ys → Distinct (xs ++ ys)
  Distinct-join [] ys dx dy apart = dy
  Distinct-join ((x, e) ∷ xs) ys (out, dx) dy apart = (
    ground (arith, has-append x xs ys, apart x),
    Distinct-join xs ys dx dy (λ a h. apart a (ground arith)),
  )

  pub Seg-split :
      (slab : List (Node K T)) (p : ℕ) (xs ys : Cells K T) (n : ℕ)
      → Seg slab p (xs ++ ys) n
      → Seg slab p xs (first ys n) × Seg slab (last p xs) ys n
  Seg-split slab p [] ys n s = (tt, s)
  Seg-split slab p ((x, e) ∷ xs) ys n (at, s) =
      let (l, r) = Seg-split slab x xs ys n s in ((rw (← first-append xs ys n) at, l), r)

  -- The three parts at a slot in the middle.
  pub Seg-mid :
      (slab : List (Node K T)) (p : ℕ) (xs : Cells K T) (x : ℕ) (e : Entry K T) (ys : Cells K T)
      (n : ℕ)
      → Seg slab p (xs ++ (x, e) ∷ ys) n
      → Seg slab p xs x
        × (get_elem? slab x ≡ some (node e (last p xs) (first ys n)))
        × Seg slab x ys n
  Seg-mid slab p xs x e ys n s = let (l, r) = Seg-split slab p xs ((x, e) ∷ ys) n s in (l, r.0, r.1)

  pub Seg-join :
      (slab : List (Node K T)) (p : ℕ) (xs ys : Cells K T) (n : ℕ)
      → Seg slab p xs (first ys n)
      → Seg slab (last p xs) ys n
      → Seg slab p (xs ++ ys) n
  Seg-join slab p [] ys n l r = r
  Seg-join slab p ((x, e) ∷ xs) ys n (at, l) r =
      (rw (first-append xs ys n) at, Seg-join slab x xs ys n l r)

  -- A write elsewhere leaves the segment alone.
  pub Seg-frame :
      (slab : List (Node K T)) (p : ℕ) (cs : Cells K T) (n a : ℕ) (v : Node K T) {w : Node K T}
      → get_elem? slab a ≡ some w
      → has a cs ≡ false
      → Seg slab p cs n
      → Seg (set slab a v) p cs n
  Seg-frame slab p [] n a v h out s = tt
  Seg-frame slab p ((x, e) ∷ cs) n a v h out (at, s) =
      (ground (arith, get_elem?-set slab a x v h), Seg-frame slab x cs n a v h (ground arith) s)

  pub relink_first :
      (slab : List (Node K T)) (p q x : ℕ) (e : Entry K T) (cs : Cells K T) (n : ℕ)
      → Distinct ((x, e) ∷ cs)
      → Seg slab p ((x, e) ∷ cs) n
      → Seg (set slab x (node e q (first cs n))) q ((x, e) ∷ cs) n
  relink_first slab p q x e cs n d (at, s) = (
    ground (arith, get_elem?-set slab x x (node e q (first cs n)) at),
    Seg-frame slab x cs n x _ at d.0 s,
  )

  pub relink_last :
      (slab : List (Node K T)) (p : ℕ) (c : ℕ × Entry K T) (cs : Cells K T) (n m : ℕ)
      → Distinct (c ∷ cs)
      → Seg slab p (c ∷ cs) n
      → (w : Node K T) × (get_elem? slab (last c.0 cs) ≡ some w)
        × Seg (set slab (last c.0 cs) (record w { next = m })) p (c ∷ cs) m
  relink_last slab p (x, e) [] n m d (at, s) =
      (node e p n, at, (ground (arith, get_elem?-set slab x x (node e p m) at), tt))
  relink_last slab p (x, e) ((y, e') ∷ cs) n m d (at, s) =
      let (w, found, rest) = relink_last slab x (y, e') cs n m d.1 s in
      (
        w,
        found,
        (
          get_elem?-set_ne slab (last y cs) x _
                (has-ne _ x ((y, e') ∷ cs) d.0 (has-last (y, e') cs))
              ∙ at,
          rest,
        ),
      )
