-- ===== src/Reputation/Lru/Links.antt =====
-- `unlink`, `push_front` and `touch` on a well-linked slab: none of them panics, and each moves its
-- slot in the recency list and leaves all else.
use mathlib.Core.List.{append-nil}
use purple_wolf.Prelude.{
  ℕ, true, false, ◌==◌, [], ◌∷◌, ◌++◌, length, length-set, get_elem?, get_elem?-set_ne,
  get_elem?-set_self, get_elem?-lt, set, some, ◌≡◌, ◌≢◌, ◌∙◌, sym, refl, subst, arith, ==-ne,
  ==_refl, ==_iff, Bool-cases, inl, inr,
}
use purple_wolf.Reputation.Lru.Segment.{
  Entry, node, Cells, first, last, has, Distinct, Seg, Apart, last-append, has-last, has-ne,
  not-has-cons, not-has-append, has-join, Distinct-split, Distinct-join, Seg-split, Seg-mid,
  Seg-join, Seg-frame, relink_first, relink_last,
}
use purple_wolf.Reputation.Lru.{
  nil, Node, LruTokenBuckets, update_node, set_next, set_prev, link_next, link_prev, unlink,
  push_front, touch,
}

-- What the list operations leave alone.
pub record Same {K T : Type 0} (s t : LruTokenBuckets K T) : Type 0 where
  pub index : t.index ≡ s.index
  pub size : length t.slab ≡ length s.slab
  pub cap : t.cap ≡ s.cap
  pub quota : t.quota_per_sec ≡ s.quota_per_sec

-- The head, the tail and the links of the slab are those of the recency list `cs`.
pub record Linked {K T : Type 0} (s : LruTokenBuckets K T) (cs : Cells K T) : Type 0 where
  pub chain : Seg s.slab nil cs nil
  pub head : s.head ≡ first cs nil
  pub tail : s.tail ≡ last nil cs
  pub distinct : Distinct cs
  pub no_nil : has nil cs ≡ false

module _ {K T : Type 0} where
  Same-trans : {s t u : LruTokenBuckets K T} → Same s t → Same t u → Same s u
  Same-trans a b = record {
    index = b.index ∙ a.index;
    size = b.size ∙ a.size;
    cap = b.cap ∙ a.cap;
    quota = b.quota ∙ a.quota;
  }

  Same-set :
      (s : LruTokenBuckets K T) (i : ℕ) (v : Node K T) (h t : ℕ)
      → Same s (record s { slab = set s.slab i v; head = h; tail = t })
  Same-set s i v h t = record {
    index = refl;
    size = length-set s.slab i v;
    cap = refl;
    quota = refl;
  }

  -- If `pre` is apart from a list, it does not hold the first slot there, nor the second.
  Apart-first :
      (pre : Cells K T) (x : ℕ) (e : Entry K T) (cs : Cells K T)
      → Apart pre ((x, e) ∷ cs)
      → has x pre ≡ false
  Apart-first pre x e cs apart = elim (Bool-cases (has x pre)) [
    | inl is ↦ absurd ((not-has-cons x x e cs (apart x is)).0 refl)
    | inr out ↦ out
  ]

  Apart-second :
      (pre : Cells K T) (x : ℕ) (e : Entry K T) (y : ℕ) (e' : Entry K T) (cs : Cells K T)
      → Apart pre ((x, e) ∷ (y, e') ∷ cs)
      → has y pre ≡ false
  Apart-second pre x e y e' cs apart =
      Apart-first pre y e' cs (λ a h. (not-has-cons a x e ((y, e') ∷ cs) (apart a h)).1)

  head-ne-nil : (y : ℕ) (e : Entry K T) (cs : Cells K T) → has nil ((y, e) ∷ cs) ≡ false → y ≢ nil
  head-ne-nil y e cs h q = (not-has-cons nil y e cs h).0 (sym q)

  last-ne-nil :
      (s : LruTokenBuckets K T) (c : ℕ × Entry K T) (cs : Cells K T)
      → Linked s (c ∷ cs)
      → s.tail ≢ nil
  last-ne-nil s c cs l = rw l.tail (has-ne (last c.0 cs) nil (c ∷ cs) l.no_nil (has-last c cs))

  set_next-at :
      (s : LruTokenBuckets K T) (i j : ℕ) {w : Node K T}
      → get_elem? s.slab i ≡ some w
      → set_next s i j ≡ some (record s { slab = set s.slab i (record w { next = j }) })
  unfolding set_next update_node
  set_next-at s i j h = rw h

  set_prev-at :
      (s : LruTokenBuckets K T) (i j : ℕ) {w : Node K T}
      → get_elem? s.slab i ≡ some w
      → set_prev s i j ≡ some (record s { slab = set s.slab i (record w { prev = j }) })
  unfolding set_prev update_node
  set_prev-at s i j h = rw h

  -- The half of `unlink` that relinks what stands before the slot `x`.
  record NextLinked (s t : LruTokenBuckets K T) (pre : Cells K T) (x : ℕ) (post : Cells K T)
      : Type 0 where
    before : Seg t.slab nil pre (first post nil)
    here : get_elem? t.slab x ≡ get_elem? s.slab x
    behind : Seg t.slab x post nil
    head : t.head ≡ first (pre ++ post) nil
    tail : t.tail ≡ s.tail
    same : Same s t

  link_next-NextLinked :
      (s : LruTokenBuckets K T) (pre : Cells K T) (x : ℕ) (e : Entry K T) (post : Cells K T)
      → Linked s (pre ++ (x, e) ∷ post)
      → (t : LruTokenBuckets K T) × (link_next s (last nil pre) (first post nil) ≡ some t)
        × NextLinked s t pre x post
  unfolding link_next set_next update_node
  link_next-NextLinked s [] x e post l = (
    record s { head = first post nil },
    ground arith,
    record {
      before = tt;
      here = refl;
      behind = l.chain.1;
      head = refl;
      tail = refl;
      same = record { index = refl; size = refl; cap = refl; quota = refl };
    },
  )
  link_next-NextLinked s (c ∷ cs) x e post l =
      let (before, rest) = Seg-split s.slab nil (c ∷ cs) ((x, e) ∷ post) nil l.chain in
      let (dpre, dpost, apart) = Distinct-split (c ∷ cs) ((x, e) ∷ post) l.distinct in
      let (w, found, seg) = relink_last s.slab nil c cs x (first post nil) dpre before in
      let a = last c.0 cs in
      let out = not-has-cons a x e post (apart a (has-last c cs)) in
      let real = has-ne a nil (c ∷ cs) (not-has-append nil (c ∷ cs) _ l.no_nil).0 (has-last c cs) in
      (
        record s { slab = set s.slab a (record w { next = first post nil }) },
        rw (==-ne a nil real, set_next-at s a (first post nil) found),
        record {
          before = seg;
          here = get_elem?-set_ne s.slab a x _ out.0;
          behind = Seg-frame s.slab x post nil a _ found out.1 rest.1;
          head = l.head;
          tail = refl;
          same = Same-set s a _ s.head s.tail;
        },
      )

  -- The other half, which relinks what stands behind the slot.
  record PrevLinked (s t : LruTokenBuckets K T) (pre : Cells K T) (x : ℕ) (post : Cells K T)
      : Type 0 where
    before : Seg t.slab nil pre (first post nil)
    here : get_elem? t.slab x ≡ get_elem? s.slab x
    behind : Seg t.slab (last nil pre) post nil
    head : t.head ≡ s.head
    tail : t.tail ≡ last nil (pre ++ post)
    same : Same s t

  link_prev-PrevLinked :
      (s : LruTokenBuckets K T) (pre : Cells K T) (x : ℕ) (e : Entry K T) (post : Cells K T)
      → Distinct (pre ++ (x, e) ∷ post)
      → has nil post ≡ false
      → Seg s.slab nil pre (first post nil)
      → Seg s.slab x post nil
      → s.tail ≡ last nil (pre ++ (x, e) ∷ post)
      → (t : LruTokenBuckets K T) × (link_prev s (last nil pre) (first post nil) ≡ some t)
        × PrevLinked s t pre x post
  unfolding link_prev
  link_prev-PrevLinked s pre x e [] d real before behind tail = (
    record s { tail = last nil pre },
    rw (==_refl nil),
    record {
      before = before;
      here = refl;
      behind = tt;
      head = refl;
      tail = rw (append-nil pre);
      same = record { index = refl; size = refl; cap = refl; quota = refl };
    },
  )
  link_prev-PrevLinked s pre x e ((y, e') ∷ cs) d real before behind tail =
      let (dpre, dpost, apart) = Distinct-split pre ((x, e) ∷ (y, e') ∷ cs) d in
      let p = last nil pre in
      let (y_ne_x, _) = not-has-cons x y e' cs dpost.0 in
      let out = Apart-second pre x e y e' cs apart in
      (
        record s { slab = set s.slab y (node e' p (first cs nil)) },
        rw (
          ==-ne y nil (λ q. (not-has-cons nil y e' cs real).0 (sym q)),
          set_prev-at s y p behind.0,
        ),
        record {
          before = Seg-frame s.slab nil pre y y _ behind.0 out before;
          here = get_elem?-set_ne s.slab y x _ (λ q. y_ne_x (sym q));
          behind = relink_first s.slab x p y e' cs nil dpost.1 behind;
          head = refl;
          tail = tail ∙ last-append nil pre _ ∙ sym (last-append nil pre ((y, e') ∷ cs));
          same = Same-set s y _ s.head s.tail;
        },
      )

  -- A slot taken out of the list: the others are linked without it, and its entry stays.
  pub record Unlinked (s t : LruTokenBuckets K T) (cs : Cells K T) (x : ℕ) (e : Entry K T)
      : Type 0 where
    pub linked : Linked t cs
    pub apart : has x cs ≡ false
    pub here : (p : ℕ) × (n : ℕ) × (get_elem? t.slab x ≡ some (node e p n))
    pub same : Same s t

  pub unlink-Unlinked :
      (s : LruTokenBuckets K T) (pre : Cells K T) (x : ℕ) (e : Entry K T) (post : Cells K T)
      → Linked s (pre ++ (x, e) ∷ post)
      → (t : LruTokenBuckets K T) × (unlink s x ≡ some t) × Unlinked s t (pre ++ post) x e
  unfolding unlink
  unlink-Unlinked s pre x e post l =
      let (_, at, _) = Seg-mid s.slab nil pre x e post nil l.chain in
      let (u, run₁, a) = link_next-NextLinked s pre x e post l in
      let (dpre, dpost, apart) = Distinct-split pre ((x, e) ∷ post) l.distinct in
      let real = not-has-append nil pre ((x, e) ∷ post) l.no_nil in
      let real' = not-has-cons nil x e post real.1 in
      let (t, run₂, b) =
        link_prev-PrevLinked u pre x e post l.distinct real'.1 a.before a.behind
          (a.tail ∙ l.tail) in
      (
        t,
        rw (at, run₁, run₂),
        record {
          linked = record {
            chain = Seg-join t.slab nil pre post nil b.before b.behind;
            head = b.head ∙ a.head;
            tail = b.tail;
            distinct =
                Distinct-join pre post dpre dpost.1
                  (λ y h. (not-has-cons y x e post (apart y h)).1);
            no_nil = has-join nil pre post real.0 real'.1;
          };
          apart = has-join x pre post (Apart-first pre x e post apart) dpost.0;
          here = (last nil pre, first post nil, b.here ∙ a.here ∙ at);
          same = Same-trans a.same b.same;
        },
      )

  -- A slot that is not in the list becomes its first.
  pub push_front-Linked :
      (s : LruTokenBuckets K T) (x : ℕ) (e : Entry K T) (p n : ℕ) (cs : Cells K T)
      → Linked s cs
      → x ≢ nil
      → has x cs ≡ false
      → get_elem? s.slab x ≡ some (node e p n)
      → (t : LruTokenBuckets K T) × (push_front s x ≡ some t) × Linked t ((x, e) ∷ cs) × Same s t
  unfolding push_front update_node
  push_front-Linked s x e p n [] l real out at =
      let slab = set s.slab x (node e nil s.head) in
      let test_head : s.head == nil ≡ true = (==_iff _ _).1 l.head in
      let test_tail : s.tail == nil ≡ true = (==_iff _ _).1 l.tail in
      (
        record s { slab = slab; head = x; tail = x },
        rw (at, test_head, test_tail),
        record {
          chain = (
            subst (λ z. get_elem? slab x ≡ some (node e nil z)) l.head
                (get_elem?-set_self s.slab x _ (get_elem?-lt s.slab x at)),
            tt,
          );
          head = refl;
          tail = refl;
          distinct = (refl, tt);
          no_nil = rw (==-ne x nil real);
        },
        Same-set s x _ x x,
      )
  push_front-Linked s x e p n ((y, e') ∷ cs) l real out at =
      let s₁ = record s { slab = set s.slab x (node e nil s.head) } in
      let (x_ne_y, _) = not-has-cons x y e' cs out in
      let chain₁ = Seg-frame s.slab nil ((y, e') ∷ cs) nil x (node e nil y) at out l.chain in
      let test_head : s.head == nil ≡ false =
        ==-ne s.head nil (λ q. head-ne-nil y e' cs l.no_nil (sym l.head ∙ q)) in
      let test_tail = ==-ne s.tail nil (last-ne-nil s (y, e') cs l) in
      let at_head =
        subst (λ z. get_elem? (set s.slab x (node e nil z)) z ≡ some (node e' nil (first cs nil)))
          (sym l.head) chain₁.0 in
      let slab₁ = set s.slab x (node e nil y) in
      let linked : Seg (set slab₁ y (node e' x (first cs nil))) nil ((x, e) ∷ (y, e') ∷ cs) nil = (
        get_elem?-set_ne slab₁ y x _ (λ q. x_ne_y (sym q))
            ∙ get_elem?-set_self s.slab x _ (get_elem?-lt s.slab x at),
        relink_first slab₁ nil x y e' cs nil l.distinct chain₁,
      ) in
      let s₂ = record s₁ { slab = set s₁.slab s.head (node e' x (first cs nil)) } in
      (
        record s₂ { head = x; tail = s.tail },
        rw (at, test_head, set_prev-at s₁ s.head x at_head, test_tail),
        record {
          chain =
              subst
                (λ z.
                  Seg (set (set s.slab x (node e nil z)) z (node e' x (first cs nil))) nil
                    ((x, e) ∷ (y, e') ∷ cs) nil)
                (sym l.head) linked;
          head = refl;
          tail = l.tail;
          distinct = (out, l.distinct);
          no_nil = rw (==-ne x nil real) l.no_nil;
        },
        Same-trans (Same-set s x _ s.head s.tail) (Same-set s₁ s.head _ x s.tail),
      )

  -- A linked slot becomes the first; the others keep their order.
  pub touch-Linked :
      (s : LruTokenBuckets K T) (pre : Cells K T) (x : ℕ) (e : Entry K T) (post : Cells K T)
      → Linked s (pre ++ (x, e) ∷ post)
      → (t : LruTokenBuckets K T) × (touch s x ≡ some t)
        × Linked t ((x, e) ∷ pre ++ post)
        × Same s t
  unfolding touch
  touch-Linked s [] x e post l = (
    s,
    rw ((==_iff s.head x).1 l.head),
    l,
    record { index = refl; size = refl; cap = refl; quota = refl },
  )
  touch-Linked s ((c, f) ∷ cs) x e post l =
      let (dpre, dpost, apart) = Distinct-split ((c, f) ∷ cs) ((x, e) ∷ post) l.distinct in
      let out = Apart-first ((c, f) ∷ cs) x e post apart in
      let real = head-ne-nil x e post (not-has-append nil ((c, f) ∷ cs) _ l.no_nil).1 in
      let (u, run₁, a) = unlink-Unlinked s ((c, f) ∷ cs) x e post l in
      let (p, n, at) = a.here in
      let (t, run₂, linked, same) = push_front-Linked u x e p n _ a.linked real a.apart at in
      (
        t,
        rw (==-ne s.head x (λ q. (not-has-cons x c f cs out).0 (sym q ∙ l.head)), run₁, run₂),
        linked,
        Same-trans a.same same,
      )
