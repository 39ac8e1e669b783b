-- ===== src/Reputation/Lru/Acquire.antt =====
-- The invariant of the token buckets, and `acquire_slot`: it never panics, and hands out a slot that
-- is not linked, at the price of the least recently seen bucket when the slab is full.
use mathlib.Core.List.{append-nil}
use mathlib.Core.Logic.{if_pos, if_neg}
use purple_wolf.Prelude.{
  ℕ, suc, ◌-◌, ◌≤◌, ◌<◌, false, List, [], ◌∷◌, ◌++◌, map-append, take, length, length-append,
  length-map, get_elem?, get_elem?-lt, get_elem?-set_self, get_elem?-append_lt, get_elem?-append_at,
  set, length-set, take_of_length-le, take-append, snoc-of, ltb, ltb→lt, Bool-cases, Option, none,
  some, ◌≡◌, ◌≢◌, refl, sym, ap, subst, ◌∙◌, inl, inr, arith,
}
use purple_wolf.Reputation.Float.{Float}
use purple_wolf.Reputation.Lru.Links.{Linked, unlink-Unlinked}
use purple_wolf.Reputation.Lru.Segment.{
  Entry, node, Cells, has, Seg, Seg-frame, last-append, not-has-append, not-has-cons,
}
use purple_wolf.Reputation.Lru.Spec.{
  entries, slot_of, slot_of-remove, IpsDistinct, IpsDistinct-remove, ip-ne-later,
}
use purple_wolf.Reputation.Lru.{
  nil, Node, LruTokenBuckets, update_node, forget_ip, evict_slot, evict_tail, index_remove, blank,
  acquire_slot,
}

module _ {K T : Type 0} where
  Seg-grow :
      (slab : List (Node K T)) (b : Node K T) (p : ℕ) (cs : Cells K T) (n : ℕ)
      → Seg slab p cs n
      → Seg (slab ++ b ∷ []) p cs n
  Seg-grow slab b p [] n s = tt
  Seg-grow slab b p ((x, e) ∷ cs) n (at, s) =
      (get_elem?-append_lt slab (b ∷ []) x (get_elem?-lt slab x at) ∙ at, Seg-grow slab b x cs n s)

  -- A linked slot is in range.
  Seg-not-has :
      (slab : List (Node K T)) (p : ℕ) (cs : Cells K T) (n a : ℕ)
      → length slab ≤ a
      → Seg slab p cs n
      → has a cs ≡ false
  Seg-not-has slab p [] n a h s = refl
  Seg-not-has slab p ((x, e) ∷ cs) n a h (at, s) =
      ground (arith, get_elem?-lt slab x at, Seg-not-has slab x cs n a h s)

  length-entries : (cs : Cells K T) → length (entries cs) ≡ length cs
  length-entries cs = length-map (λ c. c.1) cs

module _ {K T : Type 0} (dec : Discrete K) where
  -- `cs` is what the state stands for: its buckets in recency order, each linked at its slot and
  -- indexed by its address, within the cap. Every slot of the slab is linked.
  pub record Repr (s : LruTokenBuckets K T) (cs : Cells K T) : Type 0 where
    pub linked : Linked s cs
    pub size : length cs ≡ length s.slab
    pub bounded : length s.slab ≤ s.cap
    pub room : s.cap ≤ nil
    pub positive : 0 < s.cap
    pub index : (k : K) → s.index k ≡ slot_of dec k cs
    pub ips : IpsDistinct dec cs

  -- The slot `x` is free in `t`, and the cells `rest` of `cs` are still linked.
  pub record Acquired (s t : LruTokenBuckets K T) (cs : Cells K T) (x : ℕ) : Type 0 where
    pub rest : Cells K T
    pub kept : entries rest ≡ take (s.cap - 1) (entries cs)
    pub linked : Linked t rest
    pub apart : has x rest ≡ false
    pub real : x ≢ nil
    pub here : (w : Node K T) × (get_elem? t.slab x ≡ some w)
    pub size : suc (length rest) ≡ length t.slab
    pub bounded : length t.slab ≤ s.cap
    pub cap : t.cap ≡ s.cap
    pub quota : t.quota_per_sec ≡ s.quota_per_sec
    pub index : (k : K) → t.index k ≡ slot_of dec k rest
    pub ips : IpsDistinct dec rest
    pub absent : (k : K) → slot_of dec k cs ≡ none → slot_of dec k rest ≡ none

  grow-Acquired :
      (s : LruTokenBuckets K T) (b : Node K T) (cs : Cells K T)
      → Repr s cs
      → length s.slab < s.cap
      → Acquired s (record s { slab = s.slab ++ b ∷ [] }) cs (length s.slab)
  grow-Acquired s b cs r h =
      let l = r.linked in
      record {
        rest = cs;
        kept =
            sym (
              take_of_length-le (s.cap - 1) (entries cs)
                (omega (arith, length-entries cs, r.size)));
        linked = record {
          chain = Seg-grow s.slab b nil cs nil l.chain;
          head = l.head;
          tail = l.tail;
          distinct = l.distinct;
          no_nil = l.no_nil;
        };
        apart = Seg-not-has s.slab nil cs nil (length s.slab) (omega arith) l.chain;
        real = omega (arith, r.room);
        here = (b, get_elem?-append_at s.slab b []);
        size = omega (arith, r.size, length-append s.slab (b ∷ []));
        bounded = omega (arith, length-append s.slab (b ∷ []));
        cap = refl;
        quota = refl;
        index = r.index;
        ips = r.ips;
        absent = λ k e. e;
      }

  -- Forgetting the address of a slot that is out of the list leaves the list alone.
  forget_ip-at :
      (s : LruTokenBuckets K T) (x : ℕ) (e : Entry K T) (p n : ℕ)
      → get_elem? s.slab x ≡ some (node e p n)
      → forget_ip dec s x (some e.ip)
        ≡ some (record s {
          slab = set s.slab x (record (node e p n) { ip = none });
          index = index_remove dec e.ip s.index;
        })
  unfolding forget_ip update_node
  forget_ip-at s x e p n h = rw h

  index_remove-slot_of :
      (m : K → Option ℕ) (k : K) (pre : Cells K T) (x : ℕ) (e : Entry K T)
      → m k ≡ slot_of dec k (pre ++ (x, e) ∷ [])
      → slot_of dec e.ip (pre ++ []) ≡ none
      → index_remove dec e.ip m k ≡ slot_of dec k (pre ++ [])
  unfolding index_remove
  index_remove-slot_of m k pre x e h gone = elim (dec k e.ip) [
    | yes p ↦
        rw (if_pos (dec k e.ip) p)
          (sym (subst (λ z. slot_of dec z (pre ++ []) ≡ none) (sym p) gone))
    | no p ↦ rw (if_neg (dec k e.ip) p) (h ∙ slot_of-remove dec k pre x e [] p)
  ]

  evict_tail-Acquired :
      (s : LruTokenBuckets K T) (pre : Cells K T) (x : ℕ) (e : Entry K T)
      → Repr s (pre ++ (x, e) ∷ [])
      → length s.slab ≡ s.cap
      → (t : LruTokenBuckets K T) × (evict_tail dec s ≡ some (t, x))
        × Acquired s t (pre ++ (x, e) ∷ []) x
  unfolding evict_tail evict_slot
  evict_tail-Acquired s pre x e r full =
      let (u, run, a) = unlink-Unlinked s pre x e [] r.linked in
      let (p, n, at) = a.here in
      let victim : s.tail ≡ x = r.linked.tail ∙ last-append nil pre ((x, e) ∷ []) in
      let (ips, gone) = IpsDistinct-remove dec pre x e [] r.ips in
      let real = not-has-cons nil x e [] (not-has-append nil pre _ r.linked.no_nil).1 in
      let l = a.linked in
      let len = length-append pre ((x, e) ∷ []) in
      let len' = length-append pre [] in
      (
        record u {
          slab = set u.slab x (record (node e p n) { ip = none });
          index = index_remove dec e.ip u.index;
        },
        ap (evict_slot dec s) victim ∙ rw (run, at, forget_ip-at u x e p n at),
        record {
          rest = pre ++ [];
          kept =
              ap entries (append-nil pre)
              ∙ sym (
                  ap (take (s.cap - 1)) (map-append (λ c. c.1) pre ((x, e) ∷ []))
                  ∙ take-append (s.cap - 1) (entries pre) (e ∷ [])
                      (omega (arith, length-entries pre, r.size)));
          linked = record {
            chain = Seg-frame u.slab nil (pre ++ []) nil x _ at a.apart l.chain;
            head = l.head;
            tail = l.tail;
            distinct = l.distinct;
            no_nil = l.no_nil;
          };
          apart = a.apart;
          real = λ q. real.0 (sym q);
          here = (_, get_elem?-set_self u.slab x _ (get_elem?-lt u.slab x at));
          size =
              omega (
                arith,
                r.size,
                a.same.size,
                length-set u.slab x (record (node e p n) { ip = none }),
              );
          bounded =
              omega (
                arith,
                r.size,
                a.same.size,
                length-set u.slab x (record (node e p n) { ip = none }),
              );
          cap = a.same.cap;
          quota = a.same.quota;
          index = λ k.
              index_remove-slot_of u.index k pre x e (ap (λ m. m k) a.same.index ∙ r.index k) gone;
          ips = ips;
          absent =
              λ k h. sym (slot_of-remove dec k pre x e [] (ip-ne-later dec k pre x e [] h)) ∙ h;
        },
      )

  -- Every slab at its cap ends in a cell to evict.
  full-Acquired :
      (s : LruTokenBuckets K T) (cs : Cells K T)
      → Repr s cs
      → length s.slab ≡ s.cap
      → (t : LruTokenBuckets K T) × (x : ℕ) × (evict_tail dec s ≡ some (t, x)) × Acquired s t cs x
  full-Acquired s [] r full = absurd (omega (arith, r.size, r.positive))
  full-Acquired s (c ∷ cs) r full =
      let (pre, z, e) = snoc-of c cs in
      subst
        (λ l.
          (t : LruTokenBuckets K T) × (x : ℕ) × (evict_tail dec s ≡ some (t, x)) × Acquired s t l x)
        (sym e)
        (let (t, run, a) = evict_tail-Acquired s pre z.0 z.1 (subst (Repr s) e r) full in
          (t, z.0, run, a))

  pub acquire_slot-Acquired :
      (f : Float T) (s : LruTokenBuckets K T) (cs : Cells K T)
      → Repr s cs
      → (t : LruTokenBuckets K T) × (x : ℕ) × (acquire_slot dec f s ≡ some (t, x))
        × Acquired s t cs x
  unfolding acquire_slot
  acquire_slot-Acquired f s cs r = elim (Bool-cases (ltb (length s.slab) s.cap)) [
    | inl lt ↦ (
      record s { slab = s.slab ++ blank dec f ∷ [] },
      length s.slab,
      rw lt,
      grow-Acquired s (blank dec f) cs r (ltb→lt _ _ lt),
    )
    | inr ge ↦ rw ge (full-Acquired s cs r (let b = r.bounded in ground arith))
  ]
