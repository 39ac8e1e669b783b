-- ===== src/Reputation/Lru/Refine.antt =====
-- `check` on the slab does what the list of buckets promises.
use mathlib.Core.Logic.{ite, if_pos, if_neg}
use purple_wolf.Prelude.{
  ℕ, suc, ◌-◌, Bool, List, ◌∷◌, ◌++◌, take, length, length-append, get_elem?, get_elem?-lt,
  get_elem?-set_self, set, length-set, Option, none, some, ◌≡◌, Option-cases, refl, sym, ap, subst,
  ◌∙◌, inl, inr, arith,
}
use purple_wolf.Reputation.Float.{Float}
use purple_wolf.Reputation.Lru.Acquire.{Repr, acquire_slot-Acquired}
use purple_wolf.Reputation.Lru.Links.{Linked, touch-Linked, push_front-Linked}
use purple_wolf.Reputation.Lru.Segment.{Entry, node, Cells, first, Seg-frame}
use purple_wolf.Reputation.Lru.Spec.{
  entries, lookup_ip, lookup_ip-none, remove_ip, spec_check, slot_of, slot_of-Hit,
  slot_of-append_none, slot_of-remove, IpsDistinct-remove,
}
use purple_wolf.Reputation.Lru.{
  nil, Node, LruTokenBuckets, update_node, index_insert, consume, refill, check_known, check_new,
  check,
}

module _ {K T : Type 0} where
  -- New contents for the first bucket.
  Linked-front :
      (s : LruTokenBuckets K T) (x : ℕ) (e e' : Entry K T) (cs : Cells K T)
      → Linked s ((x, e) ∷ cs)
      → Linked (record s { slab = set s.slab x (node e' nil (first cs nil)) }) ((x, e') ∷ cs)
  Linked-front s x e e' cs l =
      let (at, seg) = l.chain in
      record {
        chain = (
          get_elem?-set_self s.slab x _ (get_elem?-lt s.slab x at),
          Seg-frame s.slab x cs nil x _ at l.distinct.0 seg,
        );
        head = l.head;
        tail = l.tail;
        distinct = l.distinct;
        no_nil = l.no_nil;
      }

  update_node-at :
      (slab : List (Node K T)) (i : ℕ) (f : Node K T → Node K T) {w : Node K T}
      → get_elem? slab i ≡ some w
      → update_node slab i f ≡ some (set slab i (f w))
  unfolding update_node
  update_node-at slab i f h = rw h

  length-mid :
      (xs : Cells K T) (c : ℕ × Entry K T) (ys : Cells K T)
      → suc (length (xs ++ ys)) ≡ length (xs ++ c ∷ ys)
  length-mid xs c ys = omega (arith, length-append xs ys, length-append xs (c ∷ ys))

module _ {K T : Type 0} (dec : Discrete K) where
  -- Moving the bucket of an address to the front changes no index.
  slot_of-move :
      (k : K) (pre : Cells K T) (x : ℕ) (e e' : Entry K T) (post : Cells K T)
      → slot_of dec e.ip pre ≡ none
      → e'.ip ≡ e.ip
      → slot_of dec k (pre ++ (x, e) ∷ post) ≡ slot_of dec k ((x, e') ∷ pre ++ post)
  unfolding slot_of
  slot_of-move k pre x e e' post absent same = elim (dec k e.ip) [
    | yes p ↦
        slot_of-append_none dec k pre _ (subst (λ z. slot_of dec z pre ≡ none) (sym p) absent)
        ∙ if_pos (dec k e.ip) p _ _
        ∙ sym (if_pos (dec k e'.ip) (p ∙ sym same) _ _)
    | no p ↦
        slot_of-remove dec k pre x e post p ∙ sym (if_neg (dec k e'.ip) (λ q. p (q ∙ same)) _ _)
  ]

  index_insert-slot_of :
      (m : K → Option ℕ) (k : K) (x : ℕ) (e : Entry K T) (cs : Cells K T)
      → m k ≡ slot_of dec k cs
      → index_insert dec e.ip x m k ≡ slot_of dec k ((x, e) ∷ cs)
  unfolding index_insert slot_of
  index_insert-slot_of m k x e cs h = ap (λ z. ite (dec k e.ip) (some x) z) h

  module _ (f : Float T) (now : ℕ) where
    -- The outcome of a request: the answer, and a state that stands for the new buckets.
    pub record Served (s : LruTokenBuckets K T) (run : Option (LruTokenBuckets K T × Bool))
        (buckets : List (Entry K T) × Bool) : Type 0 where
      pub after : LruTokenBuckets K T
      pub cells : Cells K T
      pub runs : run ≡ some (after, buckets.1)
      pub repr : Repr dec after cells
      pub stands_for : entries cells ≡ buckets.0
      pub cap : after.cap ≡ s.cap
      pub quota : after.quota_per_sec ≡ s.quota_per_sec

    check_known-Served :
        (s : LruTokenBuckets K T) (pre : Cells K T) (x : ℕ) (e : Entry K T) (post : Cells K T)
        → Repr dec s (pre ++ (x, e) ∷ post)
        → slot_of dec e.ip pre ≡ none
        → let r = consume f (refill f s.quota_per_sec now e.tokens e.last_refill) in
          Served s
            (check_known dec f s now x)
            (record { ip = e.ip; tokens = r.0; last_refill = now } ∷ entries (pre ++ post), r.1)
    unfolding check_known
    check_known-Served s pre x e post h absent =
        let (t, run, l, same) = touch-Linked s pre x e post h.linked in
        let (at, _) = l.chain in
        let r = consume f (refill f s.quota_per_sec now e.tokens e.last_refill) in
        let e' : Entry K T = record { ip = e.ip; tokens = r.0; last_refill = now } in
        let (ips, gone) = IpsDistinct-remove dec pre x e post h.ips in
        record {
          after = record t { slab = set t.slab x (node e' nil (first (pre ++ post) nil)) };
          cells = (x, e') ∷ pre ++ post;
          runs = rw (run, at, update_node-at t.slab x _ at);
          repr = record {
            linked = Linked-front t x e e' (pre ++ post) l;
            size =
                length-mid pre (x, e) post ∙ h.size ∙ sym same.size ∙ sym (length-set t.slab x _);
            bounded = omega (
              arith,
              length-set t.slab x (node e' nil (first (pre ++ post) nil)),
              same.size,
              same.cap,
              h.bounded,
            );
            room = rw same.cap h.room;
            positive = rw same.cap h.positive;
            index = λ k.
                ap (λ m. m k) same.index ∙ h.index k ∙ slot_of-move k pre x e e' post absent refl;
            ips = (gone, ips);
          };
          stands_for = refl;
          cap = same.cap;
          quota = same.quota;
        }

    check_new-Served :
        (s : LruTokenBuckets K T) (ip : K) (cs : Cells K T)
        → Repr dec s cs
        → slot_of dec ip cs ≡ none
        → let r = consume f (f.of_u32 s.quota_per_sec) in
          Served s (check_new dec f s now ip) (
            record { ip = ip; tokens = r.0; last_refill = now } ∷ take (s.cap - 1) (entries cs),
            r.1,
          )
    unfolding check_new
    check_new-Served s ip cs h absent =
        let (t, x, run, a) = acquire_slot-Acquired dec f s cs h in
        let (w, at) = a.here in
        let full : Entry K T = record {
          ip = ip;
          tokens = f.of_u32 s.quota_per_sec;
          last_refill = now;
        } in
        let t₁ : LruTokenBuckets K T = record t {
          slab = set t.slab x (node full w.prev w.next);
          index = index_insert dec ip x t.index;
        } in
        let r = consume f (f.of_u32 s.quota_per_sec) in
        let e' : Entry K T = record { ip = ip; tokens = r.0; last_refill = now } in
        let linked₁ : Linked t₁ a.rest = record {
          chain = Seg-frame t.slab nil a.rest nil x _ at a.apart a.linked.chain;
          head = a.linked.head;
          tail = a.linked.tail;
          distinct = a.linked.distinct;
          no_nil = a.linked.no_nil;
        } in
        let at₁ =
          get_elem?-set_self t.slab x (node full w.prev w.next) (get_elem?-lt t.slab x at) in
        let (t₂, run₂, linked₂, same) =
          push_front-Linked t₁ x full w.prev w.next a.rest linked₁ a.real a.apart at₁ in
        let (at₂, _) = linked₂.chain in
        record {
          after = record t₂ { slab = set t₂.slab x (node e' nil (first a.rest nil)) };
          cells = (x, e') ∷ a.rest;
          runs = rw (run, update_node-at t.slab x _ at, run₂, at₂, update_node-at t₂.slab x _ at₂);
          repr = record {
            linked = Linked-front t₂ x full e' a.rest linked₂;
            size =
                a.size ∙ sym (length-set t.slab x _) ∙ sym same.size ∙ sym (length-set t₂.slab x _);
            bounded = omega (
              arith,
              length-set t₂.slab x (node e' nil (first a.rest nil)),
              length-set t.slab x (node full w.prev w.next),
              same.size,
              a.bounded,
              same.cap,
              a.cap,
            );
            room = rw (same.cap, a.cap) h.room;
            positive = rw (same.cap, a.cap) h.positive;
            index = λ k.
                ap (λ m. m k) same.index ∙ index_insert-slot_of t.index k x e' a.rest (a.index k);
            ips = (a.absent ip absent, a.ips);
          };
          stands_for = ap (◌∷◌ e') a.kept;
          cap = same.cap ∙ a.cap;
          quota = same.quota ∙ a.quota;
        }

    spec_check-hit :
        (quota limit : ℕ) (ip : K) (es : List (Entry K T)) {e : Entry K T}
        → lookup_ip dec ip es ≡ some e
        → let r = consume f (refill f quota now e.tokens e.last_refill) in
          spec_check dec f quota limit now ip es
          ≡ (record { ip = ip; tokens = r.0; last_refill = now } ∷ remove_ip dec ip es, r.1)
    unfolding spec_check
    spec_check-hit quota limit ip es h = rw (h, spec_check)

    spec_check-miss :
        (quota limit : ℕ) (ip : K) (es : List (Entry K T))
        → lookup_ip dec ip es ≡ none
        → let r = consume f (f.of_u32 quota) in
          spec_check dec f quota limit now ip es
          ≡ (record { ip = ip; tokens = r.0; last_refill = now } ∷ take (limit - 1) es, r.1)
    unfolding spec_check
    spec_check-miss quota limit ip es h = rw (h, spec_check)

    check-hit :
        (s : LruTokenBuckets K T) (ip : K) {x : ℕ}
        → s.index ip ≡ some x
        → check dec f s now ip ≡ check_known dec f s now x
    unfolding check
    check-hit s ip h = rw (h, check)

    check-miss :
        (s : LruTokenBuckets K T) (ip : K)
        → s.index ip ≡ none
        → check dec f s now ip ≡ check_new dec f s now ip
    unfolding check
    check-miss s ip h = rw (h, check)

    check_hit-Served :
        (s : LruTokenBuckets K T) (ip : K) (cs : Cells K T) (x : ℕ)
        → Repr dec s cs
        → slot_of dec ip cs ≡ some x
        → Served s
            (check_known dec f s now x)
            (spec_check dec f s.quota_per_sec s.cap now ip (entries cs))
    check_hit-Served s ip cs x h found =
        let hit = slot_of-Hit dec ip x cs found in
        let known =
          check_known-Served s hit.pre x hit.entry hit.post (subst (Repr dec s) hit.split h)
            (subst (λ k. slot_of dec k hit.pre ≡ none) (sym hit.ip) hit.absent) in
        rw (spec_check-hit s.quota_per_sec s.cap ip (entries cs) hit.found, hit.removed)
          (subst
            (λ k. Served s (check_known dec f s now x) (
              let r =
                consume f (refill f s.quota_per_sec now hit.entry.tokens hit.entry.last_refill) in
              (
                record { ip = k; tokens = r.0; last_refill = now } ∷ entries (hit.pre ++ hit.post),
                r.1,
              )))
            hit.ip known)

    -- `check` never panics on a state that stands for `cs`. It gives the answer that the list of
    -- buckets gives, and leaves a state that stands for the buckets after that request.
    pub check-Served :
        (s : LruTokenBuckets K T) (ip : K) (cs : Cells K T)
        → Repr dec s cs
        → Served s
            (check dec f s now ip)
            (spec_check dec f s.quota_per_sec s.cap now ip (entries cs))
    check-Served s ip cs h = elim (Option-cases (s.index ip)) [
      | inr (x, found) ↦
          rw (check-hit s ip found) (check_hit-Served s ip cs x h (sym (h.index ip) ∙ found))
      | inl missing ↦
          let absent = sym (h.index ip) ∙ missing in
          rw
            (
              check-miss s ip missing,
              spec_check-miss s.quota_per_sec s.cap ip (entries cs)
                  (lookup_ip-none dec ip cs absent),
            )
            (check_new-Served s ip cs h absent)
    ]
