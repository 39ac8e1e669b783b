-- ===== src/Reputation/Lru/Spec.antt =====
-- What the token buckets promise: a list of at most `cap` buckets, the most recently seen first. A
-- known address moves to the front with its bucket refilled; a new one gets a full bucket, and the
-- least recently seen bucket makes room for it. No slab, no links, no hash map.
use mathlib.Core.Logic.{ite, if_pos, if_neg}
use purple_wolf.Prelude.{
  ℕ, ◌-◌, Bool, List, [], ◌∷◌, ◌++◌, map, take, Option, none, some, ◌≡◌, ◌≢◌, refl, subst, sym, ap,
  ◌∙◌, arith,
}
use purple_wolf.Reputation.Float.{Float}
use purple_wolf.Reputation.Lru.Segment.{Entry, Cells}
use purple_wolf.Reputation.Lru.{consume, refill}

module _ {K T : Type 0} (dec : Discrete K) where
  unfoldable pub lookup_ip : K → List (Entry K T) → Option (Entry K T)
  lookup_ip k [] = none
  lookup_ip k (e ∷ es) = ite (dec k e.ip) (some e) (lookup_ip k es)

  unfoldable pub remove_ip : K → List (Entry K T) → List (Entry K T)
  remove_ip k [] = []
  remove_ip k (e ∷ es) = ite (dec k e.ip) es (e ∷ remove_ip k es)

  module _ (f : Float T) where
    -- One request from `ip` at time `now`.
    unfoldable pub spec_check : ℕ → ℕ → ℕ → K → List (Entry K T) → List (Entry K T) × Bool
    spec_check quota limit now ip es = elim (lookup_ip ip es) [
      | some e ↦
          let r = consume f (refill f quota now e.tokens e.last_refill) in
          (record { ip = ip; tokens = r.0; last_refill = now } ∷ remove_ip ip es, r.1)
      | none ↦
          let r = consume f (f.of_u32 quota) in
          (record { ip = ip; tokens = r.0; last_refill = now } ∷ take (limit - 1) es, r.1)
    ]

abbrev pub entries : {K T : Type 0} → Cells K T → List (Entry K T)
entries = map (λ c. c.1)

module _ {K T : Type 0} (dec : Discrete K) where
  -- The index that belongs to a recency list.
  unfoldable pub slot_of : K → Cells K T → Option ℕ
  slot_of k [] = none
  slot_of k ((x, e) ∷ cs) = ite (dec k e.ip) (some x) (slot_of k cs)

  abbrev pub IpsDistinct : Cells K T → Type 0
  IpsDistinct [] = Unit
  IpsDistinct ((x, e) ∷ cs) = (slot_of e.ip cs ≡ none) × IpsDistinct cs

  pub lookup_ip-none :
      (k : K) (cs : Cells K T) → slot_of k cs ≡ none → lookup_ip dec k (entries cs) ≡ none
  unfolding slot_of lookup_ip
  lookup_ip-none k [] h = refl
  lookup_ip-none k ((x, e) ∷ cs) h = ground (arith, lookup_ip-none k cs)

  -- A hit, at the first cell of the address.
  pub record Hit (k : K) (x : ℕ) (cs : Cells K T) : Type 0 where
    pub pre : Cells K T
    pub entry : Entry K T
    pub post : Cells K T
    pub split : cs ≡ pre ++ (x, entry) ∷ post
    pub ip : entry.ip ≡ k
    pub absent : slot_of k pre ≡ none
    pub found : lookup_ip dec k (entries cs) ≡ some entry
    pub removed : remove_ip dec k (entries cs) ≡ entries (pre ++ post)

  pub slot_of-Hit : (k : K) (x : ℕ) (cs : Cells K T) → slot_of k cs ≡ some x → Hit k x cs
  unfolding slot_of lookup_ip remove_ip
  slot_of-Hit k x [] h = cc
  slot_of-Hit k x ((y, e) ∷ cs) h = elim (dec k e.ip) [
    | yes p ↦ record {
      pre = [];
      entry = e;
      post = cs;
      split = ground arith;
      ip = sym p;
      absent = refl;
      found = rw (if_pos (dec k e.ip) p);
      removed = rw (if_pos (dec k e.ip) p);
    }
    | no p ↦
        let hit = slot_of-Hit k x cs (rw (if_neg (dec k e.ip) p) at h) in
        record {
          pre = (y, e) ∷ hit.pre;
          entry = hit.entry;
          post = hit.post;
          split = ap (◌∷◌ (y, e)) hit.split;
          ip = hit.ip;
          absent = rw (if_neg (dec k e.ip) p) hit.absent;
          found = rw (if_neg (dec k e.ip) p) hit.found;
          removed = rw (if_neg (dec k e.ip) p, hit.removed);
        }
  ]

  pub slot_of-append_none :
      (k : K) (xs ys : Cells K T) → slot_of k xs ≡ none → slot_of k (xs ++ ys) ≡ slot_of k ys
  unfolding slot_of
  slot_of-append_none k [] ys h = refl
  slot_of-append_none k ((x, e) ∷ xs) ys h = ground (arith, slot_of-append_none k xs ys)

  -- Cells of other addresses may be passed over.
  pub slot_of-remove :
      (k : K) (xs : Cells K T) (x : ℕ) (e : Entry K T) (ys : Cells K T)
      → k ≢ e.ip
      → slot_of k (xs ++ (x, e) ∷ ys) ≡ slot_of k (xs ++ ys)
  unfolding slot_of
  slot_of-remove k [] x e ys h = if_neg (dec k e.ip) h _ _
  slot_of-remove k ((y, e') ∷ xs) x e ys h = rw (slot_of-remove k xs x e ys h)

  slot_of-mid :
      (xs : Cells K T) (x : ℕ) (e : Entry K T) (ys : Cells K T)
      → slot_of e.ip (xs ++ (x, e) ∷ ys) ≢ none
  unfolding slot_of
  slot_of-mid [] x e ys h = ground (arith, if_pos (dec e.ip e.ip) refl (some x) (slot_of e.ip ys))
  slot_of-mid ((y, e') ∷ xs) x e ys h = ground (arith, slot_of-mid xs x e ys)

  pub ip-ne-later :
      (k : K) (xs : Cells K T) (x : ℕ) (e : Entry K T) (ys : Cells K T)
      → slot_of k (xs ++ (x, e) ∷ ys) ≡ none
      → k ≢ e.ip
  ip-ne-later k xs x e ys h p =
      slot_of-mid xs x e ys (subst (λ z. slot_of z (xs ++ (x, e) ∷ ys) ≡ none) p h)

  -- After a cell is taken out its address is no longer there.
  pub IpsDistinct-remove :
      (xs : Cells K T) (x : ℕ) (e : Entry K T) (ys : Cells K T)
      → IpsDistinct (xs ++ (x, e) ∷ ys)
      → IpsDistinct (xs ++ ys) × (slot_of e.ip (xs ++ ys) ≡ none)
  unfolding slot_of
  IpsDistinct-remove [] x e ys (out, d) = (d, out)
  IpsDistinct-remove ((y, e') ∷ xs) x e ys (out, d) =
      let (rest, absent) = IpsDistinct-remove xs x e ys d in
      let other = ip-ne-later e'.ip xs x e ys out in
      (
        (sym (slot_of-remove e'.ip xs x e ys other) ∙ out, rest),
        rw (if_neg (dec e.ip e'.ip) (λ p. other (sym p))) absent,
      )
