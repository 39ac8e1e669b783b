-- ===== src/Reputation/Lru.antt =====
-- `LruTokenBuckets` of crates/purple-wolf-core/src/detectors/reputation.rs. An index into the slab
-- that is out of range panics: `none`. The hash map is a function.
pub mod Segment
pub mod Links
pub mod Spec
pub mod Acquire
pub mod Refine
pub mod Runs
use mathlib.Core.Logic.{ite}
use purple_wolf.Prelude.{
  ◌>>=◌, ℕ, zero, suc, ◌-◌, ◌^◌, max, Bool, true, false, ltb, ◌==◌, if◌then◌else◌, List, [], ◌∷◌,
  ◌++◌, length, get_elem?, set, Option, none, some,
}
use purple_wolf.Reputation.Float.{Float}

-- `NIL`: `usize::MAX`.
unfoldable pub nil : ℕ
nil = 2 ^ 64 - 1

pub record Node (K T : Type 0) : Type 0 where
  pub ip : Option K
  pub tokens : T
  pub last_refill : ℕ
  pub prev : ℕ
  pub next : ℕ

-- The clock is an argument of `check`.
pub record LruTokenBuckets (K T : Type 0) : Type 0 where
  pub index : K → Option ℕ
  pub slab : List (Node K T)
  pub head : ℕ
  pub tail : ℕ
  pub cap : ℕ
  pub quota_per_sec : ℕ

unfoldable pub new : {K T : Type 0} → ℕ → ℕ → LruTokenBuckets K T
new quota_per_sec cap = record {
  index = λ _. none;
  slab = [];
  head = nil;
  tail = nil;
  cap = max cap 1;
  quota_per_sec = max quota_per_sec 1;
}

module _ {K T : Type 0} where
  -- A write to a field of the node at `i`.
  unfoldable pub update_node :
      List (Node K T) → ℕ → (Node K T → Node K T) → Option (List (Node K T))
  update_node slab i f = do n ← get_elem? slab i; some (set slab i (f n))

  unfoldable pub set_next : LruTokenBuckets K T → ℕ → ℕ → Option (LruTokenBuckets K T)
  unfolding update_node
  set_next s i j = do
    slab ← update_node s.slab i (λ n. record n { next = j })
    some (record s { slab = slab })

  unfoldable pub set_prev : LruTokenBuckets K T → ℕ → ℕ → Option (LruTokenBuckets K T)
  unfolding update_node
  set_prev s i j = do
    slab ← update_node s.slab i (λ n. record n { prev = j })
    some (record s { slab = slab })

  -- The two halves of `unlink`, which relink what stands before the slot and what stands behind.
  unfoldable pub link_next : LruTokenBuckets K T → ℕ → ℕ → Option (LruTokenBuckets K T)
  unfolding set_next
  link_next s prev next =
      if prev == nil then some (record s { head = next }) else set_next s prev next

  unfoldable pub link_prev : LruTokenBuckets K T → ℕ → ℕ → Option (LruTokenBuckets K T)
  unfolding set_prev
  link_prev s prev next =
      if next == nil then some (record s { tail = prev }) else set_prev s next prev

  unfoldable pub unlink : LruTokenBuckets K T → ℕ → Option (LruTokenBuckets K T)
  unlink s slot = do
    n ← get_elem? s.slab slot
    s' ← link_next s n.prev n.next
    link_prev s' n.prev n.next

  unfoldable pub push_front : LruTokenBuckets K T → ℕ → Option (LruTokenBuckets K T)
  push_front s slot = do
    let old_head = s.head
    slab ← update_node s.slab slot (λ n. record n { prev = nil; next = old_head })
    let s₁ = record s { slab = slab }
    s₂ ← if old_head == nil then some s₁ else set_prev s₁ old_head slot
    some (record s₂ { head = slot; tail = if s.tail == nil then slot else s.tail })

  unfoldable pub touch : LruTokenBuckets K T → ℕ → Option (LruTokenBuckets K T)
  touch s slot = if s.head == slot then some s else do s' ← unlink s slot; push_front s' slot

module _ {K : Type 0} (dec : Discrete K) where
  unfoldable pub index_insert : K → ℕ → (K → Option ℕ) → K → Option ℕ
  index_insert k v m j = ite (dec j k) (some v) (m j)

  unfoldable pub index_remove : K → (K → Option ℕ) → K → Option ℕ
  index_remove k m j = ite (dec j k) none (m j)

module _ {T : Type 0} (f : Float T) where
  -- `consume`: the tokens that are left, and whether the request is allowed.
  unfoldable pub consume : T → T × Bool
  consume tokens = if f.ge tokens f.one then (f.sub tokens f.one, true) else (tokens, false)

  -- `(n.tokens + elapsed * quota).min(quota)`; subtraction of durations saturates.
  unfoldable pub refill : ℕ → ℕ → T → ℕ → T
  refill quota_per_sec now tokens last_refill =
      let quota = f.of_u32 quota_per_sec in
      f.min (f.add tokens (f.mul (f.as_secs (now - last_refill)) quota)) quota

module _ {K T : Type 0} (dec : Discrete K) where
  -- `if let Some(ip) = self.slab[victim].ip.take() { self.index.remove(&ip); }`
  unfoldable pub forget_ip : LruTokenBuckets K T → ℕ → Option K → Option (LruTokenBuckets K T)
  unfolding index_remove update_node
  forget_ip s victim none = some s
  forget_ip s victim (some ip) = do
    slab ← update_node s.slab victim (λ n. record n { ip = none })
    some (record s { slab = slab; index = index_remove dec ip s.index })

  -- `evict_tail` behind `let victim = self.tail`.
  unfoldable pub evict_slot : LruTokenBuckets K T → ℕ → Option (LruTokenBuckets K T × ℕ)
  evict_slot s victim = do
    s₁ ← unlink s victim
    n ← get_elem? s₁.slab victim
    s₂ ← forget_ip s₁ victim n.ip
    some (s₂, victim)

  unfoldable pub evict_tail : LruTokenBuckets K T → Option (LruTokenBuckets K T × ℕ)
  evict_tail s = evict_slot s s.tail

  module _ (f : Float T) where
    abbrev pub blank : Node K T
    blank = record { ip = none; tokens = f.zero; last_refill = 0; prev = nil; next = nil }

    unfoldable pub acquire_slot : LruTokenBuckets K T → Option (LruTokenBuckets K T × ℕ)
    acquire_slot s =
        if ltb (length s.slab) s.cap
        then some (record s { slab = s.slab ++ blank ∷ [] }, length s.slab)
        else evict_tail s

    -- The known-IP path behind the lookup.
    unfoldable pub check_known : LruTokenBuckets K T → ℕ → ℕ → Option (LruTokenBuckets K T × Bool)
    check_known s now slot = do
      s₁ ← touch s slot
      n ← get_elem? s₁.slab slot
      let r = consume f (refill f s.quota_per_sec now n.tokens n.last_refill)
      slab ← update_node s₁.slab slot (λ m. record m { tokens = r.0; last_refill = now })
      some (record s₁ { slab = slab }, r.1)

    -- The new-IP path.
    unfoldable pub check_new : LruTokenBuckets K T → ℕ → K → Option (LruTokenBuckets K T × Bool)
    check_new s now ip = do
      (s₁, slot) ← acquire_slot s
      slab ←
          update_node s₁.slab slot
            (λ m. record m { ip = some ip; tokens = f.of_u32 s.quota_per_sec; last_refill = now })
      s₂ ← push_front (record s₁ { slab = slab; index = index_insert dec ip slot s₁.index }) slot
      n ← get_elem? s₂.slab slot
      let r = consume f n.tokens
      slab' ← update_node s₂.slab slot (λ m. record m { tokens = r.0 })
      some (record s₂ { slab = slab' }, r.1)

    unfoldable pub check : LruTokenBuckets K T → ℕ → K → Option (LruTokenBuckets K T × Bool)
    check s now ip = elim (s.index ip) [
      | some slot ↦ check_known s now slot
      | none ↦ check_new s now ip
    ]
