-- ===== src/Relay/Enrichers/Bounded.antt =====
-- The cache stays within its capacity, and its queue in step with its entries.
use purple_wolf.Prelude.Maps
use purple_wolf.Prelude.{
  ℕ, ◌≤◌, ◌<◌, leb, ◌==◌, List, [], ◌∷◌, ◌++◌, map, keep, length, length-map, length-append, Option,
  none, some, Str, str_eq_refl, ◌≡◌, refl, sym, ap, ◌∙◌, subst, Bool-cases, inl, inr, arith,
}
use purple_wolf.Relay.Enrichers.Cache.{
  Cache, CacheEntry, new, remove_lru_key, touch, remove_key, got, get, is_expired, remove_keys,
  evict_expired, make_room, put_new, put_entry, put,
}
use purple_wolf.Relay.Enrichers.InStep.{
  count, keys, InStep, keys-remove, InStep-remove, InStep-push, InStep-touch, contains_key-count,
  missing-count, keys-insert_new, keys-insert_there,
}

-- The entries and the queue have the same keys, each once, and no more than the capacity.
pub record Bounded (c : Cache) : Type 0 where
  pub step : InStep (keys c.entries) c.lru
  pub within : length c.lru ≤ c.capacity

length-remove-le : (ks : List Str) (k : Str) → length (remove_lru_key ks k) ≤ length ks
unfolding remove_lru_key
length-remove-le [] k = omega arith
length-remove-le (x ∷ ks) k = ground (arith, length-remove-le ks k)

count-remove-le : (ks : List Str) (k j : Str) → count j (remove_lru_key ks k) ≤ count j ks
unfolding remove_lru_key count
count-remove-le [] k j = omega arith
count-remove-le (x ∷ ks) k j = ground (arith, count-remove-le ks k j)

new-Bounded : (capacity : ℕ) → Bounded (new capacity)
unfolding new count
new-Bounded capacity = record {
  step = record { same = λ j. refl; once = λ j. omega arith; equal = refl };
  within = omega arith;
}

remove_key-Bounded : (c : Cache) (k : Str) → Bounded c → Bounded (remove_key c k)
unfolding remove_key
remove_key-Bounded c k b = record {
  step =
      subst (λ ks. InStep ks (remove_lru_key c.lru k)) (sym (keys-remove c.entries k))
        (InStep-remove (keys c.entries) c.lru k b.step);
  within = omega (arith, length-remove-le c.lru k, b.within);
}

remove_keys-Bounded :
    (c : Cache) (ks : List Str)
    → Bounded c
    → Bounded (remove_keys c ks) × ((remove_keys c ks).capacity ≡ c.capacity)
unfolding remove_keys remove_key
remove_keys-Bounded c [] b = (b, refl)
remove_keys-Bounded c (k ∷ ks) b =
    remove_keys-Bounded (remove_key c k) ks (remove_key-Bounded c k b)

touch-Bounded :
    (c : Cache) (k : Str) → Bounded c → 1 ≤ count k (keys c.entries) → Bounded (touch c k)
unfolding touch
touch-Bounded c k b there =
    let (step, same) =
      InStep-touch (keys c.entries) c.lru k b.step (omega (arith, b.step.same k)) in
    record { step = step; within = omega (arith, same, b.within) }

got-Bounded :
    (c : Cache) (k : Str) (now : ℕ) (o : Option CacheEntry)
    → Bounded c
    → Maps.get c.entries k ≡ o
    → Bounded (got c k now o).1 × ((got c k now o).1.capacity ≡ c.capacity)
unfolding got touch remove_key
got-Bounded c k now none b h = (b, refl)
got-Bounded c k now (some entry) b h = elim (Bool-cases (leb entry.expires_at now)) [
  | inl expired ↦ rw expired (remove_key-Bounded c k b, refl)
  | inr fresh ↦
      let there = contains_key-count c.entries k (Maps.contains_key-get c.entries k h) in
      rw fresh (touch-Bounded c k b there, refl)
]

get-Bounded :
    (c : Cache) (k : Str) (now : ℕ)
    → Bounded c
    → Bounded (get c k now).1 × ((get c k now).1.capacity ≡ c.capacity)
unfolding get
get-Bounded c k now b = got-Bounded c k now (Maps.get c.entries k) b refl

remove-head : (k : Str) (lru : List Str) → remove_lru_key (k ∷ lru) k ≡ lru
unfolding remove_lru_key
remove-head k lru = rw (str_eq_refl k) refl

without-oldest :
    (entries : List (Str × CacheEntry)) (oldest : Str) (lru : List Str)
    → InStep (keys entries) (oldest ∷ lru)
    → InStep (keys (Maps.remove entries oldest)) lru
without-oldest entries oldest lru s = rw (keys-remove entries oldest) (
    subst (InStep (remove_lru_key (keys entries) oldest)) (remove-head oldest lru)
      (InStep-remove (keys entries) (oldest ∷ lru) oldest s))

-- Room for one key, and no key comes in.
make_room-InStep :
    (capacity : ℕ) (entries : List (Str × CacheEntry)) (lru : List Str)
    → 1 ≤ capacity
    → InStep (keys entries) lru
    → InStep (keys (make_room capacity entries lru).0) (make_room capacity entries lru).1
      × (length (make_room capacity entries lru).1 < capacity)
      × ((j : Str) → count j (make_room capacity entries lru).1 ≤ count j lru)
unfolding make_room count
make_room-InStep capacity entries [] some_room s = (s, omega arith, λ j. omega arith)
make_room-InStep capacity entries (oldest ∷ lru) some_room s =
    elim (Bool-cases (leb capacity (length entries))) [
      | inl full ↦
          let s' = without-oldest entries oldest lru s in
          let (step, room, fewer) =
            make_room-InStep capacity (Maps.remove entries oldest) lru some_room s' in
          rw full (step, room, λ j. omega (arith, fewer j))
      | inr not_full ↦
          rw not_full
            (s, ground (arith, not_full, s.equal, length-map (λ e. e.0) entries), λ j. omega arith)
    ]

put_new-Bounded :
    (c : Cache) (k : Str) (e : CacheEntry)
    → Bounded c
    → 1 ≤ c.capacity
    → count k (keys c.entries) ≡ 0
    → Bounded (put_new c k e)
unfolding put_new
put_new-Bounded c k e b some_room new =
    let r = make_room c.capacity c.entries c.lru in
    let (step, room, fewer) = make_room-InStep c.capacity c.entries c.lru some_room b.step in
    let gone : count k r.1 ≡ 0 = omega (arith, fewer k, b.step.same k, new) in
    let absent : count k (keys r.0) ≡ 0 = omega (arith, step.same k, gone) in
    record {
      step =
          subst (λ ks. InStep ks (r.1 ++ k ∷ [])) (sym (keys-insert_new r.0 k e absent))
            (InStep-push (keys r.0) r.1 k step gone);
      within = omega (arith, length-append r.1 (k ∷ []), room);
    }

insert-Bounded :
    (c : Cache) (k : Str) (e : CacheEntry)
    → Bounded c
    → 1 ≤ count k (keys c.entries)
    → Bounded (touch (record c { entries = Maps.insert c.entries k e }) k)
insert-Bounded c k e b there =
    let same = keys-insert_there c.entries k e there in
    touch-Bounded (record c { entries = Maps.insert c.entries k e }) k
      (record { step = subst (λ ks. InStep ks c.lru) (sym same) b.step; within = b.within })
      (omega (arith, ap (count k) same, there))

put_entry-Bounded :
    (c : Cache) (k : Str) (e : CacheEntry)
    → Bounded c
    → 1 ≤ c.capacity
    → Bounded (put_entry c k e) × ((put_entry c k e).capacity ≡ c.capacity)
unfolding put_entry put_new touch
put_entry-Bounded c k e b some_room = elim (Bool-cases (Maps.contains_key c.entries k)) [
  | inl there ↦ rw there (insert-Bounded c k e b (contains_key-count c.entries k there), refl)
  | inr new ↦ rw new (put_new-Bounded c k e b some_room (missing-count c.entries k new), refl)
]

put-Bounded :
    (c : Cache) (k : Str) (labels : List (Str × Str)) (expires_at now : ℕ)
    → Bounded c
    → Bounded (put c k labels expires_at now)
      × ((put c k labels expires_at now).capacity ≡ c.capacity)
unfolding put evict_expired
put-Bounded c k labels expires_at now b = elim (Bool-cases (c.capacity == 0)) [
  | inl none_kept ↦ rw none_kept (b, refl)
  | inr some_room ↦
      let (b', same) = remove_keys-Bounded c (map (λ e. e.0) (keep (is_expired now) c.entries)) b in
      let (b'', same') =
        put_entry-Bounded (evict_expired c now) k
          (record { labels = labels; expires_at = expires_at }) b' (ground (arith, same)) in
      rw some_room (b'', same' ∙ same)
]

-- A call on the cache.
pub data Call : Type 0 where
  look : Str → ℕ → Call
  store : Str → List (Str × Str) → ℕ → ℕ → Call

unfoldable pub run : Cache → List Call → Cache
unfolding get put
run c [] = c
run c (look k now ∷ calls) = run (get c k now).1 calls
run c (store k labels expires_at now ∷ calls) = run (put c k labels expires_at now) calls

run-Bounded :
    (c : Cache) (calls : List Call)
    → Bounded c
    → Bounded (run c calls) × ((run c calls).capacity ≡ c.capacity)
unfolding run
run-Bounded c [] b = (b, refl)
run-Bounded c (look k now ∷ calls) b =
    let (b', same) = get-Bounded c k now b in
    let (b'', same') = run-Bounded (get c k now).1 calls b' in (b'', same' ∙ same)
run-Bounded c (store k labels expires_at now ∷ calls) b =
    let (b', same) = put-Bounded c k labels expires_at now b in
    let (b'', same') = run-Bounded (put c k labels expires_at now) calls b' in (b'', same' ∙ same)

-- After any calls on a new cache, at any times, it holds at most as many entries as its capacity, and its
-- queue of keys has the key of each entry exactly once and no other.
pub run-new-Bounded :
    (capacity : ℕ) (calls : List Call)
    → Bounded (run (new capacity) calls) × (length (run (new capacity) calls).entries ≤ capacity)
unfolding new
run-new-Bounded capacity calls =
    let (b, same) = run-Bounded (new capacity) calls (new-Bounded capacity) in
    (
      b,
      omega (
        arith,
        same,
        b.within,
        b.step.equal,
        length-map (λ e. e.0) (run (new capacity) calls).entries,
      ),
    )
