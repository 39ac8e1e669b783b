-- ===== src/Relay/Enrichers/Store.antt =====
-- What was put into the cache is found.
use purple_wolf.Prelude.Maps
use purple_wolf.Prelude.{
  ℕ, ◌≤◌, ◌<◌, false, leb, ◌==◌, List, some, Str, ◌≡◌, refl, Bool-cases, inl, inr, arith,
}
use purple_wolf.Relay.Enrichers.Cache.{
  Cache, CacheEntry, touch, got, get, evict_expired, make_room, put_new, put_entry, put,
}

get-put_entry :
    (c : Cache) (k : Str) (e : CacheEntry) → Maps.get (put_entry c k e).entries k ≡ some e
unfolding put_entry put_new touch
get-put_entry c k e = elim (Bool-cases (Maps.contains_key c.entries k)) [
  | inl there ↦ rw there (Maps.get-insert_self c.entries k e)
  | inr new ↦ rw new (Maps.get-insert_self (make_room c.capacity c.entries c.lru).0 k e)
]

got-fresh :
    (c : Cache) (k : Str) (now : ℕ) (e : CacheEntry)
    → now < e.expires_at
    → (got c k now (some e)).0 ≡ some e.labels
unfolding got
got-fresh c k now e early = let t : leb e.expires_at now ≡ false = ground arith in rw t refl

-- Labels that are put into a cache with some capacity, in whatever state it is, are found under their key
-- until they expire.
get-put :
    (c : Cache) (k : Str) (labels : List (Str × Str)) (expires_at now later : ℕ)
    → 1 ≤ c.capacity
    → later < expires_at
    → (get (put c k labels expires_at now) k later).0 ≡ some labels
unfolding put get
get-put c k labels expires_at now later some_room early =
    let t : c.capacity == 0 ≡ false = ground arith in
    let e : CacheEntry = record { labels = labels; expires_at = expires_at } in
    rw (t, get-put_entry (evict_expired c now) k e)
      (got-fresh (put_entry (evict_expired c now) k e) k later e early)
