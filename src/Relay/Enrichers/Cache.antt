-- ===== src/Relay/Enrichers/Cache.antt =====
-- The cache of the HTTP enricher, crates/purple-wolf-relay/src/enrichers/http.rs. The hash map is an
-- association list, whose order nothing reads but the order of evictions of expired entries, which does
-- not matter; the queue of keys holds the longest unused one first.
use purple_wolf.Prelude.Maps
use purple_wolf.Prelude.{
  ℕ, Bool, leb, ◌==◌, if◌then◌else◌, List, [], ◌∷◌, ◌++◌, map, keep, length, Option, none, some,
  Str, str_eq,
}

pub record CacheEntry : Type 0 where
  pub labels : List (Str × Str)
  pub expires_at : ℕ

pub record Cache : Type 0 where
  pub entries : List (Str × CacheEntry)
  pub lru : List Str
  pub capacity : ℕ

unfoldable pub new : ℕ → Cache
new capacity = record { entries = []; lru = []; capacity = capacity }

-- Removes the first occurrence.
unfoldable pub remove_lru_key : List Str → Str → List Str
remove_lru_key [] value = []
remove_lru_key (key ∷ lru) value =
    let rest = remove_lru_key lru value in if str_eq key value then lru else key ∷ rest

unfoldable pub touch : Cache → Str → Cache
unfolding remove_lru_key
touch c value = record c { lru = remove_lru_key c.lru value ++ value ∷ [] }

unfoldable pub remove_key : Cache → Str → Cache
unfolding Maps.remove remove_lru_key
remove_key c value = record c {
  entries = Maps.remove c.entries value;
  lru = remove_lru_key c.lru value;
}

unfoldable pub got : Cache → Str → ℕ → Option CacheEntry → Option (List (Str × Str)) × Cache
unfolding touch remove_key
got c value now none = (none, c)
got c value now (some entry) =
    if leb entry.expires_at now
    then (none, remove_key c value)
    else (some entry.labels, touch c value)

unfoldable pub get : Cache → Str → ℕ → Option (List (Str × Str)) × Cache
unfolding got Maps.get
get c value now = got c value now (Maps.get c.entries value)

unfoldable pub is_expired : ℕ → Str × CacheEntry → Bool
is_expired now (key, entry) = leb entry.expires_at now

unfoldable pub remove_keys : Cache → List Str → Cache
unfolding remove_key
remove_keys c [] = c
remove_keys c (key ∷ keys) = remove_keys (remove_key c key) keys

unfoldable pub evict_expired : Cache → ℕ → Cache
unfolding remove_keys is_expired keep
evict_expired c now = remove_keys c (map (λ e. e.0) (keep (is_expired now) c.entries))

-- The loop of `put` that makes room: what it leaves of the entries and of the queue.
unfoldable pub make_room :
    ℕ → List (Str × CacheEntry) → List Str → List (Str × CacheEntry) × List Str
unfolding Maps.remove
make_room capacity entries [] = (entries, [])
make_room capacity entries (oldest ∷ lru) =
    let rest = make_room capacity (Maps.remove entries oldest) lru in
    if leb capacity (length entries) then rest else (entries, oldest ∷ lru)

unfoldable pub put_new : Cache → Str → CacheEntry → Cache
unfolding make_room Maps.insert
put_new c value entry =
    let (entries, lru) = make_room c.capacity c.entries c.lru in
    record c { entries = Maps.insert entries value entry; lru = lru ++ value ∷ [] }

unfoldable pub put_entry : Cache → Str → CacheEntry → Cache
unfolding put_new touch Maps.insert Maps.contains_key
put_entry c value entry =
    if Maps.contains_key c.entries value
    then touch (record c { entries = Maps.insert c.entries value entry }) value
    else put_new c value entry

-- `now` is the clock reading for the eviction.
unfoldable pub put : Cache → Str → List (Str × Str) → ℕ → ℕ → Cache
unfolding put_entry evict_expired
put c value labels expires_at now =
    if c.capacity == 0
    then c
    else put_entry (evict_expired c now) value (record { labels = labels; expires_at = expires_at })
