-- ===== src/Relay/Enrichers.antt =====
-- The enrichers of crates/purple-wolf-relay/src/enrichers. A label map has text keys.
pub mod Cache
pub mod Keep
pub mod InStep
pub mod Bounded
pub mod Store
pub mod Url
mod Tests
use purple_wolf.Prelude.Maps
use purple_wolf.Prelude.{
  ℕ, ◌+◌, ◌*◌, Bool, ◌==◌, if◌then◌else◌, List, [], ◌∷◌, Option, none, some, ◌>>=◌, Str,
}
use purple_wolf.Relay.Config.{EnricherConfig, lookup, http}
use purple_wolf.Relay.Enrichers.Cache

-- `entry(k).or_insert_with(v)` for each pair.
unfoldable pub merge_in_place : List (Str × Str) → List (Str × Str) → List (Str × Str)
unfolding Maps.or_insert
merge_in_place labels [] = labels
merge_in_place labels ((k, v) ∷ extra) = merge_in_place (Maps.or_insert labels k v) extra

pub record LookupEnricher : Type 0 where
  pub on_label : Str
  pub table : List (Str × List (Str × Str))

-- Times are in milliseconds.
pub record HttpEnricher : Type 0 where
  pub on_label : Str
  pub url_template : Str
  pub timeout : ℕ
  pub cache_ttl : ℕ
  pub cache : Cache.Cache

pub data Enricher : Type 0 where
  of_lookup : LookupEnricher → Enricher
  of_http : HttpEnricher → Enricher

unfoldable pub build : EnricherConfig → Enricher
unfolding Cache.new
build (lookup on_label table) = Enricher.of_lookup (record { on_label = on_label; table = table })
build (http on_label url timeout_ms cache_ttl_s cache_capacity) = Enricher.of_http (record {
  on_label = on_label;
  url_template = url;
  timeout = timeout_ms;
  cache_ttl = cache_ttl_s * 1000;
  cache = Cache.new cache_capacity;
})

-- What a call takes from outside: the clock at each of its readings, and the labels in the answer to the
-- request, unless it fails, times out, is no success or does not parse.
pub record World : Type 0 where
  pub get_now : ℕ
  pub evict_now : ℕ
  pub put_now : ℕ
  pub fetch : Str → Option (List (Str × Str))

abbrev pub merged : List (Str × Str) → Option (List (Str × Str)) → List (Str × Str)
unfolding merge_in_place
merged labels none = labels
merged labels (some extra) = merge_in_place labels extra

unfoldable pub enrich_lookup : LookupEnricher → List (Str × Str) → List (Str × Str)
unfolding Maps.get merged
enrich_lookup e labels = merged labels (Maps.get labels e.on_label >>= λ key. Maps.get e.table key)

unfoldable pub cache_get : HttpEnricher → World → Str → Option (List (Str × Str)) × HttpEnricher
unfolding Cache.get
cache_get e w value =
    if e.cache_ttl == 0
    then (none, e)
    else let (found, cache) = Cache.get e.cache value w.get_now in
      (found, record e { cache = cache })

unfoldable pub cache_put : HttpEnricher → World → Str → List (Str × Str) → HttpEnricher
unfolding Cache.put
cache_put e w value labels =
    if e.cache_ttl == 0
    then e
    else record e { cache = Cache.put e.cache value labels (w.put_now + e.cache_ttl) w.evict_now }

abbrev pub fetched :
    HttpEnricher
    → World
    → Str
    → List (Str × Str)
    → Option (List (Str × Str))
    → HttpEnricher × List (Str × Str)
unfolding cache_put merge_in_place
fetched e w value labels none = (e, labels)
fetched e w value labels (some extra) = (cache_put e w value extra, merge_in_place labels extra)

abbrev pub answered :
    World
    → Str
    → List (Str × Str)
    → Option (List (Str × Str))
    → HttpEnricher
    → HttpEnricher × List (Str × Str)
unfolding fetched merge_in_place
answered w value labels (some cached) e = (e, merge_in_place labels cached)
answered w value labels none e = fetched e w value labels (w.fetch value)

abbrev pub enrich_value :
    HttpEnricher → World → List (Str × Str) → Option Str → HttpEnricher × List (Str × Str)
unfolding cache_get answered
enrich_value e w labels none = (e, labels)
enrich_value e w labels (some value) =
    let (found, e') = cache_get e w value in answered w value labels found e'

unfoldable pub enrich_http :
    HttpEnricher → World → List (Str × Str) → HttpEnricher × List (Str × Str)
unfolding Maps.get enrich_value
enrich_http e w labels = enrich_value e w labels (Maps.get labels e.on_label)

unfoldable pub enrich : Enricher → World → List (Str × Str) → Enricher × List (Str × Str)
unfolding enrich_lookup enrich_http
enrich (of_lookup e) w labels = (Enricher.of_lookup e, enrich_lookup e labels)
enrich (of_http e) w labels =
    let (e', labels') = enrich_http e w labels in (Enricher.of_http e', labels')

-- The loop of `process_one` over the enrichers. `none` is a call that the outer timeout ends: it is dropped
-- while it waits, which is before it merges.
unfoldable pub enrich_all :
    List (Enricher × Option World) → List (Str × Str) → List Enricher × List (Str × Str)
unfolding enrich
enrich_all [] labels = ([], labels)
enrich_all ((e, none) ∷ es) labels = let (es', labels') = enrich_all es labels in (e ∷ es', labels')
enrich_all ((e, some w) ∷ es) labels =
    let (e', labels') = enrich e w labels in
    let (es', labels'') = enrich_all es labels' in (e' ∷ es', labels'')
