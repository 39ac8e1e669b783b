-- ===== src/Relay/Enrichers/Tests.antt =====
-- Runs of the enrichers, and their properties at concrete inputs.
use purple_wolf.Prelude.Maps
use purple_wolf.Prelude.{
  ◌≤◌, List, [], ◌∷◌, length, keep, Option, none, some, Str, codes, str_eq, ◌≡◌, refl,
}
use purple_wolf.Relay.Config.{EnricherConfig}
use purple_wolf.Relay.Enrichers.Bounded.{Bounded, Call, run, run-new-Bounded}
use purple_wolf.Relay.Enrichers.Cache
use purple_wolf.Relay.Enrichers.{
  Enricher, World, build, merge_in_place, enrich_lookup, cache_get, cache_put, enrich_http, enrich,
  enrich_all,
}

program : Unit {0}
unfolding enrich_all enrich enrich_http enrich_lookup cache_get cache_put merge_in_place build
    Cache.new Cache.get Cache.got Cache.put Cache.put_entry Cache.put_new Cache.make_room
    Cache.evict_expired Cache.remove_keys Cache.remove_key Cache.is_expired Cache.touch
    Cache.remove_lru_key Maps.get Maps.insert Maps.or_insert Maps.contains_key Maps.remove str_eq
    keep run
program = tt

abbrev labels : List (Str × Str)
labels = (codes "tenant", codes "acme") ∷ []

abbrev row : List (Str × Str)
row = (codes "tenant", codes "spoofed") ∷ (codes "owner", codes "payments") ∷ []

abbrev by_table : Enricher
unfolding build
by_table = build (EnricherConfig.lookup (codes "tenant") ((codes "acme", row) ∷ []))

abbrev by_http : Enricher
unfolding build Cache.new
by_http = build (EnricherConfig.http (codes "owner") (codes "http://c/{value}") 500 300 1024)

abbrev world : World
world = record {
  get_now = 0;
  evict_now = 0;
  put_now = 0;
  fetch = λ value. some ((codes "oncall", value) ∷ []);
}

abbrev enrichers : List (Enricher × Option World)
unfolding by_table by_http
enrichers = (by_table, some world) ∷ (by_http, some world) ∷ (by_table, none) ∷ []

enriched :
    (enrich_all enrichers labels).1
    ≡ (codes "tenant", codes "acme")
      ∷ (codes "owner", codes "payments")
      ∷ (codes "oncall", codes "payments")
      ∷ []
unfolding program enrichers by_table by_http
enriched = refl

abbrev calls : List Call
calls =
    Call.store (codes "a") labels 10 0
    ∷ Call.store (codes "b") labels 10 0
    ∷ Call.look (codes "a") 5
    ∷ Call.store (codes "c") labels 20 6
    ∷ []

-- The least recently used key goes.
evicted : (run (Cache.new 2) calls).lru ≡ codes "a" ∷ codes "c" ∷ []
unfolding program
evicted = refl

run-new-Bounded_example :
    Bounded (run (Cache.new 2) calls) × (length (run (Cache.new 2) calls).entries ≤ 2)
run-new-Bounded_example = run-new-Bounded 2 calls
