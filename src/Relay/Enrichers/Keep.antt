-- ===== src/Relay/Enrichers/Keep.antt =====
-- No enricher overwrites a label.
use purple_wolf.Prelude.Maps
use purple_wolf.Prelude.{List, [], ◌∷◌, Option, none, some, ◌>>=◌, Str, ◌≡◌}
use purple_wolf.Relay.Enrichers.{
  Enricher, of_lookup, of_http, HttpEnricher, LookupEnricher, World, merge_in_place, enrich_lookup,
  cache_get, fetched, answered, merged, enrich_value, enrich_http, enrich, enrich_all,
}

-- Every label of the first map has the same value in the second.
abbrev pub Kept : List (Str × Str) → List (Str × Str) → Type 0
Kept labels labels' = (k v : Str) → Maps.get labels k ≡ some v → Maps.get labels' k ≡ some v

Kept-merge_in_place : (labels extra : List (Str × Str)) → Kept labels (merge_in_place labels extra)
unfolding merge_in_place
Kept-merge_in_place labels [] k v h = h
Kept-merge_in_place labels ((k', v') ∷ extra) k v h =
    Kept-merge_in_place (Maps.or_insert labels k' v') extra k v
      (Maps.get-or_insert labels k' k v' h)

Kept-fetched :
    (e : HttpEnricher) (w : World) (value : Str) (labels : List (Str × Str))
    (o : Option (List (Str × Str)))
    → Kept labels ((fetched e w value labels o).1)
unfolding fetched
Kept-fetched e w value labels none k v h = h
Kept-fetched e w value labels (some extra) k v h = Kept-merge_in_place labels extra k v h

Kept-answered :
    (w : World) (value : Str) (labels : List (Str × Str)) (o : Option (List (Str × Str)))
    (e : HttpEnricher)
    → Kept labels ((answered w value labels o e).1)
unfolding answered
Kept-answered w value labels (some cached) e k v h = Kept-merge_in_place labels cached k v h
Kept-answered w value labels none e k v h = Kept-fetched e w value labels (w.fetch value) k v h

Kept-merged :
    (labels : List (Str × Str)) (o : Option (List (Str × Str))) → Kept labels (merged labels o)
unfolding merged
Kept-merged labels none k v h = h
Kept-merged labels (some extra) k v h = Kept-merge_in_place labels extra k v h

Kept-enrich_lookup :
    (e : LookupEnricher) (labels : List (Str × Str)) → Kept labels (enrich_lookup e labels)
unfolding enrich_lookup
Kept-enrich_lookup e labels =
    Kept-merged labels (Maps.get labels e.on_label >>= λ key. Maps.get e.table key)

Kept-enrich_value :
    (e : HttpEnricher) (w : World) (labels : List (Str × Str)) (o : Option Str)
    → Kept labels ((enrich_value e w labels o).1)
unfolding enrich_value
Kept-enrich_value e w labels none k v h = h
Kept-enrich_value e w labels (some value) k v h =
    let c = cache_get e w value in Kept-answered w value labels c.0 c.1 k v h

Kept-enrich_http :
    (e : HttpEnricher) (w : World) (labels : List (Str × Str))
    → Kept labels ((enrich_http e w labels).1)
unfolding enrich_http
Kept-enrich_http e w labels = Kept-enrich_value e w labels (Maps.get labels e.on_label)

Kept-enrich :
    (e : Enricher) (w : World) (labels : List (Str × Str)) → Kept labels ((enrich e w labels).1)
unfolding enrich
Kept-enrich (of_lookup e) w labels = Kept-enrich_lookup e labels
Kept-enrich (of_http e) w labels = Kept-enrich_http e w labels

-- Whatever the enrichers, their caches, the answers that they get and the timeouts, a label that is set
-- before they run has the same value afterwards.
pub enrich_all-Kept :
    (es : List (Enricher × Option World)) (labels : List (Str × Str)) (k v : Str)
    → Maps.get labels k ≡ some v
    → Maps.get (enrich_all es labels).1 k ≡ some v
unfolding enrich_all
enrich_all-Kept [] labels k v h = h
enrich_all-Kept ((e, none) ∷ es) labels k v h = enrich_all-Kept es labels k v h
enrich_all-Kept ((e, some w) ∷ es) labels k v h =
    enrich_all-Kept es (enrich e w labels).1 k v (Kept-enrich e w labels k v h)
