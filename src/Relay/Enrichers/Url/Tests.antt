-- ===== src/Relay/Enrichers/Url/Tests.antt =====
-- A URL built, and its property at two values.
use purple_wolf.Prelude.{
  ℕ, Bool, not, [], ◌∷◌, keep, all, starts_with, Str, codes, ◌≡◌, refl, arith,
}
use purple_wolf.Relay.Enrichers.Url.{
  build_enrich_url, build_enrich_url-structural, structural, Encodes,
}

-- An encoder that drops what is to be encoded.
abbrev drops : (ℕ → Bool) → Str → Str
drops set = keep (λ b. not (set b))

drops-clean : Encodes drops
unfolding keep all
drops-clean set [] = refl
drops-clean set (b ∷ v) = ground (arith, drops-clean set v)

built : build_enrich_url drops (codes "http://h/{value}/l") (codes "../a") ≡ codes "http://h/a/l"
unfolding build_enrich_url keep starts_with
built = refl

build_enrich_url-structural_example :
    keep structural (build_enrich_url drops (codes "http://h/{value}/l") (codes "../a"))
    ≡ keep structural (build_enrich_url drops (codes "http://h/{value}/l") (codes "b"))
build_enrich_url-structural_example =
    build_enrich_url-structural drops drops-clean (codes "http://h/{value}/l") (codes "../a")
      (codes "b")
