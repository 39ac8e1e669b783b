-- ===== src/Relay/Start/Ready.antt =====
-- A validated configuration starts.
use purple_wolf.Prelude.{
  ℕ, ◌≤◌, true, false, leb, ◌&&◌, all, arith, List, [], ◌∷◌, map, keep, length, length-map, some,
  Str, Bytes, All, ◌≡◌, ◌≢◌, refl, sym, ap, ◌∙◌, subst, inl, inr, Bool-cases,
}
use purple_wolf.Relay.Config.{
  Checked, Config, EnricherConfig, Outside, Resolved, SubscriberConfig, scheme_ok, validate,
}
use purple_wolf.Relay.Config.Validated.{Sound, validate-Valid}
use purple_wolf.Relay.Filter.{compile}
use purple_wolf.Relay.Enrichers
use purple_wolf.Relay.Sources
use purple_wolf.Relay.Start.{
  Limits, can_build, build_enrichers, Started, Subscriber, start, subscriber_of, start_subscriber,
  start_subscribers,
}
use purple_wolf.Relay.Supervisor.{spawned}

-- A subscriber of the fan-out with its sink, as its configuration asks for.
pub record Serves {J : Type 0} (s : SubscriberConfig) (p : Subscriber J) : Type 0 where
  pub id : p.0.id ≡ s.id
  pub same_id : p.1.id ≡ s.id
  pub filter : p.0.filter ≡ compile s.filter
  pub empty : p.0.queue ≡ []
  pub is_open : p.0.is_open ≡ true
  pub room : 1 ≤ p.0.room
  pub url : p.1.url ≡ s.url
  pub scheme : scheme_ok p.1.url ≡ true
  pub attempts : 1 ≤ p.1.max_attempts
  pub key : p.1.signer.secret ≢ []

abbrev pub Serve : {J : Type 0} → List SubscriberConfig → List (Subscriber J) → Type 0
Serve [] [] = Unit
Serve [] (p ∷ ps) = ⊥
Serve (s ∷ ss) [] = ⊥
Serve (s ∷ ss) (p ∷ ps) = Serves s p × Serve ss ps

true-false : {A : Type 0} → true ≡ false → A
true-false e = cc

build_enrichers-map :
    (limits : Limits) (es : List EnricherConfig)
    → all (can_build limits) es ≡ true
    → build_enrichers limits es ≡ some (map Enrichers.build es)
unfolding build_enrichers all
build_enrichers-map limits [] h = refl
build_enrichers-map limits (e ∷ es) h = elim (Bool-cases (can_build limits e)) [
  | inl fits ↦ rw (fits, build_enrichers-map limits es (rw fits at h)) refl
  | inr huge ↦ absurd (true-false (sym h ∙ rw huge refl))
]

module _ {J : Type 0} (limits : Limits) (queue : ℕ) (secrets : List (Str × Bytes)) where
  start_subscriber-Serves :
      (s : SubscriberConfig)
      → 1 ≤ queue
      → queue ≤ limits.max_permits
      → (h : Sound secrets s)
      → (p : Subscriber J) × (start_subscriber limits queue s h.key ≡ some p) × Serves s p
  unfolding start_subscriber subscriber_of
  start_subscriber-Serves s q m h =
      let within : (leb 1 queue && leb queue limits.max_permits) ≡ true = ground arith in
      (
        subscriber_of queue s h.key,
        rw within refl,
        record {
          id = refl;
          same_id = refl;
          filter = refl;
          empty = refl;
          is_open = refl;
          room = q;
          url = refl;
          scheme = h.scheme;
          attempts = h.attempts;
          key = h.full;
        },
      )

  start_subscribers-Serve :
      (subs : List SubscriberConfig)
      → 1 ≤ queue
      → queue ≤ limits.max_permits
      → All (Sound secrets) subs
      → (ps : List (Subscriber J)) × (start_subscribers limits queue secrets subs ≡ some ps)
        × Serve (keep (λ s. s.enabled) subs) ps
  unfolding start_subscribers keep
  start_subscribers-Serve [] q m h = ([], refl, tt)
  start_subscribers-Serve (s ∷ subs) q m (h, hs) =
      let (ps, e, serve) = start_subscribers-Serve subs q m hs in
      let (p, made, serves) = start_subscriber-Serves s q m h in
      elim (Bool-cases s.enabled) [
        | inl on ↦ (p ∷ ps, rw (on, h.held, made, e) refl, simp on (serves, serve))
        | inr off ↦ (ps, rw off e, simp off serve)
      ]

-- A configuration that passes `validate` starts, if the channels' room is within what tokio takes, and the
-- clients and caches of its enrichers can be made: the fan-out has a subscriber for each that is enabled, in
-- order and with its filter, its channel empty, open and with room; behind it stands a sink for its http or
-- https address, with at least one attempt and a key that is not empty. One task for each source and each of
-- these sinks is spawned, and an enricher and a source for each that is named.
pub validate-start :
    {J : Type 0} (limits : Limits) (o : Outside) (cfg : Config) (r : Resolved)
    → validate o cfg ≡ Checked.ok r
    → cfg.relay.subscriber_queue ≤ limits.max_permits
    → all (can_build limits) cfg.enrichments ≡ true
    → (st : Started J) × (start limits r ≡ some st)
      × Serve (keep (λ s. s.enabled) cfg.subscribers) st.subscribers
      × (st.enrichers ≡ map Enrichers.build cfg.enrichments)
      × (st.sources ≡ map Sources.build cfg.sources)
      × (st.tasks ≡ spawned (length cfg.sources) (length st.subscribers))
unfolding start
validate-start {J} limits o cfg r h within fit =
    let v = validate-Valid o cfg r h in
    let (ps, e, serve) =
      start_subscribers-Serve {J = J} limits cfg.relay.subscriber_queue r.subscriber_secrets
        cfg.subscribers v.queue within v.sound in
    let begun =
      subst
        (λ c.
          start_subscribers limits c.relay.subscriber_queue r.subscriber_secrets c.subscribers
          ≡ some ps)
        (sym v.raw) e in
    let built =
      subst (λ c. build_enrichers limits c.enrichments ≡ some (map Enrichers.build cfg.enrichments))
        (sym v.raw) (build_enrichers-map limits cfg.enrichments fit) in
    (
      record {
        enrichers = map Enrichers.build cfg.enrichments;
        subscribers = ps;
        sources = map Sources.build r.raw.sources;
        tasks = spawned (length (map Sources.build r.raw.sources)) (length ps);
      },
      rw (built, begun) refl,
      serve,
      refl,
      ap (λ c. map Sources.build c.sources) v.raw,
      ap (λ k. spawned k (length ps))
          (length-map Sources.build r.raw.sources ∙ ap (λ c. length c.sources) v.raw),
    )
