-- ===== src/Relay/Pipeline/Delivered.antt =====
-- What a line does to the subscribers.
use purple_wolf.Prelude.Maps
use purple_wolf.Prelude.{
  Bool, not, leb, ◌&&◌, if◌then◌else◌, List, [], ◌∷◌, ◌++◌, map, append_assoc, append-nil, length,
  some, codes, Str, ◌≡◌, inl, inr, refl, sym, ap, ◌∙◌, Bool-cases,
}
use purple_wolf.Relay.Envelope.{Envelope}
use purple_wolf.Relay.Parser.{ParsedAudit}
use purple_wolf.Relay.Pipeline.Labels.{last_text, label_entries}
use purple_wolf.Relay.Pipeline.{
  Json, PerSubscriber, Counters, DropLabel, Pipeline, try_send, matches, offer, fan_out,
}

still : {A : Type 0} (xs : List A) → xs ≡ xs ++ []
still xs = sym (append-nil xs)

joined : {A : Type 0} (a b c x y : List A) → b ≡ a ++ (x ++ []) → c ≡ b ++ y → c ≡ a ++ (x ++ y)
joined a b c x y h k =
    k ∙ ap (λ z. z ++ y) (h ∙ ap (λ z. a ++ z) (append-nil x)) ∙ append_assoc a x y

module _ {J : Type 0} (j : Json J) (env : Envelope J) where
  -- The subscriber gets the envelope: its filter matches, its sink is there, and its channel has room.
  abbrev pub takes : PerSubscriber J → Bool
  takes s = matches j s env && (s.is_open && not (leb s.room (length s.queue)))

  abbrev pub served : PerSubscriber J → PerSubscriber J
  served s = if takes s then record s { queue = s.queue ++ env ∷ [] } else s

  -- The drop that is counted for the subscriber, if it matches and does not get the envelope.
  abbrev pub drops_of : PerSubscriber J → List (Str × DropLabel)
  drops_of s =
      if not (matches j s env)
      then []
      else if not s.is_open
      then (s.id, DropLabel.dropped_channel_closed) ∷ []
      else if leb s.room (length s.queue)
      then (s.id, DropLabel.dropped_queue_full) ∷ []
      else []

  abbrev pub all_drops : List (PerSubscriber J) → List (Str × DropLabel)
  all_drops [] = []
  all_drops (s ∷ subs) = drops_of s ++ all_drops subs

  abbrev pub matched : List (PerSubscriber J) → List Str
  matched [] = []
  matched (s ∷ subs) = (if matches j s env then s.id ∷ [] else []) ++ matched subs

  -- The counters of a fan-out, and no other counter moves.
  pub record Counted (m m' : Counters) (subs : List (PerSubscriber J)) : Type 0 where
    pub matches_counted : m'.subscribers_matched ≡ m.subscribers_matched ++ matched subs
    pub drops_counted : m'.deliveries ≡ m.deliveries ++ all_drops subs
    pub parsed_events : m'.parsed_events ≡ m.parsed_events

  offer-Counted :
      (s : PerSubscriber J) (m : Counters)
      → ((offer j env s m).0 ≡ served s) × Counted m (offer j env s m).1 (s ∷ [])
  unfolding offer try_send
  offer-Counted s m = elim (Bool-cases (matches j s env)) [
    | inr other ↦ rw other (
      refl,
      record {
        matches_counted = rw other (still m.subscribers_matched);
        drops_counted = rw other (still m.deliveries);
        parsed_events = refl;
      },
    )
    | inl fits ↦ elim (Bool-cases s.is_open) [
      | inr shut ↦
          simp (fits, shut)
            (
              refl,
              record {
                matches_counted = rw fits refl;
                drops_counted = simp (fits, shut) refl;
                parsed_events = refl;
              },
            )
      | inl there ↦ elim (Bool-cases (leb s.room (length s.queue))) [
        | inl full ↦
            simp (fits, there, full)
              (
                refl,
                record {
                  matches_counted = rw fits refl;
                  drops_counted = simp (fits, there, full) refl;
                  parsed_events = refl;
                },
              )
        | inr room ↦
            simp (fits, there, room)
              (
                refl,
                record {
                  matches_counted = rw fits refl;
                  drops_counted = simp (fits, there, room) (still m.deliveries);
                  parsed_events = refl;
                },
              )
      ]
    ]
  ]

  -- Every subscriber is served by itself, whatever the others do.
  pub fan_out-Counted :
      (subs : List (PerSubscriber J)) (m : Counters)
      → ((fan_out j env subs m).0 ≡ map served subs) × Counted m (fan_out j env subs m).1 subs
  unfolding fan_out
  fan_out-Counted [] m = (
    refl,
    record {
      matches_counted = still m.subscribers_matched;
      drops_counted = still m.deliveries;
      parsed_events = refl;
    },
  )
  fan_out-Counted (s ∷ subs) m =
      let (one, c) = offer-Counted s m in
      let (rest, c') = fan_out-Counted subs (offer j env s m).1 in
      (
        ap (λ z. z ∷ (fan_out j env subs (offer j env s m).1).0) one ∙ ap (◌∷◌ (served s)) rest,
        record {
          matches_counted =
              joined _ _ _ (if matches j s env then s.id ∷ [] else []) (matched subs)
                c.matches_counted c'.matches_counted;
          drops_counted =
              joined _ _ _ (drops_of s) (all_drops subs) c.drops_counted c'.drops_counted;
          parsed_events = c'.parsed_events ∙ c.parsed_events;
        },
      )

module _ {J : Type 0} (j : Json J) (instance_id : Str) where
  -- A line that parsed: an envelope for its event without the labels, with the names of the line, which
  -- carries the last text under each key of the labels unchanged, and the subscribers are served with it.
  pub record Processed (a : ParsedAudit J) (p p' : Pipeline J) : Type 0 where
    pub env : Envelope J
    pub event : env.event ≡ (j.remove a.event (codes "labels")).1
    pub labels :
        (k s : Str)
        → last_text j k (label_entries j a.event) ≡ some s
        → Maps.get env.labels k ≡ some s
    pub middleware : env.source.middleware ≡ a.middleware
    pub router : env.source.router ≡ a.router
    pub entry_point : env.source.entry_point ≡ a.entry_point
    pub relay_instance : env.source.relay_instance ≡ instance_id
    pub attempt : env.attempt ≡ 1
    pub subs : p'.subs ≡ map (served j env) p.subs
    pub matches_counted :
        p'.counters.subscribers_matched ≡ p.counters.subscribers_matched ++ matched j env p.subs
    pub drops_counted : p'.counters.deliveries ≡ p.counters.deliveries ++ all_drops j env p.subs
