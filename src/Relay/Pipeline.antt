-- ===== src/Relay/Pipeline.antt =====
-- The pipeline of crates/purple-wolf-relay/src/pipeline.rs: from a line of a source to the queues of the
-- subscribers. The parser task is the only writer of what stands here, so each line is one step; the
-- sinks take envelopes out of the queues between the steps.
pub mod Labels
pub mod Delivered
mod Tests
use purple_wolf.Prelude.Maps
use purple_wolf.Prelude.{
  ℕ, Bool, true, false, not, leb, if◌then◌else◌, List, [], ◌∷◌, ◌++◌, map, length, Option, none,
  some, ◌>>=◌, Str, Bytes, codes,
}
use purple_wolf.Relay.Enrichers.{Enricher, of_lookup, of_http, World, enrich_all}
use purple_wolf.Relay.Envelope.{Envelope, EnvelopeSource, new}
use purple_wolf.Relay.Filter.{CompiledFilter, filter_matches}
use purple_wolf.Relay.Parser.{ParsedAudit, Parsed, ParseError, parse_line}

-- What the code uses of serde_json: on objects `get(key)` as a test, with `as_str`, and with `as_array` and
-- its strings, and `remove(key)`; the entries of an object; a text; and the parser of a text.
pub record Json (J : Type 0) : Type 0 where
  pub has_key : J → Str → Bool
  pub get_str : J → Str → Option Str
  pub get_strs : J → Str → Option (List Str)
  pub remove : J → Str → Option J × J
  pub as_object : J → Option (List (Str × J))
  pub as_str : J → Option Str
  pub from_str : Str → Option J
  pub utf8 : Bytes → Bool

pub record RawEvent : Type 0 where
  pub source_id : Str
  pub line : Bytes

-- A subscriber with its bounded channel: what waits in it, how much may, and whether the sink still
-- holds the other end.
pub record PerSubscriber (J : Type 0) : Type 0 where
  pub id : Str
  pub filter : CompiledFilter
  pub queue : List (Envelope J)
  pub room : ℕ
  pub is_open : Bool

pub data ParseLabel : Type 0 where
  ok not_pw error : ParseLabel

pub data CallLabel : Type 0 where
  ok timeout : CallLabel

pub data DropLabel : Type 0 where
  dropped_queue_full dropped_channel_closed : DropLabel

-- The increments of the counters, in order.
pub record Counters : Type 0 where
  pub source_lines : List Str
  pub parsed_events : List ParseLabel
  pub enricher_calls : List (Str × CallLabel)
  pub subscribers_matched : List Str
  pub deliveries : List (Str × DropLabel)

pub data Sent : Type 0 where
  sent full closed : Sent

abbrev pub enricher_name : Enricher → Str
enricher_name (of_lookup e) = codes "lookup"
enricher_name (of_http e) = codes "http"

abbrev pub call_label : Enricher × Option World → Str × CallLabel
call_label (e, none) = (enricher_name e, CallLabel.timeout)
call_label (e, some w) = (enricher_name e, CallLabel.ok)

abbrev pub count_drop : Str → Sent → Counters → Counters
count_drop id Sent.sent m = m
count_drop id Sent.full m = record m {
  deliveries = m.deliveries ++ (id, DropLabel.dropped_queue_full) ∷ [];
}
count_drop id Sent.closed m = record m {
  deliveries = m.deliveries ++ (id, DropLabel.dropped_channel_closed) ∷ [];
}

abbrev pub label_of : ParseError → ParseLabel
label_of ParseError.not_purple_wolf = ParseLabel.not_pw
label_of ParseError.malformed = ParseLabel.error

module _ {J : Type 0} where
  unfoldable pub try_send : PerSubscriber J → Envelope J → Sent × PerSubscriber J
  try_send s env =
      if not s.is_open
      then (Sent.closed, s)
      else if leb s.room (length s.queue)
      then (Sent.full, s)
      else (Sent.sent, record s { queue = s.queue ++ env ∷ [] })

module _ {J : Type 0} (j : Json J) where
  unfoldable pub matches : PerSubscriber J → Envelope J → Bool
  unfolding filter_matches
  matches s env = filter_matches j.get_str j.get_strs s.filter env

  -- The body of the loop of `fan_out`.
  unfoldable pub offer : Envelope J → PerSubscriber J → Counters → PerSubscriber J × Counters
  unfolding matches try_send
  offer env s m =
      if not (matches s env)
      then (s, m)
      else let m' = record m { subscribers_matched = m.subscribers_matched ++ s.id ∷ [] } in
        let (result, s') = try_send s env in (s', count_drop s.id result m')

  unfoldable pub fan_out :
      Envelope J → List (PerSubscriber J) → Counters → List (PerSubscriber J) × Counters
  unfolding offer
  fan_out env [] m = ([], m)
  fan_out env (s ∷ subs) m =
      let (s', m') = offer env s m in let (subs', m'') = fan_out env subs m' in (s' ∷ subs', m'')

  unfoldable pub collect_labels : List (Str × Str) → List (Str × J) → List (Str × Str)
  unfolding Maps.insert
  collect_labels out [] = out
  collect_labels out ((k, v) ∷ entries) = elim (j.as_str v) [
    | none ↦ collect_labels out entries
    | some s ↦ collect_labels (Maps.insert out k s) entries
  ]

  abbrev pub labels_in : Option (List (Str × J)) → List (Str × Str)
  unfolding collect_labels
  labels_in none = []
  labels_in (some entries) = collect_labels [] entries

  unfoldable pub take_labels : J → List (Str × Str) × J
  unfolding labels_in
  take_labels event =
      let (labels, event') = j.remove event (codes "labels") in
      (labels_in (labels >>= j.as_object), event')

-- The state of the parser task.
pub record Pipeline (J : Type 0) : Type 0 where
  pub enrichers : List Enricher
  pub subs : List (PerSubscriber J)
  pub counters : Counters

-- What a line takes from outside: for each enricher what its call meets, or `none` where the outer timeout
-- ends it; a ULID and the time.
pub record Turn : Type 0 where
  pub worlds : List (Option World)
  pub ulid : Str
  pub now : ℕ

abbrev pub zip : List Enricher → List (Option World) → List (Enricher × Option World)
zip [] ws = []
zip (e ∷ es) [] = (e, none) ∷ zip es []
zip (e ∷ es) (w ∷ ws) = (e, w) ∷ zip es ws

module _ {J : Type 0} where
  unfoldable pub count_line : RawEvent → Pipeline J → Pipeline J
  count_line raw p =
      let m = p.counters in
      record p { counters = record m { source_lines = m.source_lines ++ raw.source_id ∷ [] } }

module _ {J : Type 0} (j : Json J) (instance_id : Str) where
  abbrev pub source_of : ParsedAudit J → EnvelopeSource
  source_of parsed = record {
    middleware = parsed.middleware;
    router = parsed.router;
    entry_point = parsed.entry_point;
    relay_instance = instance_id;
  }

  -- The envelope that a parsed line becomes.
  unfoldable pub envelope_of : ParsedAudit J → List (Enricher × Option World) → Turn → Envelope J
  unfolding take_labels enrich_all new
  envelope_of parsed calls t =
      let (labels, event) = take_labels j parsed.event in
      new event (source_of parsed) (enrich_all calls labels).1 t.ulid t.now

  unfoldable pub process_parsed : ParsedAudit J → Turn → Pipeline J → Pipeline J
  unfolding envelope_of fan_out enrich_all take_labels
  process_parsed parsed t p =
      let calls = zip p.enrichers t.worlds in
      let m = p.counters in
      let m' = record m {
        parsed_events = m.parsed_events ++ ParseLabel.ok ∷ [];
        enricher_calls = m.enricher_calls ++ map call_label calls;
      } in
      let (subs, m'') = fan_out j (envelope_of parsed calls t) p.subs m' in
      record {
        enrichers = (enrich_all calls (take_labels j parsed.event).0).0;
        subs = subs;
        counters = m'';
      }

  unfoldable pub process_result : Parsed J → Turn → Pipeline J → Pipeline J
  unfolding process_parsed
  process_result (Parsed.ok parsed) t p = process_parsed parsed t p
  process_result (Parsed.err e) t p =
      let m = p.counters in
      record p { counters = record m { parsed_events = m.parsed_events ++ label_of e ∷ [] } }

  unfoldable pub process_one : RawEvent → Turn → Pipeline J → Pipeline J
  unfolding process_result parse_line count_line
  process_one raw t p =
      process_result (parse_line j.has_key j.get_str j.utf8 j.from_str raw.line) t
        (count_line raw p)
