-- ===== src/Relay/Pipeline/Tests.antt =====
-- A line through the pipeline, and its property at this line.
use purple_wolf.Prelude.Maps
use purple_wolf.Prelude.{
  ℕ, Bool, true, if◌then◌else◌, [], ◌∷◌, length, map, none, some, Str, codes, str_eq, contains,
  find, starts_with, split_once, trim_matches, until_white, any, ◌≡◌, refl,
}
use purple_wolf.Relay.Enrichers.{enrich_all, enrich, enrich_lookup, merge_in_place}
use purple_wolf.Relay.Envelope.{new}
use purple_wolf.Relay.Filter.{filter_matches, labels_loop, severity_fails, rule_clause, get_label}
use purple_wolf.Relay.Parser.{
  scan_string, scan_step, closes, scan_loop, position, find_json_object, is_ascii_alphabetic,
  ansi_next, ansi_kept, strip_loop, strip_ansi, non_empty, find_value, strip_traefik_suffix,
  extract_traefik_enrichment, slice, signed, parsed_event, parse_object, parse_line,
}
use purple_wolf.Relay.Pipeline.{
  Json, RawEvent, PerSubscriber, DropLabel, Turn, Pipeline, try_send, matches, offer, fan_out,
  collect_labels, take_labels, envelope_of, process_parsed, process_result, count_line, process_one,
}

program : Unit {0}
unfolding process_one count_line process_result process_parsed envelope_of take_labels
    collect_labels fan_out offer matches try_send filter_matches labels_loop severity_fails
    rule_clause get_label new enrich_all enrich enrich_lookup merge_in_place find_json_object
    scan_loop scan_step scan_string closes position is_ascii_alphabetic ansi_next ansi_kept
    strip_loop strip_ansi non_empty find_value strip_traefik_suffix extract_traefik_enrichment slice
    signed parsed_event parse_object parse_line contains find starts_with split_once trim_matches
    until_white str_eq any Maps.get Maps.insert Maps.or_insert Maps.contains_key
program = tt

-- The only object is 1, its labels 2, and their one value 3; 4 is the object without its labels.
abbrev json : Json ℕ
unfolding str_eq
json = record {
  has_key = λ n k. true;
  get_str = λ n k. if str_eq k (codes "action") then some (codes "allow") else none;
  get_strs = λ n k. none;
  remove = λ n k. (some 2, 4);
  as_object = λ n. some ((codes "tenant", 3) ∷ []);
  as_str = λ n. some (codes "acme");
  from_str = λ s. if str_eq s (codes "{}") then some 1 else none;
  utf8 = λ bytes. true;
}

abbrev subscriber : Str → Str → ℕ → Bool → PerSubscriber ℕ
subscriber id tenant room is_open = record {
  id = id;
  filter = record { labels = (codes "tenant", tenant) ∷ []; severity_min = none; rule_glob = none };
  queue = [];
  room = room;
  is_open = is_open;
}

abbrev pipeline : Pipeline ℕ
pipeline = record {
  enrichers = [];
  subs =
      subscriber (codes "full") (codes "acme") 0 true
      ∷ subscriber (codes "other") (codes "globex") 1 true
      ∷ subscriber (codes "served") (codes "acme") 1 true
      ∷ [];
  counters = record {
    source_lines = [];
    parsed_events = [];
    enricher_calls = [];
    subscribers_matched = [];
    deliveries = [];
  };
}

abbrev turn : Turn
turn = record { worlds = []; ulid = codes "01"; now = 100 }

abbrev raw : RawEvent
raw = record { source_id = codes "stdin"; line = codes "INF {} middlewareName=waf@file" }

waiting :
    map (λ s. length s.queue) (process_one json (codes "r1") raw turn pipeline).subs
    ≡ 0 ∷ 0 ∷ 1 ∷ []
unfolding program json
waiting = refl

dropped :
    (process_one json (codes "r1") raw turn pipeline).counters.deliveries
    ≡ (codes "full", DropLabel.dropped_queue_full) ∷ []
unfolding program json
dropped = refl
