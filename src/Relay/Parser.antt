-- ===== src/Relay/Parser.antt =====
-- The audit line parser of crates/purple-wolf-relay/src/parser.rs. A text is its UTF-8 bytes: the scans of
-- the source look for ASCII characters only, which are one byte each.
pub mod Objects
pub mod Ansi
pub mod RoundTrip
mod Tests
use purple_wolf.Prelude.{
  ℕ, ◌+◌, ◌-◌, Bool, true, false, not, ◌&&◌, ◌||◌, leb, ◌==◌, if◌then◌else◌, List, [], ◌∷◌, length,
  take, drop, Option, none, some, ◌>>=◌, Str, Bytes, codes, str_eq, contains, find, split_once,
  trim_matches, until_white,
}

-- The failure `Malformed` is never produced.
pub data ParseError : Type 0 where
  not_purple_wolf malformed : ParseError

pub record ParsedAudit (J : Type 0) : Type 0 where
  pub event : J
  pub middleware : Option Str
  pub router : Option Str
  pub entry_point : Option Str

pub data Parsed (J : Type 0) : Type 0 where
  ok : ParsedAudit J → Parsed J
  err : ParseError → Parsed J

-- The variables of the scan. The depth is at least one while the scan runs.
pub record Scan : Type 0 where
  pub depth : ℕ
  pub in_string : Bool
  pub escape : Bool

unfoldable pub scan_string : Scan → ℕ → Scan
scan_string s b =
    if s.escape
    then record s { escape = false }
    else if b == b'\\'
    then record s { escape = true }
    else if b == b'"'
    then record s { in_string = false }
    else s

unfoldable pub scan_step : Scan → ℕ → Scan
unfolding scan_string
scan_step s b =
    if s.in_string
    then scan_string s b
    else if b == b'"'
    then record s { in_string = true }
    else if b == b'{'
    then record s { depth = s.depth + 1 }
    else if b == b'}'
    then record s { depth = s.depth - 1 }
    else s

unfoldable pub closes : Scan → ℕ → Bool
closes s b = not s.in_string && (b == b'}' && s.depth - 1 == 0)

unfoldable pub scan_loop : Scan → ℕ → Bytes → Option ℕ
unfolding scan_step closes
scan_loop s i [] = none
scan_loop s i (b ∷ bs) =
    let rest = scan_loop (scan_step s b) (i + 1) bs in if closes s b then some i else rest

-- `position` of a byte.
unfoldable pub position : ℕ → Bytes → Option ℕ
position a [] = none
position a (b ∷ bs) =
    let rest = position a bs in
    if b == a then some 0 else elim rest [ none ↦ none | some i ↦ some (i + 1) ]

unfoldable pub find_json_object : Bytes → Option (ℕ × ℕ)
unfolding position scan_loop
find_json_object s = position b'{' s >>= λ start.
    scan_loop (record { depth = 0; in_string = false; escape = false }) start (drop start s)
    >>= λ end. some (start, end)

unfoldable pub is_ascii_alphabetic : ℕ → Bool
is_ascii_alphabetic c = (leb b'A' c && leb c b'Z') || (leb b'a' c && leb c b'z')

-- Where `strip_ansi` is: outside, behind an ESC whose `[` may follow, or before the terminator.
pub data Place : Type 0 where
  outside behind_esc before_terminator : Place

unfoldable pub ansi_next : Place → ℕ → Place
unfolding is_ascii_alphabetic
ansi_next outside c = if c == 0x1b then Place.behind_esc else Place.outside
ansi_next behind_esc c =
    if c == b'['
    then Place.before_terminator
    else if is_ascii_alphabetic c
    then Place.outside
    else Place.before_terminator
ansi_next before_terminator c =
    if is_ascii_alphabetic c then Place.outside else Place.before_terminator

unfoldable pub ansi_kept : Place → ℕ → Bool
ansi_kept outside c = not (c == 0x1b)
ansi_kept behind_esc c = false
ansi_kept before_terminator c = false

unfoldable pub strip_loop : Place → Str → Str
unfolding ansi_next ansi_kept
strip_loop place [] = []
strip_loop place (c ∷ s) =
    let rest = strip_loop (ansi_next place c) s in if ansi_kept place c then c ∷ rest else rest

unfoldable pub strip_ansi : Str → Str
unfolding strip_loop contains
strip_ansi s = if not (contains 0x1b s) then s else strip_loop Place.outside s

unfoldable pub non_empty : Str → Option Str
non_empty [] = none
non_empty (c ∷ s) = some (c ∷ s)

unfoldable pub find_value : Str → Str → Option Str
unfolding find until_white trim_matches non_empty
find_value haystack key = elim (find key haystack) [
  | none ↦ none
  | some idx ↦
      non_empty (
        trim_matches ((b'"' ∷ []) ∷ (39 ∷ []) ∷ [])
          (until_white (drop (idx + length key) haystack)))
]

unfoldable pub strip_traefik_suffix : Str → Str
unfolding split_once
strip_traefik_suffix v = elim (split_once b'@' v) [ none ↦ v | some (k, _) ↦ k ]

abbrev pub suffix_stripped : Option Str → Option Str
unfolding strip_traefik_suffix
suffix_stripped none = none
suffix_stripped (some v) = some (strip_traefik_suffix v)

unfoldable pub extract_traefik_enrichment : Str → Option Str × Option Str × Option Str
unfolding find_value
extract_traefik_enrichment s = (
  suffix_stripped (find_value s (codes "middlewareName=")),
  suffix_stripped (find_value s (codes "routerName=")),
  find_value s (codes "entryPointName="),
)

-- The bytes from one index to another, both included.
unfoldable pub slice : Str → ℕ × ℕ → Str
slice s (start, end) = take (end + 1 - start) (drop start s)

abbrev pub is_action : Option Str → Bool
is_action none = false
is_action (some a) = str_eq a (codes "block") || str_eq a (codes "allow")

-- `has_key` and `get_str` are `get(key)` as a test and with `as_str`.
module _ {J : Type 0} (has_key : J → Str → Bool) (get_str : J → Str → Option Str) where
  unfoldable pub signed : J → Bool
  signed event =
      has_key event (codes "would_block_rules") && is_action (get_str event (codes "action"))

  unfoldable pub parsed_event : Str → Option J → Parsed J
  unfolding signed extract_traefik_enrichment
  parsed_event stripped none = Parsed.err ParseError.not_purple_wolf
  parsed_event stripped (some event) =
      let names = extract_traefik_enrichment stripped in
      if not (signed event)
      then Parsed.err ParseError.not_purple_wolf
      else Parsed.ok
          (record { event = event; middleware = names.0; router = names.1; entry_point = names.2 })

-- `utf8` is the test of `from_utf8` and `from_str` the JSON parser.
module _ {J : Type 0} (has_key : J → Str → Bool) (get_str : J → Str → Option Str)
    (utf8 : Bytes → Bool) (from_str : Str → Option J) where
  unfoldable pub parse_object : Str → Option (ℕ × ℕ) → Parsed J
  unfolding parsed_event slice
  parse_object stripped none = Parsed.err ParseError.not_purple_wolf
  parse_object stripped (some bounds) =
      parsed_event has_key get_str stripped (from_str (slice stripped bounds))

  unfoldable pub parse_line : Bytes → Parsed J
  unfolding parse_object strip_ansi find_json_object contains
  parse_line bytes =
      if not (utf8 bytes)
      then Parsed.err ParseError.not_purple_wolf
      else if not (contains b'{' bytes)
      then Parsed.err ParseError.not_purple_wolf
      else parse_object (strip_ansi bytes) (find_json_object (strip_ansi bytes))
