-- ===== src/Relay/Parser/Tests.antt =====
-- Log lines parsed, and the round trip at a concrete line.
use purple_wolf.Prelude.{
  ℕ, Bool, true, if◌then◌else◌, List, [], ◌∷◌, ◌++◌, Option, none, some, Str, Bytes, codes, str_eq,
  contains, find, starts_with, split_once, trim_matches, until_white, any, All, ◌≡◌, refl, arith,
}
use purple_wolf.Relay.Parser.Ansi.{Piece, Fine, render}
use purple_wolf.Relay.Parser.Objects.{Inside, Quoted}
use purple_wolf.Relay.Parser.RoundTrip.{braces, parse_line-render}
use purple_wolf.Relay.Parser.{
  ParsedAudit, Parsed, ParseError, scan_string, scan_step, closes, scan_loop, position,
  find_json_object, is_ascii_alphabetic, ansi_next, ansi_kept, strip_loop, strip_ansi, non_empty,
  find_value, strip_traefik_suffix, extract_traefik_enrichment, slice, signed, parsed_event,
  parse_object, parse_line,
}

program : Unit {0}
unfolding find_json_object scan_loop scan_step scan_string closes position is_ascii_alphabetic
    ansi_next ansi_kept strip_loop strip_ansi non_empty find_value strip_traefik_suffix
    extract_traefik_enrichment slice signed parsed_event parse_object parse_line contains find
    starts_with split_once trim_matches until_white str_eq any
program = tt

abbrev inner : Str
inner = b'"' ∷ b'a' ∷ b'"' ∷ b':' ∷ b'"' ∷ b'}' ∷ b'"' ∷ []

inner-Inside : Inside inner
inner-Inside = Inside.quoted (Quoted.plain b'a' (omega arith) (omega arith) Quoted.end) (
    Inside.plain b':' (omega arith) (omega arith) (omega arith)
      (Inside.quoted (Quoted.plain b'}' (omega arith) (omega arith) Quoted.end) Inside.end))

abbrev to_string : ℕ → Str
to_string n = braces inner

abbrev from_str : Str → Option ℕ
unfolding str_eq
from_str s = if str_eq s (braces inner) then some 7 else none

abbrev has_key : ℕ → Str → Bool
has_key n k = true

abbrev get_str : ℕ → Str → Option Str
get_str n k = some (codes "block")

abbrev utf8 : Bytes → Bool
utf8 bytes = true

abbrev pieces : List Piece
pieces =
    Piece.control (codes "32") b'm'
    ∷ Piece.text (codes "INF ")
    ∷ Piece.control (codes "1") b'm'
    ∷ Piece.text (braces inner)
    ∷ Piece.control (codes "0") b'm'
    ∷ Piece.text (codes " middlewareName=waf@file routerName=")
    ∷ []

abbrev behind : Str
behind = codes " middlewareName=waf@file routerName="

abbrev parsed : ParsedAudit ℕ
parsed = record { event = 7; middleware = some (codes "waf"); router = none; entry_point = none }

pieces-Fine : All Fine pieces
unfolding program
pieces-Fine = ((refl, refl), (refl, ((refl, refl), (refl, ((refl, refl), (refl, tt))))))

line : parse_line has_key get_str utf8 from_str (render pieces) ≡ Parsed.ok parsed
unfolding program
line = refl

-- A key inside the object is found before the one behind it.
spoofed :
    extract_traefik_enrichment (codes "{path:/?middlewareName=x } middlewareName=waf@file")
    ≡ (some (codes "x"), none, none)
unfolding program
spoofed = refl

unbalanced :
    parse_line has_key get_str utf8 from_str (codes "INF {{}")
    ≡ Parsed.err ParseError.not_purple_wolf
unfolding program
unbalanced = refl

parse_line-render_example :
    (a : ParsedAudit ℕ) × (parse_line has_key get_str utf8 from_str (render pieces) ≡ Parsed.ok a)
    × (a.event ≡ 7)
    × ((a.middleware, a.router, a.entry_point)
        ≡ extract_traefik_enrichment (codes "INF " ++ (braces inner ++ behind)))
unfolding program
parse_line-render_example =
    parse_line-render has_key get_str utf8 from_str to_string 7 (codes "INF ") inner behind pieces
      refl inner-Inside refl refl pieces-Fine refl refl refl
