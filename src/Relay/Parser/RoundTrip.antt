-- ===== src/Relay/Parser/RoundTrip.antt =====
-- An audit event, printed into a coloured log line, and parsed again.
use purple_wolf.Prelude.{
  ℕ, ◌+◌, ◌-◌, Bool, true, false, List, [], ◌∷◌, ◌++◌, append_assoc, length, drop, drop-append,
  take-append, length-append, Option, some, Str, Bytes, contains, ◌≡◌, refl, sym, ap, ◌∙◌, arith,
  All,
}
use purple_wolf.Relay.Parser.{
  ParsedAudit, Parsed, parsed_event, parse_object, parse_line, signed, slice, strip_ansi,
  find_json_object, extract_traefik_enrichment,
}
use purple_wolf.Relay.Parser.Ansi.{
  Piece, Fine, render, plain, strip_ansi-render, contains-strip_ansi,
}
use purple_wolf.Relay.Parser.Objects.{Inside, find_json_object-Inside}

-- The text of an object.
abbrev pub braces : Str → Str
braces xs = b'{' ∷ (xs ++ b'}' ∷ [])

contains-append : (a : ℕ) (pre rest : Str) → contains a (pre ++ a ∷ rest) ≡ true
unfolding contains
contains-append a [] rest = ground arith
contains-append a (b ∷ pre) rest = ground (arith, contains-append a pre rest)

slice-append :
    (pre os rest : Str) (n end : ℕ)
    → length pre ≡ n
    → end + 1 - n ≡ length os
    → slice (pre ++ (os ++ rest)) (n, end) ≡ os
unfolding slice
slice-append pre os rest n end e m =
    let d : drop n (pre ++ (os ++ rest)) ≡ os ++ rest =
      ap (λ z. drop z (pre ++ (os ++ rest))) (sym e) ∙ drop-append pre (os ++ rest) in
    rw (d, m) (take-append (length os) os rest refl)

braces-append : (xs rest : Str) → braces xs ++ rest ≡ b'{' ∷ (xs ++ b'}' ∷ rest)
braces-append xs rest = ap (◌∷◌ b'{') (append_assoc xs (b'}' ∷ []) rest)

find-braces :
    (pre xs rest : Str)
    → contains b'{' pre ≡ false
    → Inside xs
    → find_json_object (pre ++ (braces xs ++ rest)) ≡ some (length pre, length pre + 1 + length xs)
find-braces pre xs rest apart inside =
    ap (λ z. find_json_object (pre ++ z)) (braces-append xs rest)
    ∙ find_json_object-Inside pre xs rest apart inside

slice-braces :
    (pre xs rest : Str)
    → slice (pre ++ (braces xs ++ rest)) (length pre, length pre + 1 + length xs) ≡ braces xs
slice-braces pre xs rest =
    slice-append pre (braces xs) rest (length pre) (length pre + 1 + length xs) refl
      (omega (arith, length-append xs (b'}' ∷ [])))

module _ {J : Type 0} (has_key : J → Str → Bool) (get_str : J → Str → Option Str)
    (utf8 : Bytes → Bool) (from_str : Str → Option J) where
  parse_object-braces :
      (pre xs rest : Str) (event : J)
      → contains b'{' pre ≡ false
      → Inside xs
      → from_str (braces xs) ≡ some event
      → parse_object has_key get_str utf8 from_str
          (pre ++ (braces xs ++ rest))
          (find_json_object (pre ++ (braces xs ++ rest)))
        ≡ parsed_event has_key get_str (pre ++ (braces xs ++ rest)) (some event)
  unfolding parse_object
  parse_object-braces pre xs rest event apart inside reads =
      rw (find-braces pre xs rest apart inside, slice-braces pre xs rest, reads) refl

  parse_line-stripped :
      (bytes pre xs rest : Str)
      → utf8 bytes ≡ true
      → strip_ansi bytes ≡ pre ++ (braces xs ++ rest)
      → parse_line has_key get_str utf8 from_str bytes
        ≡ parse_object has_key get_str utf8 from_str
            (pre ++ (braces xs ++ rest))
            (find_json_object (pre ++ (braces xs ++ rest)))
  unfolding parse_line
  parse_line-stripped bytes pre xs rest valid e =
      let brace : contains b'{' bytes ≡ true =
        contains-strip_ansi b'{' bytes
          (ap (contains b'{') e ∙ contains-append b'{' pre ((xs ++ b'}' ∷ []) ++ rest)) in
      rw (valid, brace, e) refl

  parsed_event-signed :
      (stripped : Str) (event : J)
      → signed has_key get_str event ≡ true
      → (a : ParsedAudit J) × (parsed_event has_key get_str stripped (some event) ≡ Parsed.ok a)
        × (a.event ≡ event)
        × ((a.middleware, a.router, a.entry_point) ≡ extract_traefik_enrichment stripped)
  unfolding parsed_event
  parsed_event-signed stripped event sign = rw sign (_, refl, refl, refl)

  -- An audit event whose printed form is a balanced object, which the JSON parser reads back, is recovered
  -- by `parse_line` from a UTF-8 log line that shows this text with no brace before it and anything behind
  -- it, with control sequences anywhere between, inside the object too; and the names around it are read
  -- off the shown text. Conditions: the event bears the signature fields.
  pub parse_line-render :
      (to_string : J → Str) (event : J) (pre xs rest : Str) (ps : List Piece)
      → to_string event ≡ braces xs
      → Inside xs
      → from_str (to_string event) ≡ some event
      → signed has_key get_str event ≡ true
      → All Fine ps
      → plain ps ≡ pre ++ (to_string event ++ rest)
      → contains b'{' pre ≡ false
      → utf8 (render ps) ≡ true
      → (a : ParsedAudit J) × (parse_line has_key get_str utf8 from_str (render ps) ≡ Parsed.ok a)
        × (a.event ≡ event)
        × ((a.middleware, a.router, a.entry_point)
            ≡ extract_traefik_enrichment (pre ++ (to_string event ++ rest)))
  parse_line-render to_string event pre xs rest ps printed inside reads sign fine shown apart
        valid =
      let whole : plain ps ≡ pre ++ (braces xs ++ rest) =
        shown ∙ ap (λ z. pre ++ (z ++ rest)) printed in
      let e : parse_line has_key get_str utf8 from_str (render ps)
          ≡ parsed_event has_key get_str (pre ++ (braces xs ++ rest)) (some event) =
        parse_line-stripped (render ps) pre xs rest valid (strip_ansi-render ps fine ∙ whole)
        ∙ parse_object-braces pre xs rest event apart inside (ap from_str (sym printed) ∙ reads) in
      let (a, e', same, names) = parsed_event-signed (pre ++ (braces xs ++ rest)) event sign in
      (
        a,
        e ∙ e',
        same,
        names ∙ ap (λ z. extract_traefik_enrichment (pre ++ (z ++ rest))) (sym printed),
      )
