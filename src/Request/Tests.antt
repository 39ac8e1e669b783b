-- ===== src/Request/Tests.antt =====
-- Runs of the request model, and the properties at concrete requests.
use purple_wolf.Prelude.{
  ℕ, suc, ◌≤◌, ◌+◌, ◌-◌, ◌*◌, Bool, true, false, ◌&&◌, ◌||◌, List, [], ◌∷◌, ◌++◌, leb, ◌==◌,
  if◌then◌else◌, Option, none, some, Str, codes, lower, upper, contains, ◌≡◌, refl, arith, flat_map,
  keep, length, any, str_eq, starts_with, split, split_once, to_ascii_lowercase, to_ascii_uppercase,
  eq_ignore_ascii_case, trim,
}
use purple_wolf.Request.Client.{
  parts_loop, client_ip, candidates, client_ip-candidates, client_ip-forged,
}
use purple_wolf.Request.Decode.{both_forms, build_inspectable_headers-flat_map}
use purple_wolf.Request.Fields.{collect, fields, collect-inspectable_fields}
use purple_wolf.Request.{
  Request, Header, is_inspectable, header_size, lower_names, non_empty, decode_loop, decode,
  header_forms, build_inspectable_headers, parse_pair, parse_query, build, inspectable_fields,
  round, next,
}

abbrev is_hex : ℕ → Bool
is_hex a = (leb b'0' a && leb a b'9') || ((leb b'A' a && leb a b'F') || (leb b'a' a && leb a b'f'))

abbrev hex : ℕ → ℕ
hex a = if leb a b'9' then a - 48 else if leb a b'F' then a - 55 else a - 87

-- Percent-decoding of a text that stays ASCII.
abbrev pct : Str → Str
pct [] = []
pct (a ∷ []) = a ∷ []
pct (a ∷ b ∷ []) = a ∷ b ∷ []
pct (a ∷ b ∷ c ∷ s) =
    let rest = pct s in
    let same = pct (b ∷ c ∷ s) in
    if a == b'%' && (is_hex b && is_hex c) then (hex b * 16 + hex c) ∷ rest else a ∷ same

pct-plain : (s : Str) → contains b'%' s ≡ false → pct s ≡ s
unfolding contains
pct-plain [] h = refl
pct-plain (a ∷ []) h = refl
pct-plain (a ∷ b ∷ []) h = refl
pct-plain (a ∷ b ∷ c ∷ s) h =
    let here : a == b'%' ≡ false = ground arith in
    let later : contains b'%' (b ∷ c ∷ s) ≡ false = ground arith in
    rw (here, pct-plain (b ∷ c ∷ s) later)

abbrev attack : Str
attack = codes "id=%25252527"

abbrev some_headers : List Header
some_headers =
    (codes "cookie", codes "a=%27") ∷ (codes "accept", codes "%27") ∷ (codes "x-a", codes "b") ∷ []

build_inspectable_headers-flat_map_example :
    build_inspectable_headers pct some_headers
    ≡ flat_map (λ h. both_forms pct pct-plain h.1) (keep (λ h. is_inspectable h.0) some_headers)
build_inspectable_headers-flat_map_example =
    build_inspectable_headers-flat_map pct pct-plain some_headers

program : Unit {0}
unfolding build decode decode_loop contains str_eq header_forms build_inspectable_headers
    is_inspectable any starts_with keep fields inspectable_fields next round split split_once
    parse_query parse_pair lower_names header_size to_ascii_lowercase to_ascii_uppercase lower upper
    non_empty
program = tt

abbrev a_request : Request ℕ
a_request =
    build pct (codes "get") (codes "A.b") (codes "/p%20q") (codes "k=%27&&z") some_headers
      (codes "body") true 7

the_fields :
    collect 9 (inspectable_fields a_request)
    ≡ some (
        codes "/p q" ∷ codes "'" ∷ [] ∷ codes "body" ∷ codes "a=%27" ∷ codes "a='" ∷ codes "b" ∷ [])
unfolding program
the_fields = refl

fits : suc (length (fields a_request)) ≤ 9
unfolding program
fits = omega arith

collect-inspectable_fields_example :
    collect 9 (inspectable_fields a_request) ≡ some (fields a_request)
collect-inspectable_fields_example = collect-inspectable_fields a_request 9 fits

abbrev parse : Str → Option Str
parse [] = none
parse (a ∷ s) = some (a ∷ s)

abbrev chain : Str
chain = codes "10.0.0.1"

client_ip-candidates_example :
    client_ip parse ((codes "X-Forwarded-For", codes "1.1.1.1, 2.2.2.2") ∷ []) (codes "9.9.9.9") 1
    ≡ codes "1.1.1.1"
unfolding candidates keep eq_ignore_ascii_case to_ascii_lowercase lower str_eq flat_map parts_loop
    trim split starts_with
client_ip-candidates_example =
    client_ip-candidates parse ((codes "X-Forwarded-For", codes "1.1.1.1, 2.2.2.2") ∷ [])
      (codes "9.9.9.9") 1

client_ip-forged_example :
    client_ip parse
      ((codes "x-forwarded-for", codes "6.6.6.6" ++ b',' ∷ chain) ∷ [])
      (codes "9.9.9.9")
      1
    ≡ codes "6.6.6.6"
unfolding contains split trim starts_with
client_ip-forged_example =
    client_ip-forged parse (codes "6.6.6.6") chain [] (codes "9.9.9.9") (codes "6.6.6.6") 1
      (omega arith) (omega arith) refl refl
