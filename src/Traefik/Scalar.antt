-- ===== src/Traefik/Scalar.antt =====
-- The lenient scalars of crates/purple-wolf-traefik/src/config.rs: Traefik passes every scalar as a text.
-- `none` is a refusal by serde.
pub mod Decimal
use purple_wolf.Prelude.{
  ℕ, ◌+◌, ◌-◌, ◌*◌, ◌^◌, Bool, true, false, ◌&&◌, ◌||◌, leb, ◌==◌, if◌then◌else◌, List, [], ◌∷◌,
  Option, none, some, ◌>>=◌, Str, codes, str_eq, trim, parse_unsigned, to_ascii_lowercase,
}

-- The untagged unions `V`, for the JSON types that occur.
pub data Scalar : Type 0 where
  boolean : Bool → Scalar
  num : ℕ → Scalar
  text : Str → Scalar

abbrev one_of : List Str → Str → Bool
one_of [] s = false
one_of (t ∷ ts) s = str_eq s t || one_of ts s

unfoldable pub bool_of_text : Str → Option Bool
unfolding str_eq
bool_of_text s =
    if one_of (codes "true" ∷ codes "1" ∷ codes "yes" ∷ codes "on" ∷ []) s
    then some true
    else if one_of (codes "false" ∷ codes "0" ∷ codes "no" ∷ codes "off" ∷ []) s
    then some false
    else none

unfoldable pub de_lenient_bool : Scalar → Option Bool
unfolding bool_of_text trim to_ascii_lowercase
de_lenient_bool (boolean b) = some b
de_lenient_bool (num n) = none
de_lenient_bool (text s) = bool_of_text (to_ascii_lowercase (trim s))

unfoldable pub try_from : ℕ → ℕ → Option ℕ
try_from most n = if leb n most then some n else none

unfoldable pub de_lenient_unsigned : ℕ → Scalar → Option ℕ
unfolding try_from parse_unsigned trim
de_lenient_unsigned most (boolean b) = none
de_lenient_unsigned most (num n) = try_from most n
de_lenient_unsigned most (text s) = parse_unsigned most (trim s)

-- The guest is built for wasm32.
abbrev pub usize_max : ℕ
usize_max = 2 ^ 32 - 1

abbrev pub u32_max : ℕ
u32_max = 2 ^ 32 - 1

unfoldable pub de_lenient_usize : Scalar → Option ℕ
unfolding de_lenient_unsigned
de_lenient_usize v = de_lenient_unsigned usize_max v

unfoldable pub de_lenient_u32 : Scalar → Option ℕ
unfolding de_lenient_unsigned
de_lenient_u32 v = de_lenient_unsigned u32_max v
