-- ===== src/Traefik/Peer.antt =====
-- `parse_ip` and `parse_peer` of crates/purple-wolf-traefik/src/entry.rs.
use mathlib.Core.List.{reverse}
use purple_wolf.Prelude.{
  ℕ, ◌+◌, ◌-◌, ◌*◌, Bool, false, not, ◌&&◌, leb, ◌==◌, if◌then◌else◌, [], ◌∷◌, all, Option, none,
  some, or_else, unwrap_or, ◌>>=◌, Str, trim,
}
use purple_wolf.Request.{non_empty}

-- `str::rsplit_once` at a byte.
unfoldable pub rsplit_once : ℕ → Str → Option (Str × Str)
rsplit_once c [] = none
rsplit_once c (a ∷ s) = elim (rsplit_once c s) [
  | some (k, v) ↦ some (a ∷ k, v)
  | none ↦ if a == c then some ([], s) else none
]

unfoldable pub trim_start_matches : ℕ → Str → Str
trim_start_matches c [] = []
trim_start_matches c (a ∷ s) = let rest = trim_start_matches c s in if a == c then rest else a ∷ s

unfoldable pub trim_end_matches : ℕ → Str → Str
unfolding trim_start_matches
trim_end_matches c s = reverse (trim_start_matches c (reverse s))

-- Whether `parse::<u16>` succeeds: digits, with a plus in front or not, of a number below 2^16.
unfoldable pub is_digit : ℕ → Bool
is_digit b = leb b'0' b && leb b b'9'

unfoldable pub number : ℕ → Str → ℕ
number n [] = n
number n (b ∷ s) = number (n * 10 + (b - b'0')) s

unfoldable pub is_number : Str → Bool
unfolding is_digit number
is_number s = non_empty s && (all is_digit s && leb (number 0 s) 65535)

unfoldable pub parses_u16 : Str → Bool
unfolding is_number
parses_u16 [] = false
parses_u16 (b ∷ s) = if b == b'+' then is_number s else is_number (b ∷ s)

-- `parse` is the `FromStr` of `IpAddr`.
module _ {Ip : Type 0} (parse : Str → Option Ip) where
  unfoldable pub parse_unbracketed : Str → Option Ip
  unfolding trim_end_matches
  parse_unbracketed s = parse (trim_end_matches b']' (trim_start_matches b'[' s))

  -- The branch with a port.
  unfoldable pub parse_host_port : Str → Option Ip
  parse_host_port addr = do
    (host, port) ← rsplit_once b':' addr
    if parses_u16 port then or_else (parse host) (parse_unbracketed host) else none

  unfoldable pub parse_trimmed : Str → Option Ip
  parse_trimmed addr =
      if not (non_empty addr)
      then none
      else or_else (parse addr) (or_else (parse_host_port addr) (parse_unbracketed addr))

  unfoldable pub parse_ip : Str → Option Ip
  parse_ip addr = parse_trimmed (trim addr)

  unfoldable pub parse_peer : Ip → Str → Ip
  parse_peer unspecified addr = unwrap_or (parse_ip addr) unspecified
