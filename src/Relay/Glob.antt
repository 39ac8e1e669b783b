-- ===== src/Relay/Glob.antt =====
-- `Glob` of crates/purple-wolf-relay/src/subscribers/filter.rs.
pub mod Lang
pub mod Sound
pub mod Complete
mod Tests
use purple_wolf.Prelude.{
  ◌>>=◌, ℕ, zero, suc, ◌+◌, ◌-◌, Bool, true, false, not, ◌&&◌, ltb, ◌==◌, if◌then◌else◌, List, [],
  ◌∷◌, length, drop, keep, Option, none, some, Str, starts_with, ends_with, find, split,
}

pub record Glob : Type 0 where
  pub parts : List Str
  pub starts_wild : Bool
  pub ends_wild : Bool

unfoldable pub is_empty : Str → Bool
is_empty [] = true
is_empty (_ ∷ _) = false

unfoldable pub new : Str → Glob
unfolding is_empty starts_with ends_with split keep
new pattern = record {
  parts = keep (λ s. not (is_empty s)) (split b'*' pattern);
  starts_wild = starts_with (b'*' ∷ []) pattern;
  ends_wild = ends_with (b'*' ∷ []) pattern;
}

-- The new cursor behind `part`, searched for in `s[cursor..]`.
unfoldable pub seek : Str → ℕ → Str → Option ℕ
seek s cursor part = do idx ← find part (drop cursor s); some (cursor + (idx + length part))

-- The part that is anchored at the end.
unfoldable pub at_end : Str → ℕ → Str → Option ℕ
at_end s cursor part =
    if ends_with part (drop cursor s)
    then (if ltb (length s - length part) cursor then none else some (length s))
    else none

-- The first part: `none` where the function returns false.
unfoldable pub first_part : Bool → Str → Str → Option ℕ
first_part starts_wild s first =
    if starts_wild
    then seek s 0 first
    else if starts_with first s
    then some (length first)
    else none

-- One round of the loop: `anchor_end` chooses how the part is looked for.
unfoldable pub next_cursor : Str → Bool → ℕ → Str → Option ℕ
next_cursor s anchor_end cursor part =
    if anchor_end then at_end s cursor part else seek s cursor part

-- The loop over the other parts, from index `i` on.
unfoldable pub middle_parts : Str → Bool → ℕ → ℕ → ℕ → List Str → Option ℕ
middle_parts s ends_wild last_idx i cursor [] = some cursor
middle_parts s ends_wild last_idx i cursor (part ∷ parts) = do
  cursor' ← next_cursor s (i == last_idx && not ends_wild) cursor part
  middle_parts s ends_wild last_idx (suc i) cursor' parts

-- The last test of `matches`.
unfoldable pub at_stop : Str → Bool → Option ℕ → Bool
at_stop s ends_wild none = false
at_stop s ends_wild (some cursor) =
    if not ends_wild && not (cursor == length s) then false else true

unfoldable pub matches_parts : Str → Bool → Bool → List Str → Bool
matches_parts s starts_wild ends_wild [] = true
matches_parts s starts_wild ends_wild (first ∷ rest) = at_stop s ends_wild (do
  cursor ← first_part starts_wild s first
  middle_parts s ends_wild (length rest - 1) 0 cursor rest)

unfoldable pub matches : Glob → Str → Bool
matches g s = matches_parts s g.starts_wild g.ends_wild g.parts
