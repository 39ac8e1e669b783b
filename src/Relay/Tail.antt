-- ===== src/Relay/Tail.antt =====
-- The tail of a log file: crates/purple-wolf-relay/src/sources/log_tail.rs.
pub mod Bookmarks
pub mod Continuity
pub mod Turns
pub mod Restart
mod Tests
use purple_wolf.Prelude.{
  ℕ, ◌+◌, ◌-◌, ◌^◌, min, Bool, true, false, not, ◌||◌, ltb, leb, ◌==◌, if◌then◌else◌, List, [], ◌∷◌,
  ◌++◌, length, Option, none, some, ◌>>=◌, Str, Bytes, codes, show, parse_unsigned,
  split_whitespace,
}

abbrev pub bookmark_interval_events : ℕ
bookmark_interval_events = 100

abbrev pub u64_max : ℕ
u64_max = 2 ^ 64 - 1

pub record Bookmark : Type 0 where
  pub inode : ℕ
  pub position : ℕ

-- The text that `persist_bookmark` writes.
unfoldable pub bookmark_text : ℕ → ℕ → Str
unfolding show
bookmark_text position inode = show inode ++ b' ' ∷ (show position ++ 10 ∷ [])

abbrev pub first_two : List Str → Option Bookmark
unfolding parse_unsigned
first_two [] = none
first_two (a ∷ []) = none
first_two (a ∷ b ∷ rest) = do
  inode ← parse_unsigned u64_max a
  position ← parse_unsigned u64_max b
  some (record { inode = inode; position = position })

-- The bookmark file, unless it cannot be read.
unfoldable pub read_bookmark : Option Str → Option Bookmark
unfolding first_two split_whitespace
read_bookmark file = file >>= λ text. first_two (split_whitespace text)

-- The position where `open_at_start` leaves the file, from its inode and length.
abbrev pub start_with : Option Bookmark → Bool → ℕ → ℕ → ℕ
start_with none from_beginning inode len = if from_beginning then 0 else len
start_with (some bm) from_beginning inode len =
    if bm.inode == inode then min bm.position len else if from_beginning then 0 else len

unfoldable pub open_at_start : Option Str → Bool → ℕ → ℕ → ℕ
unfolding read_bookmark
open_at_start file from_beginning inode len =
    start_with (read_bookmark file) from_beginning inode len

-- `path` is the inode and the length of the file that the path names, where it can be opened; the answer
-- is the new inode.
unfoldable pub detect_rotation : Option (ℕ × ℕ) → ℕ → ℕ → Option ℕ
detect_rotation none current_inode position = none
detect_rotation (some (new_inode, len)) current_inode position =
    if not (new_inode == current_inode)
    then some new_inode
    else if ltb len position
    then some new_inode
    else none

-- The variables of the loop, the bookmark file, and the lines sent so far.
pub record Tail : Type 0 where
  pub inode : ℕ
  pub position : ℕ
  pub emitted_since_bookmark : ℕ
  pub bookmark_file : Option Str
  pub sent : List Bytes

-- What `read_line` gives: an error, or the bytes up to the next newline or the end, none of them at EOF.
pub data ReadLine : Type 0 where
  failed : ReadLine
  bytes : Bytes → ReadLine

-- What a turn of the loop meets.
pub record Turn : Type 0 where
  pub shutdown : Bool
  pub read : ReadLine
  pub shutdown_in_wait : Bool
  pub path : Option (ℕ × ℕ)
  pub receiver_gone : Bool
  pub saved : Bool

-- How the loop goes on: again, `return Ok(())`, or `return Err`.
pub data Next : Type 0 where
  again done failed : Tail → Next

unfoldable pub persist_bookmark : Bool → Tail → Tail
unfolding bookmark_text
persist_bookmark saved s =
    if saved then record s { bookmark_file = some (bookmark_text s.position s.inode) } else s

abbrev pub rotated : Turn → Tail → Option ℕ → Tail
unfolding persist_bookmark
rotated t s none = s
rotated t s (some new_inode) =
    persist_bookmark t.saved
      (record s { inode = new_inode; position = 0; emitted_since_bookmark = 0 })

unfoldable pub at_eof : Turn → Tail → Next
unfolding rotated detect_rotation persist_bookmark
at_eof t s =
    if t.shutdown_in_wait
    then Next.done (persist_bookmark t.saved s)
    else Next.again (rotated t s (detect_rotation t.path s.inode s.position))

-- The receiver counts the line only if it is there to take it.
unfoldable pub emit : Turn → Bytes → Tail → Next
unfolding persist_bookmark
emit t line s =
    let moved = record s { position = s.position + length line } in
    let sent = record moved {
      sent = s.sent ++ line ∷ [];
      emitted_since_bookmark = s.emitted_since_bookmark + 1;
    } in
    if t.receiver_gone
    then Next.done (persist_bookmark t.saved moved)
    else if leb bookmark_interval_events sent.emitted_since_bookmark
    then Next.again (record (persist_bookmark t.saved sent) { emitted_since_bookmark = 0 })
    else Next.again sent

abbrev pub on_read : Turn → Tail → ReadLine → Next
unfolding at_eof emit
on_read t s ReadLine.failed = Next.failed s
on_read t s (ReadLine.bytes []) = at_eof t s
on_read t s (ReadLine.bytes (b ∷ line)) = emit t (b ∷ line) s

unfoldable pub turn : Turn → Tail → Next
unfolding on_read persist_bookmark
turn t s = if t.shutdown then Next.done (persist_bookmark t.saved s) else on_read t s t.read

-- The loop through the turns given, until it returns.
unfoldable pub run_tail : Tail → List Turn → Next
unfolding turn
run_tail s [] = Next.again s
run_tail s (t ∷ ts) = elim (turn t s) [
  | again s' ↦ run_tail s' ts
  | done s' ↦ Next.done s'
  | failed s' ↦ Next.failed s'
]
