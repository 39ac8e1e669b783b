-- ===== src/Relay/Stdin.antt =====
-- The stdin source: `run_reader` of crates/purple-wolf-relay/src/sources/stdin.rs. A run is a list of turns.
pub mod Whole
use purple_wolf.Prelude.{Bool, true, false, if◌then◌else◌, List, [], ◌∷◌, ◌++◌, Str, Bytes, codes}
use purple_wolf.Relay.Pipeline.{RawEvent}

-- What `read_line` gives: an error, or the bytes up to the next newline or the end, none of them at EOF.
pub data ReadLine : Type 0 where
  failed : ReadLine
  bytes : Bytes → ReadLine

-- What a turn of the loop meets: a shutdown, which is polled first; the reading; the channel closed.
pub record Turn : Type 0 where
  pub is_shut_down : Bool
  pub read : ReadLine
  pub is_closed : Bool

-- How the loop goes on, with the events sent so far: again, `return Ok(())`, or `return Err`.
pub data Next : Type 0 where
  again done failed : List RawEvent → Next

abbrev pub source_id : Str
source_id = codes "stdin"

unfoldable pub send : Bool → Bytes → List RawEvent → Next
send is_closed line sent =
    if is_closed
    then Next.done sent
    else Next.again (sent ++ record { source_id = source_id; line = line } ∷ [])

abbrev pub on_read : ReadLine → Bool → List RawEvent → Next
unfolding send
on_read failed is_closed sent = Next.failed sent
on_read (bytes []) is_closed sent = Next.done sent
on_read (bytes (b ∷ line)) is_closed sent = send is_closed (b ∷ line) sent

unfoldable pub turn : Turn → List RawEvent → Next
unfolding on_read
turn t sent = if t.is_shut_down then Next.done sent else on_read t.read t.is_closed sent

unfoldable pub run_reader : List RawEvent → List Turn → Next
unfolding turn
run_reader sent [] = Next.again sent
run_reader sent (t ∷ ts) = elim (turn t sent) [
  | again sent' ↦ run_reader sent' ts
  | done sent' ↦ Next.done sent'
  | failed sent' ↦ Next.failed sent'
]
