-- ===== src/Relay/Tail/Tests.antt =====
-- A run of the tail over two lines, and the properties of runs and of bookmarks at concrete inputs.
use purple_wolf.Prelude.{
  ℕ, Bool, true, false, List, [], ◌∷◌, ◌++◌, drop, Option, none, some, Bytes, codes, show,
  digits_from, parse_digits, some_digits, parse_unsigned, parts, split_whitespace, trim_start,
  until_white, strip, strip_all, starts_with, ◌≡◌, refl, arith,
}
use purple_wolf.Relay.Tail.Continuity.{Follows, joined}
use purple_wolf.Relay.Tail.Restart.{run_tail-restart}
use purple_wolf.Relay.Tail.{
  Tail, Turn, ReadLine, Next, bookmark_text, first_two, read_bookmark, open_at_start,
  detect_rotation, persist_bookmark, at_eof, emit, rotated, on_read, turn, run_tail,
}

program : Unit {0}
unfolding run_tail turn on_read emit at_eof rotated persist_bookmark detect_rotation open_at_start
    read_bookmark first_two bookmark_text show digits_from parse_digits some_digits parse_unsigned
    parts split_whitespace trim_start until_white strip strip_all starts_with
program = tt

abbrev content : Bytes
content = codes "ab" ++ 10 ∷ (codes "c" ++ 10 ∷ [])

abbrev meets : ReadLine → Bool → Turn
meets read shutdown = record {
  shutdown = shutdown;
  read = read;
  shutdown_in_wait = false;
  path = some (7, 5);
  receiver_gone = false;
  saved = true;
}

abbrev turns : List Turn
turns =
    meets (ReadLine.bytes (codes "ab" ++ 10 ∷ [])) false
    ∷ meets (ReadLine.bytes (codes "c" ++ 10 ∷ [])) false
    ∷ meets (ReadLine.bytes []) false
    ∷ meets (ReadLine.bytes []) true
    ∷ []

abbrev tail : ℕ → List Bytes → Option Bytes → Tail
tail position sent file = record {
  inode = 7;
  position = position;
  emitted_since_bookmark = 0;
  bookmark_file = file;
  sent = sent;
}

abbrev stopped : Tail
stopped = record {
  inode = 7;
  position = 5;
  emitted_since_bookmark = 2;
  bookmark_file = some (codes "7 5" ++ 10 ∷ []);
  sent = (codes "ab" ++ 10 ∷ []) ∷ (codes "c" ++ 10 ∷ []) ∷ [];
}

ran : run_tail (tail 0 [] none) turns ≡ Next.done stopped
unfolding program
ran = refl

-- A line that is written in two parts is sent in two parts.
torn :
    run_tail (tail 0 [] none) (
      meets (ReadLine.bytes (codes "a")) false
      ∷ meets (ReadLine.bytes (codes "b" ++ 10 ∷ [])) false
      ∷ [])
    ≡ Next.again (record (tail 3 (codes "a" ∷ (codes "b" ++ 10 ∷ []) ∷ []) none) {
      emitted_since_bookmark = 2;
    })
unfolding program
torn = refl

resumed : open_at_start stopped.bookmark_file false 7 9 ≡ 5
unfolding program
resumed = refl

follows : Follows content 7 0 turns
unfolding program
follows = (
  (codes "c" ++ 10 ∷ [], refl),
  refl,
  refl,
  (([], refl), refl, refl, (([], refl), refl, refl, (([], refl), refl, refl, tt))),
)

run_tail-restart_example :
    (more : List Bytes) × (stopped.sent ≡ [] ++ more)
    × (drop 0 content ≡ joined more ++ drop 5 content)
    × (open_at_start stopped.bookmark_file false 7 9 ≡ 5)
run_tail-restart_example =
    run_tail-restart content turns (tail 0 [] none) stopped false 9 follows
      (refl, (refl, (refl, (refl, tt)))) ran (omega arith) (omega arith) (omega arith)
