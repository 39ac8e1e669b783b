-- ===== src/Relay/Stdin/Whole.antt =====
-- What the stdin source sends of its input.
use purple_wolf.Prelude.{
  false, List, [], ◌∷◌, ◌++◌, append_assoc, append-nil, map, ◌≡◌, refl, sym, ap, ◌∙◌, Bytes, ◌≢◌,
}
use purple_wolf.Relay.Pipeline.{RawEvent}
use purple_wolf.Relay.Stdin.{bytes, Turn, Next, run_reader, source_id}

-- Turns in which nothing stands in the way.
abbrev pub reads : List Bytes → List Turn
reads [] = record { is_shut_down = false; read = bytes []; is_closed = false } ∷ []
reads (l ∷ ls) = record { is_shut_down = false; read = bytes l; is_closed = false } ∷ reads ls

abbrev pub event_of : Bytes → RawEvent
event_of line = record { source_id = source_id; line = line }

abbrev pub NonEmpty : List Bytes → Type 0
NonEmpty [] = Unit
NonEmpty (l ∷ ls) = (l ≢ []) × NonEmpty ls

-- Every line that is read before the end of the input is sent, in order, and then the source stops.
pub run_reader-reads :
    (sent : List RawEvent) (ls : List Bytes)
    → NonEmpty ls
    → run_reader sent (reads ls) ≡ Next.done (sent ++ map event_of ls)
unfolding run_reader
run_reader-reads sent [] h = ap Next.done (sym (append-nil sent))
run_reader-reads sent ([] ∷ ls) (n, h) = absurd (n refl)
run_reader-reads sent ((b ∷ l) ∷ ls) (n, h) =
    run_reader-reads (sent ++ event_of (b ∷ l) ∷ []) ls h
    ∙ ap Next.done (append_assoc sent (event_of (b ∷ l) ∷ []) (map event_of ls))
