-- ===== src/Traefik/Body/Tests.antt =====
-- Runs of `drain_body`, and its property at a concrete body.
use purple_wolf.Prelude.{true, false, [], ◌∷◌, some, Bytes, codes, min, ◌≡◌, refl, arith}
use purple_wolf.Traefik.Body.Whole.{Chunks, reads_of, whole, result, drain_body-whole}
use purple_wolf.Traefik.Body.{
  BodyReadError, BodyResult, Read, extend, drain_loop, drain_body, max_alloc,
}

program : Unit {0}
unfolding drain_body drain_loop extend whole
program = tt

abbrev two_chunks : Chunks
two_chunks = (codes "abc", codes "zz") ∷ (codes "de", []) ∷ []

cut :
    drain_body 4 true (reads_of two_chunks)
    ≡ some (BodyResult.ok (record { bytes = codes "abcd"; exceeded = true }), codes "abcde")
unfolding program
cut = refl

exact :
    drain_body 5 false (reads_of two_chunks)
    ≡ some (BodyResult.ok (record { bytes = codes "abcde"; exceeded = false }), codes "abcde")
unfolding program
exact = refl

abbrev empty_read : Read
empty_read = record { eof = false; size = 0; scratch = [] }

stalled :
    drain_body 5 true (empty_read ∷ empty_read ∷ empty_read ∷ [])
    ≡ some (BodyResult.err BodyReadError.stream_stalled, [])
unfolding program
stalled = refl

drain_body-whole_example :
    (preserved : Bytes) × (drain_body 4 true (reads_of two_chunks)
      ≡ some (result (min 4 max_alloc) (whole two_chunks), preserved))
    × (true ≡ true → preserved ≡ whole two_chunks)
drain_body-whole_example =
    drain_body-whole 4 true two_chunks
      ((omega arith, omega arith), ((omega arith, omega arith), tt))
