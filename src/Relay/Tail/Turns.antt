-- ===== src/Relay/Tail/Turns.antt =====
-- What one turn of the tail may come to.
use purple_wolf.Prelude.{
  ◌+◌, Bool, true, false, leb, [], ◌∷◌, ◌++◌, length, drop, none, some, Bytes, ◌≡◌, inl, inr, refl,
  sym, ap, ◌∙◌, Bool-cases, arith,
}
use purple_wolf.Relay.Tail.Continuity.{
  ReadsAt, after, Continues, Same, persist_bookmark-Same, Same-Continues, line-Continues,
}
use purple_wolf.Relay.Tail.{
  Tail, Turn, ReadLine, bytes, Next, bookmark_interval_events, bookmark_text, detect_rotation,
  persist_bookmark, rotated, at_eof, emit, on_read, turn,
}

-- What a turn may come to: it goes on behind the bytes that it read, or it stops; a clean stop leaves the
-- bookmark if it can be written.
pub data Turned (content : Bytes) (t : Turn) (s : Tail) : Next → Type 0 where
  goes_on :
      (s' : Tail)
      → Continues content s s'
      → s'.position ≡ after s.position t.read
      → Turned content t s (Next.again s')
  stops :
      (s' : Tail)
      → Continues content s s'
      → (t.saved ≡ true → s'.bookmark_file ≡ some (bookmark_text s'.position s'.inode))
      → Turned content t s (Next.done s')
  fails : (s' : Tail) → Continues content s s' → Turned content t s (Next.failed s')

module _ (content : Bytes) where
  persist_bookmark-file :
      (saved : Bool) (s : Tail)
      → saved ≡ true
      → (persist_bookmark saved s).bookmark_file
        ≡ some (bookmark_text (persist_bookmark saved s).position (persist_bookmark saved s).inode)
  unfolding persist_bookmark
  persist_bookmark-file true s e = refl
  persist_bookmark-file false s e = cc

  stops-Turned : (t : Turn) (s : Tail) → Turned content t s (Next.done (persist_bookmark t.saved s))
  stops-Turned t s =
      Turned.stops (persist_bookmark t.saved s)
        (Same-Continues content s (persist_bookmark t.saved s) (persist_bookmark-Same t.saved s))
        (persist_bookmark-file t.saved s)

  stays : (s : Tail) → Continues content s s
  stays s = Same-Continues content s s (record { inode = refl; position = refl; sent = refl })

  eof-Turned :
      (t : Turn) (s : Tail)
      → t.read ≡ ReadLine.bytes []
      → detect_rotation t.path s.inode s.position ≡ none
      → Turned content t s (at_eof t s)
  unfolding at_eof rotated
  eof-Turned t s eof same = elim (Bool-cases t.shutdown_in_wait) [
    | inl stop ↦ simp stop (stops-Turned t s)
    | inr go ↦
        simp (go, same) (Turned.goes_on s (stays s) (sym (ap (after s.position) eof ∙ omega arith)))
  ]

  line-Turned :
      (t : Turn) (s s' moved : Tail) (line rest : Bytes)
      → t.read ≡ ReadLine.bytes line
      → drop s.position content ≡ line ++ rest
      → moved.inode ≡ s.inode
      → moved.position ≡ s.position + length line
      → moved.sent ≡ s.sent ++ line ∷ []
      → Same moved s'
      → Turned content t s (Next.again s')
  line-Turned t s s' moved line rest reads here inode position sent same =
      Turned.goes_on s'
        (line-Continues content s s' line rest here (same.inode ∙ inode) (same.position ∙ position)
          (same.sent ∙ sent))
        (same.position ∙ position ∙ ap (after s.position) (sym reads))

  zeroed : (s s' : Tail) → Same s s' → Same s (record s' { emitted_since_bookmark = 0 })
  zeroed s s' e = record { inode = e.inode; position = e.position; sent = e.sent }

  emit-Turned :
      (t : Turn) (s : Tail) (line rest : Bytes)
      → t.read ≡ ReadLine.bytes line
      → drop s.position content ≡ line ++ rest
      → t.receiver_gone ≡ false
      → Turned content t s (emit t line s)
  unfolding emit
  emit-Turned t s line rest reads here there =
      let moved : Tail = record s {
        position = s.position + length line;
        emitted_since_bookmark = s.emitted_since_bookmark + 1;
        sent = s.sent ++ line ∷ [];
      } in
      let saved = persist_bookmark t.saved moved in
      elim (Bool-cases (leb bookmark_interval_events (s.emitted_since_bookmark + 1))) [
        | inl due ↦
            simp (there, due)
              (line-Turned t s (record saved { emitted_since_bookmark = 0 }) moved line rest reads
                here refl refl refl (zeroed moved saved (persist_bookmark-Same t.saved moved)))
        | inr early ↦
            simp (there, early)
              (line-Turned t s moved moved line rest reads here refl refl refl
                (record { inode = refl; position = refl; sent = refl }))
      ]

  on_read-Turned :
      (t : Turn) (s : Tail) (r : ReadLine)
      → t.read ≡ r
      → ReadsAt content s.position r
      → detect_rotation t.path s.inode s.position ≡ none
      → t.receiver_gone ≡ false
      → Turned content t s (on_read t s r)
  unfolding on_read
  on_read-Turned t s ReadLine.failed e here same there = Turned.fails s (stays s)
  on_read-Turned t s (bytes []) e here same there = eof-Turned t s e same
  on_read-Turned t s (bytes (b ∷ line)) e (rest, here) same there =
      emit-Turned t s (b ∷ line) rest e here there

  pub turn-Turned :
      (t : Turn) (s : Tail)
      → ReadsAt content s.position t.read
      → detect_rotation t.path s.inode s.position ≡ none
      → t.receiver_gone ≡ false
      → Turned content t s (turn t s)
  unfolding turn
  turn-Turned t s here same there = elim (Bool-cases t.shutdown) [
    | inl stop ↦ simp stop (stops-Turned t s)
    | inr go ↦ simp go (on_read-Turned t s t.read refl here same there)
  ]
