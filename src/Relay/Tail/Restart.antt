-- ===== src/Relay/Tail/Restart.antt =====
-- Runs of the tail, a clean stop, and the next start.
use purple_wolf.Prelude.{
  ℕ, ◌≤◌, Bool, true, ◌==◌, List, [], ◌∷◌, ◌++◌, All, drop, some, Bytes, ◌≡◌, refl, sym, ap, ◌∙◌,
  subst, arith,
}
use purple_wolf.Relay.Tail.Bookmarks.{read_bookmark-bookmark_text}
use purple_wolf.Relay.Tail.Continuity.{after, Follows, joined, Continues, Continues-trans}
use purple_wolf.Relay.Tail.{
  Tail, Turn, Next, u64_max, bookmark_text, read_bookmark, start_with, open_at_start, turn,
  run_tail,
}
use purple_wolf.Relay.Tail.Turns.{Turned, goes_on, stops, fails, turn-Turned}

run_tail-again :
    (t : Turn) (ts : List Turn) (s s' : Tail)
    → turn t s ≡ Next.again s'
    → run_tail s (t ∷ ts) ≡ run_tail s' ts
unfolding run_tail
run_tail-again t ts s s' e = rw (run_tail, e) refl

run_tail-done :
    (t : Turn) (ts : List Turn) (s s' : Tail)
    → turn t s ≡ Next.done s'
    → run_tail s (t ∷ ts) ≡ Next.done s'
unfolding run_tail
run_tail-done t ts s s' e = rw (run_tail, e) refl

run_tail-failed :
    (t : Turn) (ts : List Turn) (s s' : Tail)
    → turn t s ≡ Next.failed s'
    → run_tail s (t ∷ ts) ≡ Next.failed s'
unfolding run_tail
run_tail-failed t ts s s' e = rw (run_tail, e) refl

done-injective : (s s' : Tail) → Next.done s ≡ Next.done s' → s ≡ s'
done-injective s s' e = cc

failed-done : (s s' : Tail) → ¬ (Next.failed s ≡ Next.done s')
failed-done s s' e = cc

again-done : (s s' : Tail) → ¬ (Next.again s ≡ Next.done s')
again-done s s' e = cc

resumed :
    (i j position len : ℕ) (from_beginning : Bool)
    → i ≡ j
    → position ≤ len
    → start_with (some (record { inode = i; position = position })) from_beginning j len ≡ position
resumed i j position len from_beginning e there =
    let t : i == j ≡ true = ground arith in rw t (omega arith)

-- A clean stop after readings of one file.
pub record Stopped (content : Bytes) (s s' : Tail) : Type 0 where
  pub continues : Continues content s s'
  pub file : s'.bookmark_file ≡ some (bookmark_text s'.position s'.inode)

module _ (content : Bytes) where
  Stopped-after : (a b c : Tail) → Continues content a b → Stopped content b c → Stopped content a c
  Stopped-after a b c x y = record {
    continues = Continues-trans content a b c x y.continues;
    file = y.file;
  }

  -- The rest of the run, given what it comes to from any state.
  next-Stopped :
      (t : Turn) (ts : List Turn) (s s' : Tail) (n : Next)
      → ((s₁ : Tail)
          → Follows content s₁.inode s₁.position ts
          → run_tail s₁ ts ≡ Next.done s'
          → Stopped content s₁ s')
      → Follows content s.inode (after s.position t.read) ts
      → t.saved ≡ true
      → run_tail s (t ∷ ts) ≡ Next.done s'
      → turn t s ≡ n
      → Turned content t s n
      → Stopped content s s'
  next-Stopped t ts s s' n more rest saved h e (goes_on s₁ c p) = Stopped-after s s₁ s' c (
      more s₁
        (subst (λ i. Follows content i s₁.position ts) (sym c.inode)
          (subst (λ q. Follows content s.inode q ts) (sym p) rest))
        (sym (run_tail-again t ts s s₁ e) ∙ h))
  next-Stopped t ts s s' n more rest saved h e (stops s₁ c file) =
      subst (Stopped content s) (done-injective s₁ s' (sym (run_tail-done t ts s s₁ e) ∙ h))
        (record { continues = c; file = file saved })
  next-Stopped t ts s s' n more rest saved h e (fails s₁ c) =
      absurd (failed-done s₁ s' (sym (run_tail-failed t ts s s₁ e) ∙ h))

  run_tail-Stopped :
      (ts : List Turn) (s s' : Tail)
      → Follows content s.inode s.position ts
      → All (λ t. t.saved ≡ true) ts
      → run_tail s ts ≡ Next.done s'
      → Stopped content s s'
  unfolding run_tail
  run_tail-Stopped [] s s' follows saved h = absurd (again-done s s' h)
  run_tail-Stopped (t ∷ ts) s s' (here, same, there, rest) (saved, all_saved) h =
      next-Stopped t ts s s' (turn t s)
        (λ s₁ follows h'. run_tail-Stopped ts s₁ s' follows all_saved h') rest saved h refl
        (turn-Turned content t s here same there)

  -- Where every reading is of one file that keeps its place, the receiver stays and bookmarks can be
  -- written, a run that returns without an error has sent, in order and each once, exactly the bytes from
  -- its first position to its last; and the next start on that file, if it has not shrunk, begins at the
  -- last position, whatever `from_beginning` says. Conditions: inode and position are 64-bit numbers.
  pub run_tail-restart :
      (ts : List Turn) (s s' : Tail) (from_beginning : Bool) (len : ℕ)
      → Follows content s.inode s.position ts
      → All (λ t. t.saved ≡ true) ts
      → run_tail s ts ≡ Next.done s'
      → s'.inode ≤ u64_max
      → s'.position ≤ u64_max
      → s'.position ≤ len
      → (more : List Bytes) × (s'.sent ≡ s.sent ++ more)
        × (drop s.position content ≡ joined more ++ drop s'.position content)
        × (open_at_start s'.bookmark_file from_beginning s.inode len ≡ s'.position)
  unfolding open_at_start
  run_tail-restart ts s s' from_beginning len follows saved h fits fits' there =
      let stop = run_tail-Stopped ts s s' follows saved h in
      let c = stop.continues in
      (
        c.more,
        c.sent,
        c.whole,
        ap (λ f. start_with (read_bookmark f) from_beginning s.inode len) stop.file
            ∙ ap (λ b. start_with b from_beginning s.inode len)
                (read_bookmark-bookmark_text s'.inode s'.position fits fits')
            ∙ resumed s'.inode s.inode s'.position len from_beginning c.inode there,
      )
