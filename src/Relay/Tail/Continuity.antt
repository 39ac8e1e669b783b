-- ===== src/Relay/Tail/Continuity.antt =====
-- What has been sent of a file that only grows, and where the next run starts.
use purple_wolf.Prelude.{
  ℕ, ◌+◌, Bool, true, false, List, [], ◌∷◌, ◌++◌, append_assoc, append-nil, length, length-append,
  drop, drop-drop, drop-append, none, Bytes, ◌≡◌, refl, sym, ap, ◌∙◌, arith,
}
use purple_wolf.Relay.Tail.{
  Tail, Turn, ReadLine, failed, bytes, Next, again, done, detect_rotation, persist_bookmark,
}

-- The bytes of a reading are those of the file `content` from `position` on, if it is no error.
abbrev pub ReadsAt : Bytes → ℕ → ReadLine → Type 0
ReadsAt content position failed = Unit
ReadsAt content position (bytes line) = (rest : Bytes) × (drop position content ≡ line ++ rest)

abbrev pub after : ℕ → ReadLine → ℕ
after position failed = position
after position (bytes line) = position + length line

-- The readings through the turns are of the one file, and no turn sees another file under the path or a
-- shorter one, or the receiver gone.
abbrev pub Follows : Bytes → ℕ → ℕ → List Turn → Type 0
Follows content inode position [] = Unit
Follows content inode position (t ∷ ts) =
    ReadsAt content position t.read
    × (detect_rotation t.path inode position ≡ none)
    × (t.receiver_gone ≡ false)
    × Follows content inode (after position t.read) ts

abbrev pub joined : List Bytes → Bytes
joined [] = []
joined (l ∷ ls) = l ++ joined ls

abbrev pub state : Next → Tail
state (again s) = s
state (done s) = s
state (Next.failed s) = s

-- From `s` to `s'`: what stood in the file behind the position was sent, or stands behind it still.
pub record Continues (content : Bytes) (s s' : Tail) : Type 0 where
  pub inode : s'.inode ≡ s.inode
  pub more : List Bytes
  pub sent : s'.sent ≡ s.sent ++ more
  pub position : s'.position ≡ s.position + length (joined more)
  pub whole : drop s.position content ≡ joined more ++ drop s'.position content

pub record Same (s s' : Tail) : Type 0 where
  pub inode : s'.inode ≡ s.inode
  pub position : s'.position ≡ s.position
  pub sent : s'.sent ≡ s.sent

pub persist_bookmark-Same : (saved : Bool) (s : Tail) → Same s (persist_bookmark saved s)
unfolding persist_bookmark
persist_bookmark-Same true s = record { inode = refl; position = refl; sent = refl }
persist_bookmark-Same false s = record { inode = refl; position = refl; sent = refl }

module _ (content : Bytes) where
  pub Same-Continues : (s s' : Tail) → Same s s' → Continues content s s'
  Same-Continues s s' e = record {
    inode = e.inode;
    more = [];
    sent = e.sent ∙ sym (append-nil s.sent);
    position = omega (arith, e.position);
    whole = ap (λ n. drop n content) (sym e.position);
  }

  pub line-Continues :
      (s s' : Tail) (line rest : Bytes)
      → drop s.position content ≡ line ++ rest
      → s'.inode ≡ s.inode
      → s'.position ≡ s.position + length line
      → s'.sent ≡ s.sent ++ line ∷ []
      → Continues content s s'
  line-Continues s s' line rest reads inode position sent =
      let behind : drop s'.position content ≡ rest =
        ap (λ n. drop n content) position
        ∙ sym (drop-drop s.position (length line) content)
        ∙ ap (drop (length line)) reads
        ∙ drop-append line rest in
      record {
        inode = inode;
        more = line ∷ [];
        sent = sent;
        position = omega (arith, position, length-append line []);
        whole =
            reads
            ∙ ap (λ z. line ++ z) (sym behind)
            ∙ ap (λ z. z ++ drop s'.position content) (sym (append-nil line));
      }

  joined-append : (ls ms : List Bytes) → joined (ls ++ ms) ≡ joined ls ++ joined ms
  joined-append [] ms = refl
  joined-append (l ∷ ls) ms =
      ap (λ z. l ++ z) (joined-append ls ms) ∙ sym (append_assoc l (joined ls) (joined ms))

  pub Continues-trans :
      (a b c : Tail) → Continues content a b → Continues content b c → Continues content a c
  Continues-trans a b c x y = record {
    inode = y.inode ∙ x.inode;
    more = x.more ++ y.more;
    sent = y.sent ∙ ap (λ z. z ++ y.more) x.sent ∙ append_assoc a.sent x.more y.more;
    position = omega (
      arith,
      x.position,
      y.position,
      ap length (joined-append x.more y.more),
      length-append (joined x.more) (joined y.more),
    );
    whole =
        x.whole
        ∙ ap (λ z. joined x.more ++ z) y.whole
        ∙ sym (append_assoc (joined x.more) (joined y.more) (drop c.position content))
        ∙ ap (λ z. z ++ drop c.position content) (sym (joined-append x.more y.more));
  }
