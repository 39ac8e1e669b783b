-- ===== src/Relay/Tail/Bookmarks.antt =====
-- A bookmark written and read again.
use purple_wolf.Prelude.{
  ℕ, ◌≤◌, all, is_digit, show, show-cons, show-digits, parse_unsigned-show, split_whitespace,
  split_whitespace-digits, List, [], ◌∷◌, ◌++◌, some, Str, ◌≡◌, refl, sym, ap, ◌∙◌,
}
use purple_wolf.Relay.Tail.{u64_max, bookmark_text, first_two, read_bookmark}

first_two-show :
    (inode position : ℕ) (a b : Str) (rest : List Str)
    → show inode ≡ a
    → show position ≡ b
    → inode ≤ u64_max
    → position ≤ u64_max
    → first_two (a ∷ b ∷ rest) ≡ some (record { inode = inode; position = position })
unfolding first_two
first_two-show inode position a b rest e e' fits fits' =
    rw
      (
        ← e,
        ← e',
        parse_unsigned-show u64_max inode fits,
        parse_unsigned-show u64_max position fits',
      )
      refl

shape :
    (a b : Str) {x y : Str}
    → a ≡ x
    → b ≡ y
    → a ++ b' ' ∷ (b ++ 10 ∷ []) ≡ x ++ b' ' ∷ (y ++ 10 ∷ [])
shape a b e e' = rw (e, e') refl

-- What `persist_bookmark` writes, `read_bookmark` reads, for any 64-bit inode and position.
pub read_bookmark-bookmark_text :
    (inode position : ℕ)
    → inode ≤ u64_max
    → position ≤ u64_max
    → read_bookmark (some (bookmark_text position inode))
      ≡ some (record { inode = inode; position = position })
unfolding read_bookmark bookmark_text
read_bookmark-bookmark_text inode position fits fits' =
    let (c, cs, e) = show-cons inode in
    let (d, ds, e') = show-cons position in
    let (rest, split) =
      split_whitespace-digits c d cs ds (ap (all is_digit) (sym e) ∙ show-digits inode)
        (ap (all is_digit) (sym e') ∙ show-digits position) in
    ap (λ z. first_two (split_whitespace z)) (shape (show inode) (show position) e e')
    ∙ ap first_two split
    ∙ first_two-show inode position (c ∷ cs) (d ∷ ds) rest e e' fits fits'
