-- ===== src/Relay/Parser/Ansi.antt =====
-- What `strip_ansi` leaves of a coloured line.
use purple_wolf.Prelude.{
  ℕ, true, false, ◌==◌, List, [], ◌∷◌, ◌++◌, append_assoc, append-nil, Str, ◌≡◌, refl, sym, ap, ◌∙◌,
  inl, inr, arith, contains, any, All, Bool-cases,
}
use purple_wolf.Relay.Parser.{
  Place, is_ascii_alphabetic, ansi_next, ansi_kept, strip_loop, strip_ansi,
}

-- A coloured line: texts, and control sequences `ESC [ parameters letter`.
pub data Piece : Type 0 where
  text : Str → Piece
  control : Str → ℕ → Piece

abbrev pub written : Piece → Str
written (text s) = s
written (control parameters letter) = 0x1b ∷ b'[' ∷ (parameters ++ letter ∷ [])

abbrev pub seen : Piece → Str
seen (text s) = s
seen (control parameters letter) = []

abbrev pub render : List Piece → Str
render [] = []
render (p ∷ ps) = written p ++ render ps

abbrev pub plain : List Piece → Str
plain [] = []
plain (p ∷ ps) = seen p ++ plain ps

-- A text has no ESC, the parameters no letter, and the letter is one.
abbrev pub Fine : Piece → Type 0
Fine (text s) = contains 0x1b s ≡ false
Fine (control parameters letter) =
    (any is_ascii_alphabetic parameters ≡ false) × (is_ascii_alphabetic letter ≡ true)

strip_loop-text :
    (s t : Str)
    → contains 0x1b s ≡ false
    → strip_loop Place.outside (s ++ t) ≡ s ++ strip_loop Place.outside t
unfolding strip_loop ansi_next ansi_kept contains
strip_loop-text [] t h = refl
strip_loop-text (c ∷ s) t h =
    let here : c == 0x1b ≡ false = ground arith in
    let later : contains 0x1b s ≡ false = ground arith in
    rw here (ap (◌∷◌ c) (strip_loop-text s t later))

strip_loop-control :
    (parameters t : Str) (letter : ℕ)
    → any is_ascii_alphabetic parameters ≡ false
    → is_ascii_alphabetic letter ≡ true
    → strip_loop Place.before_terminator (parameters ++ letter ∷ t) ≡ strip_loop Place.outside t
unfolding strip_loop ansi_next ansi_kept any
strip_loop-control [] t letter h l = rw l refl
strip_loop-control (c ∷ parameters) t letter h l =
    let here : is_ascii_alphabetic c ≡ false = ground arith in
    let later : any is_ascii_alphabetic parameters ≡ false = ground arith in
    rw here (strip_loop-control parameters t letter later l)

strip_loop-render :
    (ps : List Piece) → All Fine ps → strip_loop Place.outside (render ps) ≡ plain ps
unfolding strip_loop ansi_next ansi_kept
strip_loop-render [] fine = refl
strip_loop-render (text s ∷ ps) (f, fine) =
    strip_loop-text s (render ps) f ∙ ap (λ z. s ++ z) (strip_loop-render ps fine)
strip_loop-render (control parameters letter ∷ ps) (f, fine) =
    rw (append_assoc parameters (letter ∷ []) (render ps))
      (strip_loop-control parameters (render ps) letter f.0 f.1 ∙ strip_loop-render ps fine)

strip_loop-whole : (s : Str) → contains 0x1b s ≡ false → strip_loop Place.outside s ≡ s
unfolding strip_loop
strip_loop-whole s h =
    ap (strip_loop Place.outside) (sym (append-nil s)) ∙ strip_loop-text s [] h ∙ append-nil s

strip_ansi-loop : (s : Str) → strip_ansi s ≡ strip_loop Place.outside s
unfolding strip_ansi
strip_ansi-loop s = elim (Bool-cases (contains 0x1b s)) [
  | inl some_esc ↦ rw some_esc refl
  | inr none_there ↦ rw none_there (sym (strip_loop-whole s none_there))
]

-- Of a line made of texts and control sequences exactly the texts stay.
pub strip_ansi-render : (ps : List Piece) → All Fine ps → strip_ansi (render ps) ≡ plain ps
strip_ansi-render ps fine = strip_ansi-loop (render ps) ∙ strip_loop-render ps fine

contains-strip_loop :
    (a : ℕ) (place : Place) (s : Str) → contains a (strip_loop place s) ≡ true → contains a s ≡ true
unfolding strip_loop contains
contains-strip_loop a place [] h = h
contains-strip_loop a place (c ∷ s) h =
    let more = contains-strip_loop a (ansi_next place c) s in
    elim (Bool-cases (ansi_kept place c)) [
      | inl kept ↦ ground (arith, kept, more)
      | inr gone ↦ ground (arith, gone, more)
    ]

-- No byte comes in.
pub contains-strip_ansi : (a : ℕ) (s : Str) → contains a (strip_ansi s) ≡ true → contains a s ≡ true
contains-strip_ansi a s h =
    contains-strip_loop a Place.outside s (ap (contains a) (sym (strip_ansi-loop s)) ∙ h)
