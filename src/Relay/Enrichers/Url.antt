-- ===== src/Relay/Enrichers/Url.antt =====
-- The URL of an enrichment: `build_enrich_url` of crates/purple-wolf-relay/src/enrichers/http.rs, over the
-- percent-encoding crate's encoder as a parameter.
mod Tests
use purple_wolf.Prelude.{
  ℕ, zero, suc, ◌-◌, Bool, true, false, not, ◌||◌, ◌&&◌, ltb, ◌==◌, if◌then◌else◌, List, [], ◌∷◌,
  ◌++◌, keep, any, all, length, starts_with, ◌≡◌, refl, sym, ◌∙◌, Bool-cases, inl, inr, Str, codes,
  arith,
}

-- `CONTROLS` and what is added to it.
unfoldable pub url_value_encode : ℕ → Bool
url_value_encode b =
    (ltb b 32
      || (b == 127
          || (b == b'%'
              || (b == b'/'
                  || (b == b'\\'
                      || (b == b'?'
                          || (b == b'#'
                              || (b == b'&'
                                  || (b == b'='
                                      || (b == b'@'
                                          || (b == b':' || (b == b' ' || b == b'.'))))))))))))

-- `str::replace`, with the number of bytes of the pattern that are still to be skipped.
unfoldable pub replace_from : ℕ → Str → Str → Str → Str
replace_from skip pat with_text [] = []
replace_from (suc skip) pat with_text (c ∷ s) = replace_from skip pat with_text s
replace_from zero pat with_text (c ∷ s) =
    let hit = starts_with pat (c ∷ s) in
    let rest = replace_from (if hit then length pat - 1 else 0) pat with_text s in
    if hit then with_text ++ rest else c ∷ rest

unfoldable pub build_enrich_url : ((ℕ → Bool) → Str → Str) → Str → Str → Str
unfolding replace_from url_value_encode
build_enrich_url encode template value =
    replace_from 0 (codes "{value}") (encode url_value_encode value) template

-- The bytes that give a URL its structure, spaces and control bytes.
abbrev pub structural : ℕ → Bool
structural b = (ltb b 32 || b == 127) || any (λ c. c == b) (codes "/\\?#&=@:. ")

-- What an escape is made of.
abbrev pub escape_byte : ℕ → Bool
escape_byte b = any (λ c. c == b) (codes "%0123456789ABCDEF")

-- No byte of the set is left, but for those of the escapes.
abbrev pub Encodes : ((ℕ → Bool) → Str → Str) → Type 0
Encodes encode =
    (set : ℕ → Bool) (v : Str) → all (λ b. not (set b) || escape_byte b) (encode set v) ≡ true

keep-append : (p : ℕ → Bool) (xs ys : Str) → keep p (xs ++ ys) ≡ keep p xs ++ keep p ys
unfolding keep
keep-append p [] ys = refl
keep-append p (x ∷ xs) ys = ground (arith, keep-append p xs ys)

keep-none :
    (p q : ℕ → Bool) (xs : Str)
    → all q xs ≡ true
    → ((x : ℕ) → q x ≡ true → p x ≡ false)
    → keep p xs ≡ []
unfolding keep all
keep-none p q [] h n = refl
keep-none p q (x ∷ xs) h n = ground (arith, n x, keep-none p q xs)

keep-cons :
    (p : ℕ → Bool) (x : ℕ) (xs ys : Str) → keep p xs ≡ keep p ys → keep p (x ∷ xs) ≡ keep p (x ∷ ys)
unfolding keep
keep-cons p x xs ys h = ground arith

replace_from-keep :
    (p : ℕ → Bool) (skip : ℕ) (pat v w t : Str)
    → keep p v ≡ keep p w
    → keep p (replace_from skip pat v t) ≡ keep p (replace_from skip pat w t)
unfolding replace_from
replace_from-keep p skip pat v w [] h = refl
replace_from-keep p (suc skip) pat v w (c ∷ t) h = replace_from-keep p skip pat v w t h
replace_from-keep p zero pat v w (c ∷ t) h = elim (Bool-cases (starts_with pat (c ∷ t))) [
  | inl hit ↦
      let ih = replace_from-keep p (length pat - 1) pat v w t h in
      rw hit (
        keep-append p v (replace_from (length pat - 1) pat v t)
        ∙ cc (keep-append p w (replace_from (length pat - 1) pat w t)))
  | inr miss ↦ rw miss (keep-cons p c _ _ (replace_from-keep p 0 pat v w t h))
]

clean-structural :
    (b : ℕ) → (not (url_value_encode b) || escape_byte b) ≡ true → structural b ≡ false
unfolding url_value_encode any
clean-structural b h = ground arith

clean-keep :
    (s : Str)
    → all (λ b. not (url_value_encode b) || escape_byte b) s ≡ true
    → keep structural s ≡ []
clean-keep s h =
    keep-none structural (λ b. not (url_value_encode b) || escape_byte b) s h clean-structural

-- Whatever the value of the label, the URL has the slashes, backslashes, question marks, number signs,
-- ampersands, equals signs, at signs, colons, dots, spaces and control bytes exactly as with any other
-- value, in number and order, so a value cannot add one. Condition: the encoder leaves no byte of the set
-- it is given but the percent signs and hexadecimal digits of its escapes.
pub build_enrich_url-structural :
    (encode : (ℕ → Bool) → Str → Str)
    → Encodes encode
    → (template v w : Str)
    → keep structural (build_enrich_url encode template v)
      ≡ keep structural (build_enrich_url encode template w)
unfolding build_enrich_url
build_enrich_url-structural encode clean template v w =
    replace_from-keep structural 0 (codes "{value}") _ _ template
      (clean-keep _ (clean url_value_encode v) ∙ sym (clean-keep _ (clean url_value_encode w)))
