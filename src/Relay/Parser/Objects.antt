-- ===== src/Relay/Parser/Objects.antt =====
-- What `find_json_object` finds: the grammar of balanced objects.
use native.Mathlib.Numerals.{add-one}
use purple_wolf.Prelude.{
  ℕ, suc, ◌+◌, ◌-◌, Bool, true, false, ◌==◌, [], ◌∷◌, ◌++◌, append_assoc, some, Bytes, ◌≡◌, ◌≢◌,
  refl, ap, arith, contains, length, length-append, drop-append, ==-ne,
}
use purple_wolf.Relay.Parser.{
  Scan, scan_step, scan_string, closes, scan_loop, position, find_json_object,
}

-- What stands between the quotes of a JSON string.
pub data Quoted : Bytes → Type 0 where
  end : Quoted []
  plain : (b : ℕ) {bs : Bytes} → b ≢ b'\\' → b ≢ b'"' → Quoted bs → Quoted (b ∷ bs)
  escaped : (b : ℕ) {bs : Bytes} → Quoted bs → Quoted (b'\\' ∷ b ∷ bs)

-- What stands between the braces of an object: strings, objects, and bytes that are neither a quote nor
-- a brace.
pub data Inside : Bytes → Type 0 where
  end : Inside []
  plain : (b : ℕ) {bs : Bytes} → b ≢ b'"' → b ≢ b'{' → b ≢ b'}' → Inside bs → Inside (b ∷ bs)
  quoted : {qs bs : Bytes} → Quoted qs → Inside bs → Inside (b'"' ∷ (qs ++ b'"' ∷ bs))
  object : {os bs : Bytes} → Inside os → Inside bs → Inside (b'{' ∷ (os ++ b'}' ∷ bs))

abbrev at : ℕ → Bool → Bool → Scan
at d q e = record { depth = d; in_string = q; escape = e }

scan-quoted :
    (d i : ℕ) (rest : Bytes) {qs : Bytes}
    → Quoted qs
    → scan_loop (at d true false) i (qs ++ b'"' ∷ rest)
      ≡ scan_loop (at d false false) (i + length qs + 1) rest
unfolding scan_loop scan_step scan_string closes
scan-quoted d i rest end = ap (λ n. scan_loop (at d false false) n rest) (omega arith)
scan-quoted d i rest (plain b {bs} m n q) =
    rw (==-ne b b'\\' m, ==-ne b b'"' n, scan-quoted d (i + 1) rest q)
      (ap (λ n. scan_loop (at d false false) n rest) (omega arith))
scan-quoted d i rest (escaped b {bs} q) =
    rw (scan-quoted d (i + 1 + 1) rest q)
      (ap (λ n. scan_loop (at d false false) n rest) (omega arith))

suc-sub-one : (n : ℕ) → suc n - 1 ≡ n
suc-sub-one n = omega arith

scan-close :
    (d i : ℕ) (rest : Bytes)
    → scan_loop (at (suc (suc d)) false false) i (b'}' ∷ rest)
      ≡ scan_loop (at (suc d) false false) (i + 1) rest
unfolding scan_loop scan_step closes
scan-close d i rest = rw (suc-sub-one (suc d), ==-ne (suc d) 0 (λ e. absurd (omega arith))) refl

scan-inside :
    (d i : ℕ) (rest : Bytes) {xs : Bytes}
    → Inside xs
    → scan_loop (at (suc d) false false) i (xs ++ rest)
      ≡ scan_loop (at (suc d) false false) (i + length xs) rest
unfolding scan_loop scan_step closes
scan-inside d i rest end = ap (λ n. scan_loop (at (suc d) false false) n rest) (omega arith)
scan-inside d i rest (plain b {bs} m n o q) =
    rw (==-ne b b'"' m, ==-ne b b'{' n, ==-ne b b'}' o, scan-inside d (i + 1) rest q)
      (ap (λ n. scan_loop (at (suc d) false false) n rest) (omega arith))
scan-inside d i rest (quoted {qs} {bs} q r) =
    rw
      (
        append_assoc qs (b'"' ∷ bs) rest,
        scan-quoted (suc d) (i + 1) (bs ++ rest) q,
        scan-inside d (i + 1 + length qs + 1) rest r,
      )
      (ap (λ n. scan_loop (at (suc d) false false) n rest)
        (omega (arith, length-append qs (b'"' ∷ bs))))
scan-inside d i rest (object {os} {bs} q r) =
    rw
      (
        append_assoc os (b'}' ∷ bs) rest,
        add-one,
        scan-inside (suc d) (i + 1) (b'}' ∷ (bs ++ rest)) q,
        scan-close d (i + 1 + length os) (bs ++ rest),
        scan-inside d (i + 1 + length os + 1) rest r,
      )
      (ap (λ n. scan_loop (at (suc d) false false) n rest)
        (omega (arith, length-append os (b'}' ∷ bs))))

scan-object :
    (i : ℕ) (rest : Bytes) {xs : Bytes}
    → Inside xs
    → scan_loop (at 0 false false) i (b'{' ∷ (xs ++ b'}' ∷ rest)) ≡ some (i + 1 + length xs)
unfolding scan_loop scan_step closes
scan-object i rest {xs} inside = rw (scan-inside 0 (i + 1) (b'}' ∷ rest) inside) refl

pub position-append :
    (a : ℕ) (pre rest : Bytes)
    → contains a pre ≡ false
    → position a (pre ++ a ∷ rest) ≡ some (length pre)
unfolding position contains
position-append a [] rest apart = ground arith
position-append a (b ∷ pre) rest apart =
    let later : contains a pre ≡ false = ground arith in
    let here : b == a ≡ false = ground arith in
    rw (here, position-append a pre rest later) (ap some (omega arith))

-- Where no brace stands before a balanced object, its bounds are found, whatever follows it: strings with
-- braces and escaped quotes and nested objects are stepped over.
pub find_json_object-Inside :
    (pre xs rest : Bytes)
    → contains b'{' pre ≡ false
    → Inside xs
    → find_json_object (pre ++ (b'{' ∷ (xs ++ b'}' ∷ rest)))
      ≡ some (length pre, length pre + 1 + length xs)
unfolding find_json_object
find_json_object-Inside pre xs rest apart inside =
    rw
      (
        position-append b'{' pre (xs ++ b'}' ∷ rest) apart,
        drop-append pre (b'{' ∷ (xs ++ b'}' ∷ rest)),
        scan-object (length pre) rest inside,
      )
      refl
