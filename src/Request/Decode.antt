-- ===== src/Request/Decode.antt =====
-- What `decode` and `build_inspectable_headers` of crates/purple-wolf-core/src/request.rs amount to.
use purple_wolf.Prelude.{
  ℕ, zero, suc, Bool, true, false, List, [], ◌∷◌, flat_map, keep, if◌then◌else◌, Bytes, Str, str_eq,
  str_eq→eq, contains, not, str_eq_refl, ◌≡◌, refl, sym, inl, inr, Bool-cases,
}
use purple_wolf.Request.{
  Header, is_inspectable, decode_loop, decode, header_forms, build_inspectable_headers,
}

if-swap {ℓ} : {A : Type ℓ} (b : Bool) (x y : A) → (if not b then x else y) ≡ (if b then y else x)
if-swap true x y = refl
if-swap false x y = refl

-- `plain`: percent-decoding leaves a text without `%` alone.
module _ (percent_decode : Str → Str) where
  passes : ℕ → Str → Str
  passes zero s = s
  passes (suc n) s = passes n (percent_decode s)

  passes_fixed : (n : ℕ) (s : Str) → percent_decode s ≡ s → passes n s ≡ s
  unfolding passes
  passes_fixed zero s e = refl
  passes_fixed (suc n) s e = rw e (passes_fixed n s e)

  module _ (plain : (s : Str) → contains b'%' s ≡ false → percent_decode s ≡ s) where
    decode_loop-passes : (n : ℕ) (s : Str) → decode_loop percent_decode n s ≡ passes n s
    unfolding decode_loop passes
    decode_loop-passes zero s = refl
    decode_loop-passes (suc n) s = elim (Bool-cases (contains b'%' s)) [
      | inr none_left ↦ rw none_left (sym (passes_fixed (suc n) s (plain s none_left)))
      | inl escaped ↦ elim (Bool-cases (str_eq (percent_decode s) s)) [
        | inl same ↦ rw (escaped, same) (sym (passes_fixed (suc n) s (str_eq→eq _ s same)))
        | inr changed ↦ rw (escaped, changed) (decode_loop-passes n (percent_decode s))
      ]
    ]

    -- When a pass leaves every text without `%` alone, the early exits of `decode` lose nothing: it is
    -- three passes, so an attack encoded up to three times is inspected in clear text.
    pub decode-thrice :
        (s : Str) → decode percent_decode s ≡ percent_decode (percent_decode (percent_decode s))
    unfolding decode passes
    decode-thrice s = decode_loop-passes 2 (percent_decode s)

    -- The value of a header, and its decoded form where that is another text.
    abbrev pub both_forms : Str → List Bytes
    both_forms v =
        let decoded = percent_decode (percent_decode (percent_decode v)) in
        if str_eq decoded v then v ∷ [] else v ∷ decoded ∷ []

    header_forms-both : (v : Str) → header_forms percent_decode v ≡ both_forms v
    unfolding header_forms
    header_forms-both v = elim (Bool-cases (contains b'%' v)) [
      | inl escaped ↦ rw (escaped, decode-thrice v) (if-swap (str_eq _ v) _ _)
      | inr none_left ↦
          rw (none_left, plain v none_left, plain v none_left, plain v none_left, str_eq_refl v)
    ]

    -- When a pass leaves every text without `%` alone, what is inspected of the headers is, for each
    -- header on the allow-list in order, its value and, where it differs, its value decoded three times.
    pub build_inspectable_headers-flat_map :
        (hs : List Header)
        → build_inspectable_headers percent_decode hs
          ≡ flat_map (λ h. both_forms h.1) (keep (λ h. is_inspectable h.0) hs)
    unfolding build_inspectable_headers flat_map keep
    build_inspectable_headers-flat_map [] = refl
    build_inspectable_headers-flat_map ((k, v) ∷ hs) = elim (Bool-cases (is_inspectable k)) [
      | inl listed ↦ rw (listed, header_forms-both v, build_inspectable_headers-flat_map hs)
      | inr other ↦ rw (other, build_inspectable_headers-flat_map hs)
    ]
