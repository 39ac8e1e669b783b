-- ===== src/Traefik/Scalar/Decimal.antt =====
-- Numbers that became texts on the way: `de_lenient_usize` and `de_lenient_u32` of
-- crates/purple-wolf-traefik/src/config.rs.
use purple_wolf.Prelude.{
  ℕ, ◌≤◌, true, leb, all, is_digit, show, show-digits, trim-digits, parse_unsigned-show, some, ◌≡◌,
  refl, arith,
}
use purple_wolf.Traefik.Scalar.{Scalar, try_from, de_lenient_unsigned}

-- A number that Traefik has made a text is read as the number would be: if it is in range, both forms are
-- accepted and give that number.
pub de_lenient_unsigned-show :
    (most n : ℕ)
    → n ≤ most
    → (de_lenient_unsigned most (Scalar.text (show n)) ≡ some n)
      × (de_lenient_unsigned most (Scalar.num n) ≡ some n)
unfolding de_lenient_unsigned try_from
de_lenient_unsigned-show most n fits =
    let digits : all is_digit (show n) ≡ true = show-digits n in
    let t : leb n most ≡ true = ground arith in
    (rw (trim-digits (show n) digits) (parse_unsigned-show most n fits), rw t refl)
