-- ===== src/Traefik/Host/Tests.antt =====
-- Reads from the host, and their property at concrete values.
use purple_wolf.Prelude.{
  false, List, [], ◌∷◌, ◌++◌, All, some, Str, Bytes, codes, contains, ◌≡◌, refl,
}
use purple_wolf.Traefik.Host.Multi.{host}
use purple_wolf.Traefik.Host.{
  Call, clip, read_buf, split_packed, nul_loop, split_nul, multi_of, read_buf_multi,
  join_header_values,
}

program : Unit {0}
unfolding read_buf_multi multi_of split_nul nul_loop split_packed read_buf clip join_header_values
    contains
program = tt

abbrev values : List Bytes
values = codes "a" ∷ codes "bc" ∷ []

two_values : read_buf_multi (host values) ≡ values
unfolding program
two_values = refl

-- A value that is not ended by NUL is dropped.
unended : split_nul (codes "a" ++ 0 ∷ codes "b") 2 ≡ codes "a" ∷ []
unfolding program
unended = refl

-- A host that asks for more than it may gets no value.
abbrev greedy : Call
greedy call limit = (0x1000000, [])

refused : read_buf greedy ≡ []
unfolding program
refused = refl

abbrev same : Bytes → Str
same value = value

repeated : join_header_values same values ≡ some (codes "a, bc")
unfolding program
repeated = refl

without_nul : All (λ v. contains 0 v ≡ false) values
unfolding program
without_nul = (refl, (refl, tt))
