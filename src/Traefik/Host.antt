-- ===== src/Traefik/Host.antt =====
-- Reading values of unknown length from the host: crates/purple-wolf-traefik/src/host.rs.
pub mod Multi
mod Tests
use purple_wolf.Prelude.{
  ℕ, zero, suc, ◌+◌, ◌/◌, ◌%◌, ◌^◌, min, Bool, ltb, leb, ◌==◌, if◌then◌else◌, List, [], ◌∷◌, ◌++◌,
  take, Option, none, some, Str, Bytes,
}
use purple_wolf.Traefik.Body.{max_alloc}

abbrev pub scratch_size : ℕ
scratch_size = 2048

abbrev pub max_multi_values : ℕ
max_multi_values = 1024

-- The bits of an `i32` read as a number, and 0 where it is negative: `max(0) as usize`.
unfoldable pub clip : ℕ → ℕ
clip bits = if leb (2 ^ 31) bits then 0 else bits

-- A host call: from its number and the limit to the bits that it returns and the buffer that it leaves.
abbrev pub Call : Type 0
Call = ℕ → ℕ → ℕ × Bytes

unfoldable pub read_buf : Call → Bytes
unfolding clip
read_buf call =
    let (bits, scratch) = call 0 scratch_size in
    let needed = clip bits in
    let (bits', big) = call 1 needed in
    let actual = clip bits' in
    if leb needed scratch_size
    then take needed scratch
    else if ltb max_alloc needed
    then []
    else if ltb needed actual
    then []
    else take actual big

-- The count and the length in the bits of an `i64`.
unfoldable pub split_packed : ℕ → ℕ × ℕ
unfolding clip
split_packed n = (clip (n / 2 ^ 32), clip (n % 2 ^ 32))

-- The loop, with the values still to come and the bytes since the last NUL.
unfoldable pub nul_loop : ℕ → Bytes → Bytes → List Bytes
nul_loop n value [] = []
nul_loop zero value (b ∷ buf) = []
nul_loop (suc n) value (b ∷ buf) =
    let rest =
      nul_loop (if b == 0 then n else suc n) (if b == 0 then [] else value ++ b ∷ []) buf in
    if b == 0 then value ∷ rest else rest

unfoldable pub split_nul : Bytes → ℕ → List Bytes
unfolding nul_loop
split_nul buf count = let n = min count max_multi_values in if n == 0 then [] else nul_loop n [] buf

-- The heads are the count and the length of each call.
unfoldable pub multi_of : ℕ × ℕ → Bytes → ℕ × ℕ → Bytes → List Bytes
unfolding split_nul
multi_of (count, byte_len) scratch (count', byte_len') big =
    if leb byte_len scratch_size
    then split_nul (take byte_len scratch) count
    else if ltb max_alloc byte_len
    then []
    else if ltb byte_len byte_len'
    then []
    else split_nul (take byte_len' big) count'

unfoldable pub read_buf_multi : Call → List Bytes
unfolding split_packed multi_of
read_buf_multi call =
    let first = call 0 scratch_size in
    let head = split_packed first.0 in
    let second = call 1 head.1 in multi_of head first.1 (split_packed second.0) second.1

abbrev pub join_rest : Bytes → List Bytes → Bytes
join_rest joined [] = joined
join_rest joined (value ∷ values) = join_rest (joined ++ (b',' ∷ b' ' ∷ value)) values

-- `lossy` is the conversion of the standard library from bytes to a text.
unfoldable pub join_header_values : (Bytes → Str) → List Bytes → Option Str
join_header_values lossy [] = none
join_header_values lossy (value ∷ values) = some (lossy (join_rest value values))
