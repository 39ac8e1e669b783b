-- ===== src/Traefik/Body.antt =====
-- `drain_body` of crates/purple-wolf-traefik/src/host.rs.
pub mod Whole
mod Tests
use purple_wolf.Prelude.{
  ℕ, ◌+◌, ◌-◌, min, Bool, true, false, not, ◌&&◌, ltb, leb, ◌==◌, if◌then◌else◌, List, [], ◌∷◌,
  ◌++◌, length, take, Option, none, some, Bytes,
}

abbrev pub max_alloc : ℕ
max_alloc = 0xffffff

abbrev pub scratch_len : ℕ
scratch_len = 2048

abbrev pub max_empty_reads : ℕ
max_empty_reads = 3

pub record BodyRead : Type 0 where
  pub bytes : Bytes
  pub exceeded : Bool

pub data BodyReadError : Type 0 where
  buffering_unsupported stream_stalled host_contract_violation : BodyReadError

-- `BodyReadError::forwarding_is_safe`.
unfoldable pub forwarding_is_safe : BodyReadError → Bool
forwarding_is_safe buffering_unsupported = true
forwarding_is_safe stream_stalled = false
forwarding_is_safe host_contract_violation = false

pub data BodyResult : Type 0 where
  ok : BodyRead → BodyResult
  err : BodyReadError → BodyResult

-- What one call of the host gives: end of file, the size, and the scratch space behind it.
pub record Read : Type 0 where
  pub eof : Bool
  pub size : ℕ
  pub scratch : Bytes

-- The local variables of the loop, with the bytes that were given to `preserve`.
pub record Drain : Type 0 where
  pub out : Bytes
  pub empty_reads : ℕ
  pub exceeded : Bool
  pub preserved : Bytes

abbrev pub finish : Drain → BodyResult
finish d = BodyResult.ok (record { bytes = d.out; exceeded = d.exceeded })

-- How many bytes of the read still fit.
abbrev pub fitting : ℕ → Drain → Read → ℕ
fitting limit d r = min (limit - length d.out) r.size

-- The state behind a read of at least one byte.
unfoldable pub extend : ℕ → Drain → Read → Drain
extend limit d r =
    let taken = fitting limit d r in
    record {
      out = d.out ++ take taken r.scratch;
      empty_reads = 0;
      exceeded = if ltb taken r.size then true else d.exceeded;
      preserved = d.preserved ++ take r.size r.scratch;
    }

-- The loop, over the reads that the host answers; `none` where the list of reads ends before the loop.
unfoldable pub drain_loop : ℕ → Bool → Drain → List Read → Option (BodyResult × Bytes)
drain_loop limit preserve_after_cap d [] = none
drain_loop limit preserve_after_cap d (r ∷ rs) =
    let stalled =
      drain_loop limit preserve_after_cap (record d { empty_reads = d.empty_reads + 1 }) rs in
    let d' = extend limit d r in
    let more = drain_loop limit preserve_after_cap d' rs in
    if ltb scratch_len r.size
    then some (BodyResult.err BodyReadError.host_contract_violation, d.preserved)
    else if r.size == 0
    then (if r.eof
        then some (finish d, d.preserved)
        else if leb max_empty_reads (d.empty_reads + 1)
        then some (BodyResult.err BodyReadError.stream_stalled, d.preserved)
        else stalled)
    else if ltb (fitting limit d r) r.size && not preserve_after_cap
    then some (finish d', d'.preserved)
    else if r.eof
    then some (finish d', d'.preserved)
    else more

unfoldable pub drain_body : ℕ → Bool → List Read → Option (BodyResult × Bytes)
unfolding drain_loop
drain_body max preserve_after_cap reads =
    drain_loop (min max max_alloc) preserve_after_cap
      (record { out = []; empty_reads = 0; exceeded = false; preserved = [] }) reads
