-- ===== src/Traefik/Abi.antt =====
-- The guest's calls of the host: the wrappers around the imports of crates/purple-wolf-traefik/src/host.rs,
-- as they are compiled for wasm32. What the host answers is a record of calls.
pub mod Headers
mod Tests
use purple_wolf.Prelude.{
  ℕ, zero, suc, ◌/◌, ◌%◌, ◌^◌, Bool, true, false, not, ◌==◌, if◌then◌else◌, List, [], ◌∷◌, ◌++◌,
  map, Option, none, some, ◌>>=◌, Str, Bytes,
}
use purple_wolf.Traefik.Body.{BodyReadError, BodyResult, Read, drain_body}
use purple_wolf.Traefik.Host.{Call, clip, read_buf, read_buf_multi, join_header_values}

-- The imports. Those of headers are for the request; `read_body` are the answers to its calls, the bits of
-- an `i64` and the buffer.
pub record Abi : Type 0 where
  pub enable_features : ℕ → ℕ
  pub get_config : Call
  pub get_method : Call
  pub get_uri : Call
  pub get_source_addr : Call
  pub get_header_names : Call
  pub get_header_values : Bytes → Call
  pub read_body : List (ℕ × Bytes)

abbrev pub feature_buffer_request : ℕ
feature_buffer_request = 1

-- The flag and the size in the bits of an `i64`.
unfoldable pub split_eof : ℕ → Bool × ℕ
unfolding clip
split_eof n = (not (n / 2 ^ 32 == 0), clip (n % 2 ^ 32))

abbrev pub read_of : ℕ × Bytes → Read
unfolding split_eof
read_of (packed, scratch) =
    let (eof, size) = split_eof packed in record { eof = eof; size = size; scratch = scratch }

-- The bit of a feature in a bitset.
unfoldable pub enable_request_buffering : Abi → Bool
enable_request_buffering a =
    a.enable_features feature_buffer_request / feature_buffer_request % 2 == 1

unfoldable pub drain_request_body : Abi → ℕ → Bool → Option (BodyResult × Bytes)
unfolding drain_body read_of
drain_request_body a max preserve_after_cap =
    drain_body max preserve_after_cap (map read_of a.read_body)

-- `none` where the answers of the host end before the loop.
unfoldable pub read_request_body : Abi → ℕ → Bool → Option (BodyResult × Bytes)
unfolding enable_request_buffering drain_request_body
read_request_body a max preserve_after_cap =
    if not (enable_request_buffering a)
    then some (BodyResult.err BodyReadError.buffering_unsupported, [])
    else drain_request_body a max preserve_after_cap

unfoldable pub method_bytes : Abi → Bytes
unfolding read_buf
method_bytes a = read_buf a.get_method

unfoldable pub uri_bytes : Abi → Bytes
unfolding read_buf
uri_bytes a = read_buf a.get_uri

unfoldable pub source_addr_bytes : Abi → Bytes
unfolding read_buf
source_addr_bytes a = read_buf a.get_source_addr

unfoldable pub config_bytes : Abi → Bytes
unfolding read_buf
config_bytes a = read_buf a.get_config

unfoldable pub header_names : Abi → List Bytes
unfolding read_buf_multi
header_names a = read_buf_multi a.get_header_names

unfoldable pub header_values : Abi → Bytes → List Bytes
unfolding read_buf_multi
header_values a name = read_buf_multi (a.get_header_values name)

-- `from_utf8` and `from_utf8_lossy` of the standard library.
module _ (from_utf8 : Bytes → Option Str) (from_utf8_lossy : Bytes → Str) where
  unfoldable pub bytes_to_string_lossy : Bytes → Str
  bytes_to_string_lossy b = elim (from_utf8 b) [ some s ↦ s | none ↦ from_utf8_lossy b ]

  unfoldable pub get_method : Abi → Str
  unfolding bytes_to_string_lossy method_bytes
  get_method a = bytes_to_string_lossy (method_bytes a)

  unfoldable pub get_uri : Abi → Str
  unfolding bytes_to_string_lossy uri_bytes
  get_uri a = bytes_to_string_lossy (uri_bytes a)

  unfoldable pub get_source_addr : Abi → Str
  unfolding bytes_to_string_lossy source_addr_bytes
  get_source_addr a = bytes_to_string_lossy (source_addr_bytes a)

  unfoldable pub get_request_header_names : Abi → List Str
  unfolding bytes_to_string_lossy header_names
  get_request_header_names a = map bytes_to_string_lossy (header_names a)

  unfoldable pub get_request_header : Abi → Str → Option Str
  unfolding bytes_to_string_lossy header_values join_header_values
  get_request_header a name = join_header_values bytes_to_string_lossy (header_values a name)
