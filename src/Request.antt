-- ===== src/Request.antt =====
-- `Request` of crates/purple-wolf-core/src/request.rs.
pub mod Fields
pub mod Decode
pub mod Client
mod Tests
use purple_wolf.Prelude.{
  ℕ, zero, suc, ◌+◌, ◌-◌, Bool, true, false, not, ◌||◌, List, [], ◌∷◌, ◌++◌, map, length, get_elem?,
  keep, any, Option, none, some, if◌then◌else◌, Bytes, Str, codes, str_eq, starts_with, contains,
  split, split_once, to_ascii_lowercase, to_ascii_uppercase, eq_ignore_ascii_case,
}

abbrev pub Header : Type 0
Header = Str × Str

abbrev pub inspectable_headers_exact : List Str
inspectable_headers_exact =
    codes "cookie"
    ∷ codes "referer"
    ∷ codes "host"
    ∷ codes "authorization"
    ∷ codes "user-agent"
    ∷ []

abbrev pub inspectable_header_prefix : Str
inspectable_header_prefix = codes "x-"

-- `Ip` is the type of addresses.
pub record Request (Ip : Type 0) : Type 0 where
  pub method : Str
  pub host : Str
  pub path : Str
  pub raw_query : Option Str
  pub query_params : List (Str × Str)
  pub headers : List Header
  pub header_bytes : ℕ
  pub body : Bytes
  pub body_inspected : Bool
  pub body_truncated : Bool
  pub source_ip : Ip
  pub inspectable_headers : List Bytes

abbrev pub max_decode_passes : ℕ
max_decode_passes = 3

-- The names on the allow-list, once they are in lower case.
unfoldable pub is_inspectable : Str → Bool
unfolding any
is_inspectable k =
    any (str_eq k) inspectable_headers_exact || starts_with inspectable_header_prefix k

unfoldable pub header_size : List Header → ℕ
header_size [] = 0
header_size ((k, v) ∷ hs) = length k + length v + header_size hs

unfoldable pub lower_names : List Header → List Header
lower_names [] = []
lower_names ((k, v) ∷ hs) = (to_ascii_lowercase k, v) ∷ lower_names hs

unfoldable pub non_empty : Str → Bool
non_empty [] = false
non_empty (_ ∷ _) = true

-- `percent_decode` is one pass of the percent-encoding crate, with the lossy UTF-8 conversion.
module _ (percent_decode : Str → Str) where
  -- The passes of the loop, and its two breaks.
  unfoldable pub decode_loop : ℕ → Str → Str
  decode_loop zero cur = cur
  decode_loop (suc passes) cur =
      let next = percent_decode cur in
      let rest = decode_loop passes next in
      if not (contains b'%' cur) then cur else if str_eq next cur then cur else rest

  unfoldable pub decode : Str → Str
  unfolding decode_loop
  decode s = decode_loop (max_decode_passes - 1) (percent_decode s)

  -- The values that one header adds.
  unfoldable pub header_forms : Str → List Bytes
  header_forms v =
      let decoded = decode v in
      if contains b'%' v
      then (if not (str_eq decoded v) then v ∷ decoded ∷ [] else v ∷ [])
      else v ∷ []

  unfoldable pub build_inspectable_headers : List Header → List Bytes
  unfolding is_inspectable header_forms
  build_inspectable_headers [] = []
  build_inspectable_headers ((k, v) ∷ hs) =
      let rest = build_inspectable_headers hs in
      if is_inspectable k then header_forms v ++ rest else rest

  unfoldable pub parse_pair : Str → Str × Str
  unfolding decode
  parse_pair p = elim (split_once b'=' p) [
    | some (k, v) ↦ (decode k, decode v)
    | none ↦ (decode p, [])
  ]

  unfoldable pub parse_query : Str → List (Str × Str)
  unfolding keep
  parse_query raw = map parse_pair (keep non_empty (split b'&' raw))

  module _ {Ip : Type 0} where
    unfoldable pub build : Str → Str → Str → Str → List Header → Bytes → Bool → Ip → Request Ip
    unfolding lower_names parse_query header_size build_inspectable_headers
    build method host path raw_query headers body body_inspected source_ip =
        let lowered = lower_names headers in
        record {
          method = to_ascii_uppercase method;
          host = to_ascii_lowercase host;
          path = decode path;
          raw_query = if non_empty raw_query then some raw_query else none;
          query_params = parse_query raw_query;
          headers = lowered;
          header_bytes = header_size headers;
          body = body;
          body_inspected = body_inspected;
          body_truncated = false;
          source_ip = source_ip;
          inspectable_headers = build_inspectable_headers lowered;
        }

unfoldable pub find_header : List Header → Str → Option Str
find_header [] name = none
find_header ((k, v) ∷ hs) name =
    let rest = find_header hs name in if eq_ignore_ascii_case k name then some v else rest

pub data InspectablePhase : Type 0 where
  path query body headers done : InspectablePhase

module _ {Ip : Type 0} where
  unfoldable pub with_truncated_body : Request Ip → Bool → Request Ip
  with_truncated_body r truncated = record r { body_truncated = truncated }

  unfoldable pub header : Request Ip → Str → Option Str
  unfolding find_header
  header r name = find_header r.headers name

  unfoldable pub user_agent : Request Ip → Option Str
  user_agent r = header r (codes "user-agent")

-- The iterator. What it borrows is a field of it.
pub record InspectableFields (Ip : Type 0) : Type 0 where
  pub req : Request Ip
  pub phase : InspectablePhase
  pub query_idx : ℕ
  pub header_idx : ℕ

-- How one round of the loop of `next` ends: it returns, or it goes round again.
pub data Round (Ip : Type 0) : Type 0 where
  returned : InspectableFields Ip → Option Bytes → Round Ip
  again : InspectableFields Ip → Round Ip

module _ {Ip : Type 0} where
  unfoldable pub inspectable_fields : Request Ip → InspectableFields Ip
  inspectable_fields r = record {
    req = r;
    phase = InspectablePhase.path;
    query_idx = 0;
    header_idx = 0;
  }

  unfoldable pub query_round : InspectableFields Ip → Round Ip
  query_round it = elim (get_elem? it.req.query_params it.query_idx) [
    | some (_, value) ↦ Round.returned (record it { query_idx = suc it.query_idx }) (some value)
    | none ↦ Round.again (record it { phase = InspectablePhase.body })
  ]

  unfoldable pub body_round : InspectableFields Ip → Round Ip
  body_round it =
      let it' = record it { phase = InspectablePhase.headers } in
      if it.req.body_inspected then Round.returned it' (some it.req.body) else Round.again it'

  unfoldable pub headers_round : InspectableFields Ip → Round Ip
  headers_round it = elim (get_elem? it.req.inspectable_headers it.header_idx) [
    | some value ↦ Round.returned (record it { header_idx = suc it.header_idx }) (some value)
    | none ↦ Round.again (record it { phase = InspectablePhase.done })
  ]

  unfoldable pub round : InspectableFields Ip → Round Ip
  unfolding query_round body_round headers_round
  round it = elim it.phase [
    | InspectablePhase.path ↦
        Round.returned (record it { phase = InspectablePhase.query }) (some it.req.path)
    | InspectablePhase.query ↦ query_round it
    | InspectablePhase.body ↦ body_round it
    | InspectablePhase.headers ↦ headers_round it
    | InspectablePhase.done ↦ Round.returned it none
  ]

  -- The loop of `next` on fuel; `none` where the fuel does not last.
  unfoldable pub next : ℕ → InspectableFields Ip → Option (InspectableFields Ip × Option Bytes)
  unfolding round
  next zero it = none
  next (suc fuel) it = elim (round it) [
    | Round.returned it' o ↦ some (it', o)
    | Round.again it' ↦ next fuel it'
  ]
