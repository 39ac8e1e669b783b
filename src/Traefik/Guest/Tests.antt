-- ===== src/Traefik/Guest/Tests.antt =====
-- A run of the guest, and its properties at it.
use native.Mathlib.Decide.{ℕ_discrete as dec}
use purple_wolf.Config.{Config, FailMode, OverCap}
use purple_wolf.Detectors.{Group, Mode, GroupMode, engine_inspect, is_enabled, group_eq}
use purple_wolf.Prelude.{
  ℕ, ◌+◌, ◌-◌, ◌*◌, ◌≤◌, min, max, leb, ◌==◌, true, false, List, [], ◌∷◌, flat_map, length,
  get_elem?, All, if◌then◌else◌, Option, none, some, Bytes, Str, codes, show, split, contains,
  split_once, starts_with, trim, ◌≡◌, refl, arith,
}
use purple_wolf.Detectors.Signatures.{signatures, scan, report_all, report, unmatched, verdict_of}
use purple_wolf.Policy.{decide, partition, choose, worst_index, swap_remove, is_off, both_enforce}
use purple_wolf.Reputation.Detect.{
  member, locked_check, denied_verdicts, limited_verdicts, deny_contains, deny_list_new,
  with_capacity,
}
use purple_wolf.Reputation.Lru.{
  nil, update_node, set_next, set_prev, link_next, link_prev, unlink, push_front, touch,
  index_insert, index_remove, forget_ip, evict_slot, evict_tail, acquire_slot, consume, refill,
  check_known, check_new, check, new,
}
use purple_wolf.Request.Client.{client_ip}
use purple_wolf.Request.Fields.{fields}
use purple_wolf.Request.{with_truncated_body, build, decode, non_empty, parse_pair}
use purple_wolf.Traefik.Body.{BodyRead, BodyResult}
use purple_wolf.Traefik.Entry.{
  Host, effective_group_mode, mode_of, is_block, state, request_of, detect, conclude, inspect_body,
  respond, engine, from_config, get, decision_is_noteworthy, inspect,
}
use purple_wolf.Traefik.Guest.Blocks.{built, Read}
use purple_wolf.Traefik.Guest.Live.{Fits, Signalled}
use purple_wolf.Traefik.Guest.Runs.{handle_requests-returns, handle_requests-matches}
use purple_wolf.Traefik.Peer.{parse_ip, parse_trimmed, parse_peer}
use purple_wolf.Traefik.Guest.{
  Libraries, Handled, parse_deny_list, initial, guest, handle_request, handle_requests, signal_of,
  inspect_group, inspect_signatures, inspect_reputation, detector_of,
}

-- An address is a text that is not empty, and its length stands for it.
abbrev parse : Str → Option ℕ
parse [] = none
parse (a ∷ s) = some (length (a ∷ s))

-- An automaton that knows one of the patterns.
abbrev find_iter : Bytes → List ℕ
find_iter [] = []
find_iter (a ∷ s) = let rest = find_iter s in if a == b'`' then 7 ∷ rest else rest

abbrev lib : Libraries ℕ ℕ
lib = record {
  percent_decode = λ s. s;
  parse = parse;
  unspecified = 0;
  dec = dec;
  show_ip = show;
  find_iter = find_iter;
  lossy_chars = λ s. s;
  collect = λ s. s;
  is_sqli = λ _. false;
  is_xss = λ _. false;
  float = record {
    of_u32 = λ n. n;
    as_secs = λ t. t;
    add = ◌+◌;
    sub = ◌-◌;
    mul = ◌*◌;
    min = min;
    ge = λ a b. leb b a;
    zero = 0;
    one = 1;
  };
}

abbrev clock : ℕ → ℕ
clock n = n

fits : Fits find_iter
unfolding signatures
fits [] = tt
fits (a ∷ s) = ground (arith, fits s)

abbrev enforcing : Config
enforcing = record {
  mode = Mode.enforce;
  fail_mode = FailMode.fail_closed;
  body = record { max_inspect_bytes = 10; over_cap = OverCap.pass };
  groups = record {
    injection = none;
    signatures = some (record { enabled = true; mode = GroupMode.enforce });
    structural = none;
    reputation = some (record { enabled = true; mode = GroupMode.enforce });
  };
  reputation = record { per_second = 5; deny_list = codes "ab" ∷ []; max_tracked_ips = 2 };
  trusted_hops = 0;
  labels = [];
}

abbrev a_host : Str → Str → Host
a_host addr uri = record {
  header_names = [];
  header_value = λ _. none;
  source_addr = addr;
  uri = uri;
  method = codes "GET";
  read_request_body = λ _ _. BodyResult.ok (record { bytes = []; exceeded = false });
}

abbrev no_body : BodyRead
no_body = record { bytes = []; exceeded = false }

abbrev harmless : Host
harmless = a_host (codes "c") (codes "/a")

abbrev subshell : Host
subshell = a_host (codes "c") (codes "/a?b=`")

abbrev unwelcome : Host
unwelcome = a_host (codes "ab") (codes "/a")

room : max enforcing.reputation.max_tracked_ips 1 ≤ nil
unfolding nil
room = omega arith

matches : flat_map find_iter (fields (built lib clock enforcing subshell no_body)) ≡ 7 ∷ []
unfolding flat_map fields request_of with_truncated_body build decode contains split_once split
    non_empty parse_pair
matches = refl

read :
    (h : Host)
    → h.read_request_body 10 true ≡ BodyResult.ok no_body
    → Read lib clock enforcing h no_body
unfolding is_block
read h e = (e, refl)

signatures_on : effective_group_mode enforcing Group.signatures ≡ GroupMode.enforce
unfolding effective_group_mode mode_of
signatures_on = refl

guest_room : max (guest lib clock (some enforcing)).cfg.reputation.max_tracked_ips 1 ≤ nil
unfolding guest nil state
guest_room = omega arith

program : Unit {0}
unfolding handle_requests handle_request signal_of inspect inspect_body detect conclude respond
    decision_is_noteworthy is_block state engine from_config get effective_group_mode mode_of decide
    partition choose worst_index swap_remove is_off both_enforce engine_inspect is_enabled group_eq
    guest initial detector_of inspect_group inspect_signatures inspect_reputation fields request_of
    with_truncated_body build decode contains split_once split non_empty parse_pair client_ip
    parse_peer parse_ip parse_trimmed trim starts_with dec member locked_check denied_verdicts
    limited_verdicts deny_contains deny_list_new with_capacity parse_deny_list signatures scan
    report_all report unmatched verdict_of nil update_node set_next set_prev link_next link_prev
    unlink push_front touch index_insert index_remove forget_ip evict_slot evict_tail acquire_slot
    consume refill check_known check_new check new purple_wolf.Detectors.Signatures.inspect
    purple_wolf.Reputation.Detect.inspect
program = tt

abbrev signals : Option (List (Handled ℕ ℕ)) → List ℕ
signals none = []
signals (some []) = []
signals (some (r ∷ rs)) = r.signal ∷ signals (some rs)

serves :
    signals (
      handle_requests lib clock
        (guest lib clock (some enforcing))
        (initial lib clock enforcing)
        (harmless ∷ subshell ∷ unwelcome ∷ []))
    ≡ 1 ∷ 0 ∷ 0 ∷ []
unfolding program
serves = refl

handle_requests-returns_example :
    (rs : List (Handled ℕ ℕ)) × (handle_requests lib clock
        (guest lib clock (some enforcing))
        (initial lib clock (guest lib clock (some enforcing)).cfg)
        (harmless ∷ subshell ∷ unwelcome ∷ [])
      ≡ some rs)
    × (length rs ≡ 3)
    × All Signalled rs
handle_requests-returns_example =
    handle_requests-returns lib clock fits (some enforcing) (harmless ∷ subshell ∷ unwelcome ∷ [])
      guest_room

handle_requests-matches_example :
    (rs : List (Handled ℕ ℕ)) × (r : Handled ℕ ℕ) × (handle_requests lib clock
        (guest lib clock (some enforcing))
        (initial lib clock enforcing)
        (harmless ∷ subshell ∷ unwelcome ∷ [])
      ≡ some rs)
    × (get_elem? rs 1 ≡ some r)
    × (r.signal ≡ 0)
handle_requests-matches_example =
    handle_requests-matches lib clock fits enforcing room refl (harmless ∷ []) (unwelcome ∷ [])
      subshell no_body (read subshell refl) 7 [] signatures_on matches
