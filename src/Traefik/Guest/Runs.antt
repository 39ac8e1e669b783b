-- ===== src/Traefik/Guest/Runs.antt =====
-- Runs of one instance of the guest of crates/purple-wolf-traefik/src/entry.rs, from its
-- configuration on.
use purple_wolf.Config.{Config}
use purple_wolf.Detectors.{Group, Mode, GroupMode}
use purple_wolf.Prelude.{
  ℕ, ◌≤◌, max, List, ◌∷◌, ◌++◌, flat_map, length, get_elem?, All, Option, some, ◌≡◌, refl,
}
use purple_wolf.Reputation.Lru.{nil}
use purple_wolf.Request.Fields.{fields}
use purple_wolf.Traefik.Body.{BodyRead}
use purple_wolf.Traefik.Entry.{Host, effective_group_mode}
use purple_wolf.Traefik.Guest.Blocks.{built, Read, handle_requests-stops, signatures-reports}
use purple_wolf.Traefik.Guest.Live.{Fits, Signalled, handle_requests-runs, initial-Live}
use purple_wolf.Traefik.Guest.{Libraries, Handled, parse_deny_list, initial, guest, handle_requests}

module _ {Ip T : Type 0} (lib : Libraries Ip T) (clock : ℕ → ℕ) (fits : Fits lib.find_iter) where
  -- If the automaton names only patterns of its table and the slab has room for the addresses, then,
  -- whatever the configuration, the requests and the readings of the clock, the guest never panics: it
  -- answers each request, with the signal 1 and no response, or with 0 and one response, of status 403.
  pub handle_requests-returns :
      (parsed : Option Config) (hs : List Host)
      → max (guest lib clock parsed).cfg.reputation.max_tracked_ips 1 ≤ nil
      → (rs : List (Handled Ip T)) × (handle_requests lib clock
            (guest lib clock parsed)
            (initial lib clock (guest lib clock parsed).cfg)
            hs
          ≡ some rs)
        × (length rs ≡ length hs)
        × All Signalled rs
  handle_requests-returns parsed hs room =
      let cfg = (guest lib clock parsed).cfg in
      let denied = parse_deny_list lib clock cfg.reputation.deny_list in
      handle_requests-runs lib clock denied fits parsed hs (initial lib clock cfg)
        (initial-Live lib clock denied cfg refl room)

  module _ (cfg : Config) (room : max cfg.reputation.max_tracked_ips 1 ≤ nil)
      (enforced : cfg.mode ≡ Mode.enforce) (before after : List Host) (h : Host) (b : BodyRead)
      (read : Read lib clock cfg h b) where
    -- If the automaton names only patterns of its table, the slab has room for the addresses, and the
    -- global mode and the signature group enforce, then the guest answers any list of requests, and in it
    -- stops every one that the automaton matches in some inspected field, whatever comes before and
    -- after, if its body could be read and is not refused for its length.
    pub handle_requests-matches :
        (m : ℕ) (ms : List ℕ)
        → effective_group_mode cfg Group.signatures ≡ GroupMode.enforce
        → flat_map lib.find_iter (fields (built lib clock cfg h b)) ≡ m ∷ ms
        → (rs : List (Handled Ip T)) × (r : Handled Ip T) × (handle_requests lib clock
              (guest lib clock (some cfg))
              (initial lib clock cfg)
              (before ++ h ∷ after)
            ≡ some rs)
          × (get_elem? rs (length before) ≡ some r)
          × (r.signal ≡ 0)
    handle_requests-matches m ms on matches =
        let denied = parse_deny_list lib clock cfg.reputation.deny_list in
        handle_requests-stops lib clock cfg denied fits Group.signatures enforced on h b after
          before (initial lib clock cfg) (initial-Live lib clock denied cfg refl room) read
          (λ held live.
            signatures-reports lib clock (built lib clock cfg h b) denied held fits m ms matches)
