-- ===== src/Traefik/Guest/Blocks.antt =====
-- What `handle_request` of crates/purple-wolf-traefik/src/entry.rs stops, with the detectors that
-- `engine` builds.
use purple_wolf.Config.{Config}
use purple_wolf.Detectors.Signatures.Once.{firsts, named, get_elem?-of_lt, inspect-firsts}
use purple_wolf.Detectors.Signatures.{signatures, verdict_of}
use purple_wolf.Detectors.{Group, Mode, GroupMode, is_enabled, group_eq}
use purple_wolf.Policy.{is_off}
use purple_wolf.Prelude.{
  ℕ, true, false, not, ◌&&◌, List, [], ◌∷◌, ◌++◌, any, flat_map, length, get_elem?, none, some, ◌≡◌,
  refl, ap, ◌∙◌,
}
use purple_wolf.Reputation.Detect.{deny_contains-new, member, denied_verdicts, inspect-Served}
use purple_wolf.Request.Fields.{fields}
use purple_wolf.Request.{Request}
use purple_wolf.Traefik.Body.{BodyRead, BodyResult}
use purple_wolf.Traefik.Entry.Safety.{inspect-block_iff}
use purple_wolf.Traefik.Entry.{
  Host, get, from_config, effective_group_mode, state, is_block, request_of,
}
use purple_wolf.Traefik.Guest.Live.{
  Fits, Live, All-flat_map, handled_of, handle_request-runs, handle_requests-runs,
}
use purple_wolf.Traefik.Guest.Reports.{any-keep, get-from_config, any-enforced, engine-reports}
use purple_wolf.Traefik.Guest.{
  Libraries, Inner, Held, Handled, signal_of, inspect_group, inspect_signatures, inspect_reputation,
  guest, handle_request, handle_requests,
}

abbrev groups : List Group
groups = Group.injection ∷ Group.signatures ∷ Group.structural ∷ Group.reputation ∷ []

any-groups : (target : Group) → any (group_eq target) groups ≡ true
unfolding any group_eq
any-groups Group.injection = refl
any-groups Group.signatures = refl
any-groups Group.structural = refl
any-groups Group.reputation = refl

module _ {Ip T : Type 0} (lib : Libraries Ip T) (clock : ℕ → ℕ) (cfg : Config) where
  -- The request that is built from what the host answers.
  abbrev pub built : Host → BodyRead → Request Ip
  built h b = request_of lib.percent_decode lib.parse lib.unspecified cfg h b

  -- The body was read, and is not refused for its length.
  abbrev pub Read : Host → BodyRead → Type 0
  Read h b =
      (h.read_request_body cfg.body.max_inspect_bytes (not (is_block cfg.body.over_cap))
        ≡ BodyResult.ok b)
      × ((b.exceeded && is_block cfg.body.over_cap) ≡ false)

  target-enabled :
      (target : Group)
      → effective_group_mode cfg target ≡ GroupMode.enforce
      → is_enabled (guest lib clock (some cfg)).enabled_groups target ≡ true
  unfolding guest state is_enabled is_off
  target-enabled target on =
      any-keep (λ g. not (is_off (get (from_config cfg) g))) target groups
        (rw (get-from_config cfg target, on) refl) (any-groups target)

  module _ (denied : List Ip) (fits : Fits lib.find_iter) (target : Group)
      (enforced : cfg.mode ≡ Mode.enforce)
      (on : effective_group_mode cfg target ≡ GroupMode.enforce) where
    -- On this request the detector of the group reports something, whatever it holds.
    abbrev pub Reports : Request Ip → Type 0
    Reports req =
        (held : Held Ip T)
        → Live lib clock denied held
        → any (λ v. group_eq target v.group) (inspect_group lib clock target held req).1 ≡ true

    handle_request-stops :
        (i : Inner Ip T) (h : Host) (b : BodyRead)
        → Live lib clock denied (some i)
        → Read h b
        → Reports (built h b)
        → (r : Handled Ip T) × (handle_request lib clock (guest lib clock (some cfg)) i h ≡ some r)
          × Live lib clock denied (some r.inner)
          × (r.signal ≡ 0)
    unfolding guest state is_enabled signal_of
    handle_request-stops i h b live (read, within) reports =
        let st = guest lib clock (some cfg) in
        let (o, i', inspected, run, live', _) =
          handle_request-runs lib clock denied fits (some cfg) i h live in
        let found =
          engine-reports lib clock denied fits cfg target (built h b) reports st.enabled_groups
            st.enabled_groups (some i) live (target-enabled target on) (target-enabled target on) in
        let blocks =
          (inspect-block_iff lib.percent_decode lib.parse lib.unspecified st (some i) h b o read
              within inspected).1
            (any-enforced cfg.mode (get st.group_modes) target _ enforced
              (get-from_config cfg target ∙ on) found) in
        (handled_of i' o, run, live', ap signal_of blocks)

    pub handle_requests-stops :
        (h : Host) (b : BodyRead) (after before : List Host) (i : Inner Ip T)
        → Live lib clock denied (some i)
        → Read h b
        → Reports (built h b)
        → (rs : List (Handled Ip T)) × (r : Handled Ip T) × (handle_requests lib clock
              (guest lib clock (some cfg))
              i
              (before ++ h ∷ after)
            ≡ some rs)
          × (get_elem? rs (length before) ≡ some r)
          × (r.signal ≡ 0)
    unfolding handle_requests
    handle_requests-stops h b after [] i live read reports =
        let (r, run, live', stops) = handle_request-stops i h b live read reports in
        let (rs, runs, _, _) =
          handle_requests-runs lib clock denied fits (some cfg) after r.inner live' in
        (r ∷ rs, r, rw (run, runs), refl, stops)
    handle_requests-stops h b after (h' ∷ before) i live read reports =
        let (o, i', _, run, live', _) =
          handle_request-runs lib clock denied fits (some cfg) i h' live in
        let (rs, r, runs, at, stops) =
          handle_requests-stops h b after before i' live' read reports in
        (handled_of i' o ∷ rs, r, rw (run, runs), at, stops)

module _ {Ip T : Type 0} (lib : Libraries Ip T) (clock : ℕ → ℕ) (req : Request Ip)
    (denied : List Ip) where
  signatures-runs :
      (held : Held Ip T)
      → Fits lib.find_iter
      → (m : ℕ) (ms : List ℕ) → flat_map lib.find_iter (fields req) ≡ m ∷ ms
      → inspect_signatures lib clock held req
        ≡ (held, flat_map (named signatures) (firsts [] (m ∷ ms)))
  unfolding inspect_signatures
  signatures-runs held fits m ms matches =
      let run = inspect-firsts lib.find_iter req (All-flat_map _ lib.find_iter fits (fields req)) in
      rw (run, matches, inspect_signatures) refl

  pub signatures-reports :
      (held : Held Ip T)
      → Fits lib.find_iter
      → (m : ℕ) (ms : List ℕ) → flat_map lib.find_iter (fields req) ≡ m ∷ ms
      → any
          (λ v. group_eq Group.signatures v.group)
          (inspect_group lib clock Group.signatures held req).1
        ≡ true
  unfolding inspect_group flat_map any group_eq verdict_of
  signatures-reports held fits m ms matches =
      let all = All-flat_map _ lib.find_iter fits (fields req) in
      let (s, found) = get_elem?-of_lt signatures m (rw matches at all).0 in
      rw (signatures-runs held fits m ms matches, found) refl

  pub reputation-reports :
      (held : Held Ip T)
      → member lib.dec req.source_ip denied ≡ true
      → Live lib clock denied held
      → any
          (λ v. group_eq Group.reputation v.group)
          (inspect_group lib clock Group.reputation held req).1
        ≡ true
  unfolding inspect_group inspect_reputation denied_verdicts any group_eq
  reputation-reports none known live = absurd live
  reputation-reports (some i) known (clean, listed, cs, r) =
      let (t, cs', run, _, _) =
        inspect-Served lib.dec lib.float lib.show_ip i.reputation (clock i.readings) req.source_ip
          cs clean r in
      rw (run, listed, deny_contains-new lib.dec denied req.source_ip, known, inspect_reputation)
        refl
