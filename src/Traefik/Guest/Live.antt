-- ===== src/Traefik/Guest/Live.antt =====
-- What the detectors that `engine` of crates/purple-wolf-traefik/src/entry.rs builds hold between
-- requests, and the runs of `handle_request`.
use purple_wolf.Config.{Config}
use purple_wolf.Detectors.Signatures.Once.{inspect-firsts}
use purple_wolf.Detectors.Signatures.{signatures}
use purple_wolf.Detectors.{Group, engine_inspect, is_enabled}
use purple_wolf.Prelude.{
  ℕ, suc, ◌<◌, ◌≤◌, max, false, List, [], ◌∷◌, ◌++◌, flat_map, length, All, Option, none, some,
  Bytes, Str, ◌≡◌, refl, sym, ap, subst, ◌⊎◌, inl, inr, Bool-cases, Option-cases,
}
use purple_wolf.Reputation.Detect.{deny_list_new, with_capacity, inspect-Served}
use purple_wolf.Reputation.Lru.Acquire.{Repr}
use purple_wolf.Reputation.Lru.Runs.{new-Repr}
use purple_wolf.Reputation.Lru.Segment.{Cells}
use purple_wolf.Reputation.Lru.{nil}
use purple_wolf.Request.Fields.{fields}
use purple_wolf.Request.{Request}
use purple_wolf.Traefik.Entry.Kept.{inspect-keeps}
use purple_wolf.Traefik.Entry.Safety.{Answered, inspect-Answered}
use purple_wolf.Traefik.Entry.{Host, Outcome, inspect, engine, state}
use purple_wolf.Traefik.Guest.{
  Libraries, Inner, Held, Handled, signal_of, parse_deny_list, initial, inspect_signatures,
  inspect_reputation, inspect_group, detector_of, guest, handle_request, handle_requests,
}

-- The automaton names patterns of its table.
abbrev pub Fits : (Bytes → List ℕ) → Type 0
Fits find_iter = (field : Bytes) → All (λ i. i < length signatures) (find_iter field)

All-append : (P : ℕ → Type 0) (xs ys : List ℕ) → All P xs → All P ys → All P (xs ++ ys)
All-append P [] ys h k = k
All-append P (x ∷ xs) ys (p, h) k = (p, All-append P xs ys h k)

pub All-flat_map :
    (P : ℕ → Type 0) (f : Bytes → List ℕ)
    → ((b : Bytes) → All P (f b))
    → (bs : List Bytes) → All P (flat_map f bs)
unfolding flat_map
All-flat_map P f h [] = tt
All-flat_map P f h (b ∷ bs) = All-append P (f b) (flat_map f bs) (h b) (All-flat_map P f h bs)

module _ {Ip T : Type 0} where
  abbrev pub handled_of : Inner Ip T → Outcome (Held Ip T) → Handled Ip T
  handled_of i o = record { inner = i; signal = signal_of o.action; responses = o.responses }

  -- The request passes with no response, or is stopped with one, of status 403.
  abbrev pub Signalled : Handled Ip T → Type 0
  Signalled r =
      ((r.signal ≡ 1) × (r.responses ≡ []))
      ⊎ ((r.signal ≡ 0) × (text : Str) × (r.responses ≡ (403, text) ∷ []))

  Answered-Signalled :
      (i : Inner Ip T) (o : Outcome (Held Ip T)) → Answered o → Signalled (handled_of i o)
  unfolding signal_of
  Answered-Signalled i o (inl (acts, quiet)) = inl (ap signal_of acts, quiet)
  Answered-Signalled i o (inr (acts, text, told)) = inr (ap signal_of acts, text, told)

module _ {Ip T : Type 0} (lib : Libraries Ip T) (clock : ℕ → ℕ) (denied : List Ip) where
  -- No detector has panicked, the buckets are well formed, and the deny list is the one given.
  abbrev pub Live : Held Ip T → Type 0
  Live none = ⊥
  Live (some i) =
      (i.reputation.poisoned ≡ false)
      × (i.reputation.deny_list ≡ deny_list_new lib.dec denied)
      × (cs : Cells Ip T) × Repr lib.dec i.reputation.state cs

  module _ (fits : Fits lib.find_iter) where
    signatures-Live :
        (held : Held Ip T) (req : Request Ip)
        → Live held
        → Live (inspect_signatures lib clock held req).0
    unfolding inspect_signatures
    signatures-Live held req h =
        let run =
          inspect-firsts lib.find_iter req (All-flat_map _ lib.find_iter fits (fields req)) in
        rw (run, Live) h

    reputation-Live :
        (held : Held Ip T) (req : Request Ip)
        → Live held
        → Live (inspect_reputation lib clock held req).0
    unfolding inspect_reputation
    reputation-Live none req h = h
    reputation-Live (some i) req (clean, listed, cs, r) =
        let (t, cs', run, r', _) =
          inspect-Served lib.dec lib.float lib.show_ip i.reputation (clock i.readings) req.source_ip
            cs clean r in
        rw (run, Live) (clean, listed, cs', r')

    pub group-Live :
        (g : Group) (held : Held Ip T) (req : Request Ip)
        → Live held
        → Live (inspect_group lib clock g held req).0
    unfolding inspect_group
    group-Live Group.injection held req h = h
    group-Live Group.signatures held req h = signatures-Live held req h
    group-Live Group.structural held req h = h
    group-Live Group.reputation held req h = reputation-Live held req h

    pub engine-Live :
        (cfg : Config) (gs en : List Group) (held : Held Ip T) (req : Request Ip)
        → Live held
        → Live (engine_inspect (engine (detector_of lib clock) cfg gs) held req en).0
    unfolding engine detector_of engine_inspect
    engine-Live cfg [] en held req h = h
    engine-Live cfg (g ∷ gs) en held req h = elim (Bool-cases (is_enabled en g)) [
      | inl on ↦ rw on (engine-Live cfg gs en _ req (group-Live g held req h))
      | inr off ↦ rw off (engine-Live cfg gs en held req h)
    ]

    pub inspect-Live :
        (parsed : Option Config) (held : Held Ip T) (h : Host) (o : Outcome (Held Ip T))
        → Live held
        → inspect lib.percent_decode lib.parse lib.unspecified (guest lib clock parsed) held h
          ≡ some o
        → Live o.detectors
    unfolding guest state
    inspect-Live parsed held h o live run =
        let st = guest lib clock parsed in
        inspect-keeps Live st held live
          (λ req. engine-Live st.cfg st.enabled_groups st.enabled_groups held req live)
          lib.percent_decode lib.parse lib.unspecified h o run

    module _ (parsed : Option Config) where
      pub handle_request-runs :
          (i : Inner Ip T) (h : Host)
          → Live (some i)
          → (o : Outcome (Held Ip T)) × (i' : Inner Ip T) × (inspect lib.percent_decode lib.parse
                lib.unspecified
                (guest lib clock parsed)
                (some i)
                h
              ≡ some o)
            × (handle_request lib clock (guest lib clock parsed) i h ≡ some (handled_of i' o))
            × Live (some i')
            × Signalled (handled_of i' o)
      unfolding handle_request
      handle_request-runs i h live =
          let (o, run, answered) =
            inspect-Answered lib.percent_decode lib.parse lib.unspecified (guest lib clock parsed)
              (some i) h in
          let after = inspect-Live parsed (some i) h o live run in
          elim (Option-cases o.detectors) [
            | inl gone ↦ absurd (subst Live gone after)
            | inr (i', here) ↦ (
              o,
              i',
              run,
              rw (run, here),
              subst Live here after,
              Answered-Signalled i' o answered,
            )
          ]

      pub handle_requests-runs :
          (hs : List Host) (i : Inner Ip T)
          → Live (some i)
          → (rs : List (Handled Ip T)) × (handle_requests lib clock (guest lib clock parsed) i hs
              ≡ some rs)
            × (length rs ≡ length hs)
            × All Signalled rs
      unfolding handle_requests
      handle_requests-runs [] i live = ([], refl, refl, tt)
      handle_requests-runs (h ∷ hs) i live =
          let (o, i', _, run, live', signalled) = handle_request-runs i h live in
          let (rs, runs, same, all_signalled) = handle_requests-runs hs i' live' in
          (handled_of i' o ∷ rs, rw (run, runs), ap suc same, (signalled, all_signalled))

  pub initial-Live :
      (cfg : Config)
      → denied ≡ parse_deny_list lib clock cfg.reputation.deny_list
      → max cfg.reputation.max_tracked_ips 1 ≤ nil
      → Live (some (initial lib clock cfg))
  unfolding initial with_capacity
  initial-Live cfg same room = (
    refl,
    ap (deny_list_new lib.dec) (sym same),
    [],
    new-Repr lib.dec lib.float cfg.reputation.per_second cfg.reputation.max_tracked_ips room,
  )
