-- ===== src/Request/Client.antt =====
-- `client_ip` of crates/purple-wolf-core/src/request.rs.
use purple_wolf.Prelude.{
  ℕ, zero, suc, ◌-◌, ◌<◌, ◌≤◌, false, List, [], ◌∷◌, ◌++◌, map, flat_map, keep, take, length,
  Option, none, some, or_else, unwrap_or, ltb, ◌==◌, lt→ltb, ==-ne, eq_ignore_ascii_case_refl,
  if◌then◌else◌, Str, codes, split, split-append, contains, trim, eq_ignore_ascii_case, ◌≡◌, refl,
  sym, inl, inr, Bool-cases, Option-cases, arith,
}
use purple_wolf.Request.{Header}

-- `parse` is the `FromStr` of `IpAddr`.
module _ {Ip : Type 0} (parse : Str → Option Ip) where
  -- The loop over the parts of one value that stand left of the trusted hops.
  unfoldable pub parts_loop : List Str → Option Ip
  parts_loop [] = none
  parts_loop (part ∷ parts) = let rest = parts_loop parts in or_else (parse (trim part)) rest

  unfoldable pub forwarded_value : ℕ → Str → Option Ip
  unfolding parts_loop
  forwarded_value trust_hops v =
      let part_count = length (split b',' v) in
      if ltb trust_hops part_count
      then parts_loop (take (part_count - trust_hops) (split b',' v))
      else none

  unfoldable pub forwarded_loop : ℕ → List Header → Option Ip
  unfolding forwarded_value
  forwarded_loop trust_hops [] = none
  forwarded_loop trust_hops ((k, v) ∷ hs) =
      let rest = forwarded_loop trust_hops hs in
      if eq_ignore_ascii_case k (codes "x-forwarded-for")
      then or_else (forwarded_value trust_hops v) rest
      else rest

  unfoldable pub real_ip_loop : List Header → Option Ip
  real_ip_loop [] = none
  real_ip_loop ((k, v) ∷ hs) =
      let rest = real_ip_loop hs in
      if eq_ignore_ascii_case k (codes "x-real-ip") then or_else (parse (trim v)) rest else rest

  unfoldable pub client_ip : List Header → Ip → ℕ → Ip
  unfolding forwarded_loop real_ip_loop
  client_ip headers peer trust_hops =
      if ltb 0 trust_hops
      then unwrap_or (or_else (forwarded_loop trust_hops headers) (real_ip_loop headers)) peer
      else peer

  -- The texts that are tried, in order.
  abbrev pub values : Str → List Header → List Str
  values name hs = map (λ h. h.1) (keep (λ h. eq_ignore_ascii_case h.0 name) hs)

  abbrev pub untrusted : ℕ → Str → List Str
  untrusted trust_hops v = take (length (split b',' v) - trust_hops) (split b',' v)

  unfoldable pub candidates : ℕ → List Header → List Str
  unfolding keep flat_map
  candidates trust_hops hs =
      flat_map (untrusted trust_hops) (values (codes "x-forwarded-for") hs)
      ++ values (codes "x-real-ip") hs

  parts_loop-append :
      (xs ys : List Str) → parts_loop (xs ++ ys) ≡ or_else (parts_loop xs) (parts_loop ys)
  unfolding parts_loop
  parts_loop-append [] ys = refl
  parts_loop-append (x ∷ xs) ys = elim (Option-cases (parse (trim x))) [
    | inl bad ↦ rw bad (parts_loop-append xs ys)
    | inr (ip, good) ↦ rw good
  ]

  nothing-left :
      (n : ℕ) (v : Str) → ltb n (length (split b',' v)) ≡ false → length (split b',' v) - n ≡ 0
  nothing-left n v h = ground arith

  forwarded_value-parts : (n : ℕ) (v : Str) → forwarded_value n v ≡ parts_loop (untrusted n v)
  unfolding forwarded_value parts_loop
  forwarded_value-parts n v = elim (Bool-cases (ltb n (length (split b',' v)))) [
    | inl more ↦ rw more
    | inr fewer ↦ rw (fewer, nothing-left n v fewer)
  ]

  forwarded_loop-parts :
      (n : ℕ) (hs : List Header)
      → forwarded_loop n hs
        ≡ parts_loop (flat_map (untrusted n) (values (codes "x-forwarded-for") hs))
  unfolding forwarded_loop parts_loop flat_map keep
  forwarded_loop-parts n [] = refl
  forwarded_loop-parts n ((k, v) ∷ hs) =
      elim (Bool-cases (eq_ignore_ascii_case k (codes "x-forwarded-for"))) [
        | inl named ↦
            rw (named, forwarded_value-parts n v, forwarded_loop-parts n hs)
              (sym (parts_loop-append (untrusted n v) _))
        | inr other ↦ rw (other, forwarded_loop-parts n hs)
      ]

  real_ip_loop-parts :
      (hs : List Header) → real_ip_loop hs ≡ parts_loop (values (codes "x-real-ip") hs)
  unfolding real_ip_loop parts_loop keep
  real_ip_loop-parts [] = refl
  real_ip_loop-parts ((k, v) ∷ hs) =
      elim (Bool-cases (eq_ignore_ascii_case k (codes "x-real-ip"))) [
        | inl named ↦ rw (named, real_ip_loop-parts hs)
        | inr other ↦ rw (other, real_ip_loop-parts hs)
      ]

  -- Without trusted hops the client is the peer. With some, it is the first address among the parts of
  -- each `X-Forwarded-For` value but as many at its right end as hops are trusted, in order, and behind
  -- them the `X-Real-IP` values; the peer when none of these is an address.
  pub client_ip-candidates :
      (headers : List Header) (peer : Ip) (trust_hops : ℕ)
      → client_ip headers peer trust_hops ≡ (
          if trust_hops == 0
          then peer
          else unwrap_or (parts_loop (candidates trust_hops headers)) peer)
  unfolding client_ip candidates
  client_ip-candidates headers peer zero = refl
  client_ip-candidates headers peer (suc n) = rw (
    forwarded_loop-parts (suc n) headers,
    real_ip_loop-parts headers,
    parts_loop-append (flat_map (untrusted (suc n)) (values (codes "x-forwarded-for") headers))
        (values (codes "x-real-ip") headers),
    lt→ltb 0 (suc n) (omega arith),
    ==-ne (suc n) 0 (omega arith),
  )

  forwarded_value-first :
      (n : ℕ) (text part : Str) (parts : List Str) (ip : Ip)
      → split b',' text ≡ part ∷ parts
      → n ≤ length parts
      → parse (trim part) ≡ some ip
      → forwarded_value n text ≡ some ip
  unfolding parts_loop
  forwarded_value-first n text part parts ip e enough found =
      let more : suc (length parts) - n ≡ suc (length parts - n) = omega arith in
      rw (forwarded_value-parts n text, e, more, found)

  -- A part put in front of the first `X-Forwarded-For` value, by the client, is the answer when it is
  -- an address, however the trusted proxies have filled the rest.
  pub client_ip-forged :
      (forged : Str) (v : Str) (hs : List Header) (peer ip : Ip) (trust_hops : ℕ)
      → 0 < trust_hops
      → trust_hops ≤ length (split b',' v)
      → contains b',' forged ≡ false
      → parse (trim forged) ≡ some ip
      → client_ip ((codes "x-forwarded-for", forged ++ b',' ∷ v) ∷ hs) peer trust_hops ≡ ip
  unfolding client_ip forwarded_loop
  client_ip-forged forged v hs peer ip zero some_hops enough apart found = elim some_hops [ ]
  client_ip-forged forged v hs peer ip (suc n) some_hops enough apart found = rw (
    forwarded_value-first (suc n) (forged ++ b',' ∷ v) forged (split b',' v) ip
        (split-append b',' forged v apart) enough found,
    lt→ltb 0 (suc n) some_hops,
    eq_ignore_ascii_case_refl (codes "x-forwarded-for"),
  )
