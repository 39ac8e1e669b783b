-- ===== src/Relay/Config/Validated.antt =====
-- What holds of a configuration that passed the checks.
use purple_wolf.Prelude.Maps
use purple_wolf.Prelude.{
  ◌≤◌, Bool, true, false, not, ltb, ◌==◌, List, [], ◌∷◌, All, Option, none, some, Str, Bytes, map,
  trim, ◌≡◌, ◌≢◌, ◌⊎◌, refl, sym, ◌∙◌, subst, arith, inl, inr,
}
use purple_wolf.Relay.Config.{
  Config, SubscriberConfig, RelayConfig, Resolved, ConfigError, Checked, ok, bail, ◌>>=◌, Outside,
  bail_if, ok_or, is_empty, trim_trailing, resolve_admin_token, secret, check_ids, scheme_ok,
  check_subscribers, validate, resolved,
}

-- What the runs of the checks pass through, for any tests and results.
guards-pass :
    {X : Type 0} (b c d : Bool) (k : Checked Bytes) (f : Bytes → Checked X) (e₀ e₁ e₂ : ConfigError)
    (r : X)
    → (bail_if (not b) e₀ >>= λ _. k >>= λ k. bail_if c e₁ >>= λ _. bail_if d e₂ >>= λ _. f k)
      ≡ Checked.ok r
    → (b ≡ true)
      × (c ≡ false)
      × (d ≡ false)
      × (k' : Bytes) × (k ≡ Checked.ok k')
      × (f k' ≡ Checked.ok r)
guards-pass false c d k f e₀ e₁ e₂ r h = cc
guards-pass true c d (bail e) f e₀ e₁ e₂ r h = cc
guards-pass true true d (ok k) f e₀ e₁ e₂ r h = cc
guards-pass true false true (ok k) f e₀ e₁ e₂ r h = cc
guards-pass true false false (ok k) f e₀ e₁ e₂ r h = (refl, refl, refl, k, refl, h)

checks-pass :
    {S T R : Type 0} (b c : Bool) (ids : Checked (Unit {0})) (secrets : Checked S)
    (token : Checked T) (f : S → T → R) (e₀ e₁ : ConfigError) (r : R)
    → (bail_if b e₀ >>= λ _.
        bail_if c e₁ >>= λ _. ids >>= λ _. secrets >>= λ s. token >>= λ t. Checked.ok (f s t))
      ≡ Checked.ok r
    → (b ≡ false)
      × (c ≡ false)
      × (ids ≡ Checked.ok tt)
      × (s : S) × (secrets ≡ Checked.ok s)
      × (t : T) × (token ≡ Checked.ok t)
      × (f s t ≡ r)
checks-pass true c ids secrets token f e₀ e₁ r h = cc
checks-pass false true ids secrets token f e₀ e₁ r h = cc
checks-pass false false (bail e) secrets token f e₀ e₁ r h = cc
checks-pass false false (ok u) (bail e) token f e₀ e₁ r h = cc
checks-pass false false (ok u) (ok s) (bail e) f e₀ e₁ r h = cc
checks-pass false false (ok u) (ok s) (ok t) f e₀ e₁ r h = (refl, refl, refl, s, refl, t, refl, cc)

guard-pass :
    {X : Type 0} (b : Bool) (e : ConfigError) (c : Checked X) (r : X)
    → (bail_if b e >>= λ _. c) ≡ Checked.ok r
    → (b ≡ false) × (c ≡ Checked.ok r)
guard-pass true e c r h = cc
guard-pass false e c r h = (refl, h)

is_empty-ne : {A : Type 0} (xs : List A) → is_empty xs ≡ false → xs ≢ []
is_empty-ne [] h = cc
is_empty-ne (x ∷ xs) h = λ e. cc

read-nonempty :
    {X : Type 0} (v : Option Str) (f : Str → Str) (g : Str → X) (e₀ e₁ : ConfigError) (r : X)
    → (ok_or v e₀ >>= λ v. bail_if (is_empty (f v)) e₁ >>= λ _. Checked.ok (g (f v))) ≡ Checked.ok r
    → (k : Str) × (r ≡ g k) × (k ≢ [])
read-nonempty none f g e₀ e₁ r h = cc
read-nonempty (some v) f g e₀ e₁ r h =
    let (full, e) = guard-pass (is_empty (f v)) e₁ (Checked.ok (g (f v))) r h in
    (f v, cc, is_empty-ne (f v) full)

secret-nonempty :
    (o : Outside) (id : Str) (env file : Option Str) (r : Bytes)
    → secret o id env file ≡ Checked.ok r
    → (k : Bytes) × (r ≡ k) × (k ≢ [])
unfolding secret
secret-nonempty o id (some env_name) (some path) r h = cc
secret-nonempty o id none none r h = cc
secret-nonempty o id (some env_name) none r h =
    read-nonempty (o.var env_name) (λ v. v) (λ v. v) _ _ r h
secret-nonempty o id none (some path) r h =
    read-nonempty (o.read path) trim_trailing (λ v. v) _ _ r h

-- The admin surface is open exactly where no token is configured, and a token is not empty.
abbrev pub Guarded : RelayConfig → Option Str → Type 0
Guarded relay t =
    ((relay.admin_token_env ≡ none) × (relay.admin_token_file ≡ none) × (t ≡ none))
    ⊎ ((k : Str) × (t ≡ some k) × (k ≢ []))

token-nonempty :
    (o : Outside) (env file t : Option Str)
    → resolve_admin_token o env file ≡ Checked.ok t
    → ((env ≡ none) × (file ≡ none) × (t ≡ none)) ⊎ ((k : Str) × (t ≡ some k) × (k ≢ []))
unfolding resolve_admin_token
token-nonempty o (some env_name) (some path) t h = cc
token-nonempty o none none t h = inl (refl, refl, cc)
token-nonempty o (some env_name) none t h =
    inr (read-nonempty (o.var env_name) (λ v. v) some _ _ t h)
token-nonempty o none (some path) t h =
    inr (read-nonempty (o.read_to_string path) trim some _ _ t h)

-- No id occurs again behind itself, nor among those seen before.
abbrev pub Distinct : List Str → Type 0
Distinct [] = Unit
Distinct (id ∷ ids) = All (λ j. id ≢ j) ids × Distinct ids

abbrev ids_of : List SubscriberConfig → List Str
ids_of subs = map (λ s. s.id) subs

check_ids-fresh :
    (seen : List (Str × Unit {0})) (id : Str) (subs : List SubscriberConfig) (u : Unit {0})
    → check_ids seen subs ≡ Checked.ok u
    → Maps.contains_key seen id ≡ true
    → All (λ j. id ≢ j) (ids_of subs)
unfolding check_ids
check_ids-fresh seen id [] u h there = tt
check_ids-fresh seen id (s ∷ subs) u h there =
    let (new, h') =
      guard-pass (Maps.contains_key seen s.id) _ (check_ids (Maps.insert seen s.id tt) subs) u h in
    (
      λ e. cc,
      check_ids-fresh (Maps.insert seen s.id tt) id subs u h'
          (Maps.contains_key-insert seen s.id id tt there),
    )

check_ids-Distinct :
    (seen : List (Str × Unit {0})) (subs : List SubscriberConfig) (u : Unit {0})
    → check_ids seen subs ≡ Checked.ok u
    → Distinct (ids_of subs)
unfolding check_ids
check_ids-Distinct seen [] u h = tt
check_ids-Distinct seen (s ∷ subs) u h =
    let (new, h') =
      guard-pass (Maps.contains_key seen s.id) _ (check_ids (Maps.insert seen s.id tt) subs) u h in
    (
      check_ids-fresh (Maps.insert seen s.id tt) s.id subs u h'
          (Maps.contains_key-insert_self seen s.id tt),
      check_ids-Distinct (Maps.insert seen s.id tt) subs u h',
    )

-- What the loop has checked of a subscriber, and that its secret is in the table.
pub record Sound (secrets : List (Str × Bytes)) (s : SubscriberConfig) : Type 0 where
  pub scheme : scheme_ok s.url ≡ true
  pub attempts : 1 ≤ s.retry.max_attempts
  pub delays : s.retry.base_delay_ms ≤ s.retry.max_delay_ms
  pub key : Bytes
  pub held : Maps.get secrets s.id ≡ some key
  pub full : key ≢ []

check_subscribers-cons :
    (o : Outside) (m r : List (Str × Bytes)) (s : SubscriberConfig) (subs : List SubscriberConfig)
    → check_subscribers o m (s ∷ subs) ≡ Checked.ok r
    → (scheme_ok s.url ≡ true)
      × (s.retry.max_attempts == 0 ≡ false)
      × (ltb s.retry.max_delay_ms s.retry.base_delay_ms ≡ false)
      × (k : Bytes) × (secret o s.id s.secret_env s.secret_file ≡ Checked.ok k)
      × (check_subscribers o (Maps.insert m s.id k) subs ≡ Checked.ok r)
unfolding check_subscribers
check_subscribers-cons o m r s subs h =
    guards-pass (scheme_ok s.url) (s.retry.max_attempts == 0)
      (ltb s.retry.max_delay_ms s.retry.base_delay_ms) (secret o s.id s.secret_env s.secret_file)
      (λ k. check_subscribers o (Maps.insert m s.id k) subs) _ _ _ r h

-- The secret of an id that does not come again is not overwritten.
check_subscribers-get :
    (o : Outside) (m r : List (Str × Bytes)) (id : Str) (subs : List SubscriberConfig)
    → check_subscribers o m subs ≡ Checked.ok r
    → All (λ j. id ≢ j) (ids_of subs)
    → Maps.get r id ≡ Maps.get m id
unfolding check_subscribers
check_subscribers-get o m r id [] h apart = cc
check_subscribers-get o m r id (s ∷ subs) h (ne, apart) =
    let (_, _, _, k, _, h') = check_subscribers-cons o m r s subs h in
    check_subscribers-get o (Maps.insert m s.id k) r id subs h' apart
    ∙ Maps.get-insert_ne m s.id id k (λ e. ne (sym e))

check_subscribers-Sound :
    (o : Outside) (m r : List (Str × Bytes)) (subs : List SubscriberConfig)
    → check_subscribers o m subs ≡ Checked.ok r
    → Distinct (ids_of subs)
    → All (Sound r) subs
check_subscribers-Sound o m r [] h distinct = tt
check_subscribers-Sound o m r (s ∷ subs) h (apart, distinct) =
    let (scheme, attempts, delays, k, found, h') = check_subscribers-cons o m r s subs h in
    let (k', e, full) = secret-nonempty o s.id s.secret_env s.secret_file k found in
    (
      record {
        scheme = scheme;
        attempts = ground arith;
        delays = ground arith;
        key = k;
        held =
            check_subscribers-get o (Maps.insert m s.id k) r s.id subs h' apart
            ∙ Maps.get-insert_self m s.id k;
        full = subst (λ z. z ≢ []) (sym e) full;
      },
      check_subscribers-Sound o (Maps.insert m s.id k) r subs h' distinct,
    )

pub record Valid (cfg : Config) (r : Resolved) : Type 0 where
  pub raw : r.raw ≡ cfg
  pub sources : cfg.sources ≢ []
  pub queue : 1 ≤ cfg.relay.subscriber_queue
  pub distinct : Distinct (ids_of cfg.subscribers)
  pub sound : All (Sound r.subscriber_secrets) cfg.subscribers
  pub guarded : Guarded cfg.relay r.admin_token

-- A configuration that passes `validate` has a source, room in the queues, subscribers with different ids,
-- each with an http or https address, at least one attempt, a base delay within the maximum, and under its
-- id in the table of secrets a key that is not empty; and the admin surface is left open only where no
-- token is configured.
pub validate-Valid :
    (o : Outside) (cfg : Config) (r : Resolved) → validate o cfg ≡ Checked.ok r → Valid cfg r
unfolding validate resolved
validate-Valid o cfg r h =
    let (some_source, some_room, ids, secrets, read, token, found, e) =
      checks-pass (is_empty cfg.sources) (cfg.relay.subscriber_queue == 0)
        (check_ids [] cfg.subscribers) (check_subscribers o [] cfg.subscribers)
        (resolve_admin_token o cfg.relay.admin_token_env cfg.relay.admin_token_file)
        (resolved o cfg) _ _ r h in
    let distinct = check_ids-Distinct [] cfg.subscribers tt ids in
    subst (Valid cfg) e (record {
      raw = refl;
      sources = is_empty-ne cfg.sources some_source;
      queue = ground arith;
      distinct = distinct;
      sound = check_subscribers-Sound o [] secrets cfg.subscribers read distinct;
      guarded = token-nonempty o cfg.relay.admin_token_env cfg.relay.admin_token_file token found;
    })
