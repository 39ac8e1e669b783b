-- ===== src/Request/Fields.antt =====
-- The iterator `InspectableFields` of crates/purple-wolf-core/src/request.rs against the list of fields.
use purple_wolf.Prelude.{
  ℕ, zero, suc, ◌≤◌, Bool, true, false, List, [], ◌∷◌, ◌++◌, map, length, get_elem?, drop, Option,
  none, some, if◌then◌else◌, Bytes, Str, ◌≡◌, refl, arith, get_elem?-drop_nil, get_elem?-drop_cons,
}
use purple_wolf.Request.{
  Request, InspectableFields, InspectablePhase, Round, round, next, inspectable_fields, query_round,
  body_round, headers_round,
}

-- The phases only move forward, so this fuel lasts for every call of `next`.
abbrev pub rounds : ℕ
rounds = 5

-- The list behind an element that is there or not.
abbrev optional : Bool → Bytes → List Bytes → List Bytes
optional b v rest = (if b then v ∷ [] else []) ++ rest

module _ {Ip : Type 0} where
  abbrev resume :
      (InspectableFields Ip → Option (List Bytes))
      → Option (InspectableFields Ip × Option Bytes)
      → Option (List Bytes)
  resume loop none = none
  resume loop (some (it, none)) = some []
  resume loop (some (it, some field)) = elim (loop it) [
    | none ↦ none
    | some fields ↦ some (field ∷ fields)
  ]

  -- What a `for` loop over the iterator sees; `none` where the fuel does not last.
  abbrev pub collect : ℕ → InspectableFields Ip → Option (List Bytes)
  collect zero it = none
  collect (suc fuel) it = resume (collect fuel) (next rounds it)

  abbrev pub body_fields : Request Ip → List Bytes
  body_fields r = if r.body_inspected then r.body ∷ [] else []

  -- The fields in the order of the documentation.
  unfoldable pub fields : Request Ip → List Bytes
  fields r = r.path ∷ (map (λ q. q.1) r.query_params ++ (body_fields r ++ r.inspectable_headers))

  abbrev at : Request Ip → InspectablePhase → ℕ → ℕ → InspectableFields Ip
  at r phase q h = record { req = r; phase = phase; query_idx = q; header_idx = h }

  elim-if :
      (b : Bool) (f : InspectableFields Ip → Option (InspectableFields Ip × Option Bytes))
      (it : InspectableFields Ip) (o : Option Bytes)
      → elim (if b then Round.returned it o else Round.again it) [
        | Round.returned it' o' ↦ some (it', o')
        | Round.again it' ↦ f it'
      ]
        ≡ (if b then some (it, o) else f it)
  elim-if true f it o = refl
  elim-if false f it o = refl

  next-headers_found :
      (n : ℕ) (r : Request Ip) (q h : ℕ) {v : Bytes}
      → get_elem? r.inspectable_headers h ≡ some v
      → next (suc n) (at r InspectablePhase.headers q h)
        ≡ some (at r InspectablePhase.headers q (suc h), some v)
  unfolding next round headers_round
  next-headers_found n r q h e = rw e

  next-headers_missing :
      (n : ℕ) (r : Request Ip) (q h : ℕ)
      → get_elem? r.inspectable_headers h ≡ none
      → next (suc (suc n)) (at r InspectablePhase.headers q h)
        ≡ some (at r InspectablePhase.done q h, none)
  unfolding next round headers_round
  next-headers_missing n r q h e = rw e

  next-query_found :
      (n : ℕ) (r : Request Ip) (q h : ℕ) {kv : Str × Str}
      → get_elem? r.query_params q ≡ some kv
      → next (suc n) (at r InspectablePhase.query q h)
        ≡ some (at r InspectablePhase.query (suc q) h, some kv.1)
  unfolding next round query_round
  next-query_found n r q h e = rw e

  next-query_missing :
      (n : ℕ) (r : Request Ip) (q h : ℕ)
      → get_elem? r.query_params q ≡ none
      → next (suc n) (at r InspectablePhase.query q h) ≡ next n (at r InspectablePhase.body q h)
  unfolding next round query_round
  next-query_missing n r q h e = rw e

  next-body :
      (n : ℕ) (r : Request Ip) (q h : ℕ)
      → next (suc n) (at r InspectablePhase.body q h) ≡ (
          if r.body_inspected
          then some (at r InspectablePhase.headers q h, some r.body)
          else next n (at r InspectablePhase.headers q h))
  unfolding next round body_round
  next-body n r q h =
      elim-if r.body_inspected (next n) (at r InspectablePhase.headers q h) (some r.body)

  resume-headers :
      (r : Request Ip) (n q h fuel : ℕ) (rest : List Bytes)
      → drop h r.inspectable_headers ≡ rest
      → length rest ≤ fuel
      → resume (collect fuel) (next (suc (suc n)) (at r InspectablePhase.headers q h)) ≡ some rest
  unfolding next
  resume-headers r n q h fuel [] e fits =
      rw (next-headers_missing n r q h (get_elem?-drop_nil r.inspectable_headers h e))
  resume-headers r n q h zero (v ∷ vs) e fits = absurd (omega arith)
  resume-headers r n q h (suc fuel) (v ∷ vs) e fits =
      let found = get_elem?-drop_cons r.inspectable_headers h e in
      rw (
        next-headers_found (suc n) r q h found.0,
        resume-headers r 3 q (suc h) fuel vs found.1 (omega arith),
      )

  resume-body :
      (r : Request Ip) (b : Bool) (n q fuel : ℕ)
      → length (optional b r.body r.inspectable_headers) ≤ fuel
      → resume (collect fuel) (
          if b
          then some (at r InspectablePhase.headers q 0, some r.body)
          else next (suc (suc n)) (at r InspectablePhase.headers q 0))
        ≡ some (optional b r.body r.inspectable_headers)
  unfolding next
  resume-body r true n q zero fits = absurd (omega arith)
  resume-body r true n q (suc fuel) fits =
      rw (resume-headers r 3 q 0 fuel r.inspectable_headers refl (omega arith))
  resume-body r false n q fuel fits = resume-headers r n q 0 fuel r.inspectable_headers refl fits

  resume-query :
      (r : Request Ip) (n q fuel : ℕ) (rest : List (Str × Str))
      → drop q r.query_params ≡ rest
      → length (map (λ p. p.1) rest ++ (body_fields r ++ r.inspectable_headers)) ≤ fuel
      → resume (collect fuel) (next (suc (suc (suc (suc n)))) (at r InspectablePhase.query q 0))
        ≡ some (map (λ p. p.1) rest ++ (body_fields r ++ r.inspectable_headers))
  unfolding next
  resume-query r n q fuel [] e fits =
      rw
        (
          next-query_missing (suc (suc (suc n))) r q 0 (get_elem?-drop_nil r.query_params q e),
          next-body (suc (suc n)) r q 0,
        )
        (resume-body r r.body_inspected n q fuel fits)
  resume-query r n q zero (v ∷ vs) e fits = absurd (omega arith)
  resume-query r n q (suc fuel) (v ∷ vs) e fits =
      let found = get_elem?-drop_cons r.query_params q e in
      rw (
        next-query_found (suc (suc (suc n))) r q 0 found.0,
        resume-query r 1 (suc q) fuel vs found.1 (omega arith),
      )

  -- A loop over the inspectable fields of a request ends, and sees the path, the value of every query
  -- parameter, the body when it was read, and the inspectable header values, each once and in this order.
  pub collect-inspectable_fields :
      (r : Request Ip) (fuel : ℕ)
      → suc (length (fields r)) ≤ fuel
      → collect fuel (inspectable_fields r) ≡ some (fields r)
  unfolding fields inspectable_fields next round
  collect-inspectable_fields r zero fits = absurd (omega arith)
  collect-inspectable_fields r (suc zero) fits = absurd (omega arith)
  collect-inspectable_fields r (suc (suc fuel)) fits =
      rw (resume-query r 1 0 fuel r.query_params refl (omega arith))
