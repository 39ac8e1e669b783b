-- ===== src/Relay/Pipeline/Labels.antt =====
-- The labels that `take_labels` of crates/purple-wolf-relay/src/pipeline.rs finds in an event.
use purple_wolf.Prelude.Maps
use purple_wolf.Prelude.{
  Bool, true, false, if◌then◌else◌, List, [], ◌∷◌, Option, none, some, or_else, unwrap_or, ◌>>=◌,
  Option-cases, codes, str_eq, str_eq→eq, str_eq_refl, subst, Str, ◌≡◌, inl, inr, refl, ap, ◌∙◌,
  Bool-cases,
}
use purple_wolf.Relay.Pipeline.{Json, collect_labels, take_labels}

if-same : {A : Type 0} (b : Bool) (a : A) → (if b then a else a) ≡ a
if-same true a = refl
if-same false a = refl

eq-not : (k' k : Str) → k' ≡ k → ¬ (str_eq k' k ≡ false)
eq-not k' k same e = cc (subst (λ x. str_eq k' x ≡ true) same (str_eq_refl k'), e)

none-ne : {s : Str} → ¬ (none ≡ some s)
none-ne e = cc

module _ {J : Type 0} (j : Json J) where
  -- The last value under a key, if it is a text.
  abbrev pub last_text : Str → List (Str × J) → Option Str
  last_text k [] = none
  last_text k ((k', v) ∷ entries) =
      or_else (last_text k entries) (if str_eq k' k then j.as_str v else none)

  -- The entries of the object under `labels` in an event.
  abbrev pub label_entries : J → List (Str × J)
  label_entries event = unwrap_or ((j.remove event (codes "labels")).0 >>= j.as_object) []

  or_else_assoc : (a b c : Option Str) → or_else a (or_else b c) ≡ or_else (or_else a b) c
  or_else_assoc none b c = refl
  or_else_assoc (some s) b c = refl

  get-insert :
      (out : List (Str × Str)) (k' k s : Str)
      → Maps.get (Maps.insert out k' s) k
        ≡ or_else (if str_eq k' k then some s else none) (Maps.get out k)
  get-insert out k' k s = elim (Bool-cases (str_eq k' k)) [
    | inl e ↦ rw e (
        subst (λ x. Maps.get (Maps.insert out k' s) x ≡ some s) (str_eq→eq k' k e)
          (Maps.get-insert_self out k' s))
    | inr e ↦ rw e (Maps.get-insert_ne out k' k s (λ same. eq-not k' k same e))
  ]

  -- A step of the loop over the entries.
  collect-step :
      (entries : List (Str × J)) (k' k : Str) (out : List (Str × Str)) (o : Option Str)
      → ((m : List (Str × Str))
          → Maps.get (collect_labels j m entries) k ≡ or_else (last_text k entries) (Maps.get m k))
      → Maps.get
          (elim o [
            | none ↦ collect_labels j out entries
            | some s ↦ collect_labels j (Maps.insert out k' s) entries
          ])
          k
        ≡ or_else (or_else (last_text k entries) (if str_eq k' k then o else none)) (Maps.get out k)
  collect-step entries k' k out none later =
      rw (if-same {A = Option Str} (str_eq k' k) none)
        (later out ∙ or_else_assoc (last_text k entries) none (Maps.get out k))
  collect-step entries k' k out (some s) later =
      later (Maps.insert out k' s)
      ∙ ap (or_else (last_text k entries)) (get-insert out k' k s)
      ∙ or_else_assoc (last_text k entries) _ (Maps.get out k)

  get-collect_labels :
      (entries : List (Str × J)) (out : List (Str × Str)) (k : Str)
      → Maps.get (collect_labels j out entries) k ≡ or_else (last_text k entries) (Maps.get out k)
  unfolding collect_labels
  get-collect_labels [] out k = refl
  get-collect_labels ((k', v) ∷ entries) out k =
      collect-step entries k' k out (j.as_str v) (λ m. get-collect_labels entries m k)

  pub take_labels-last_text :
      (event : J) (k s : Str)
      → last_text k (label_entries event) ≡ some s
      → Maps.get (take_labels j event).0 k ≡ some s
  unfolding take_labels Maps.get
  take_labels-last_text event k s h =
      elim (Option-cases ((j.remove event (codes "labels")).0 >>= j.as_object)) [
        | inl e ↦ absurd (none-ne (rw (e, label_entries) at h))
        | inr (entries, e) ↦ rw e (
            get-collect_labels entries [] k ∙ ap (λ o. or_else o none) (rw (e, label_entries) at h))
      ]
