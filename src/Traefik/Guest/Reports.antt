-- ===== src/Traefik/Guest/Reports.antt =====
-- The verdicts of one detector among those of the engine that `engine` of
-- crates/purple-wolf-traefik/src/entry.rs builds.
use purple_wolf.Config.{Config}
use purple_wolf.Detectors.{Group, Verdict, Mode, GroupMode, engine_inspect, is_enabled, group_eq}
use purple_wolf.Policy.Laws.{is_enforced}
use purple_wolf.Policy.{both_enforce}
use purple_wolf.Prelude.{
  ℕ, Bool, true, false, ◌||◌, List, [], ◌∷◌, ◌++◌, keep, any, ◌≡◌, refl, sym, ap, ◌∙◌, subst, ◌⊎◌,
  inl, inr, Bool-cases, arith,
}
use purple_wolf.Request.{Request}
use purple_wolf.Traefik.Entry.{get, from_config, effective_group_mode, engine}
use purple_wolf.Traefik.Guest.Live.{Fits, Live, group-Live}
use purple_wolf.Traefik.Guest.{Libraries, Held, inspect_group, detector_of}

pub any-append :
    {A : Type 0} (p : A → Bool) (xs ys : List A) → any p (xs ++ ys) ≡ (any p xs || any p ys)
unfolding any
any-append p [] ys = refl
any-append p (x ∷ xs) ys = ground (arith, any-append p xs ys)

or-true : (a b : Bool) → b ≡ true → (a || b) ≡ true
or-true true b h = refl
or-true false b h = h

pub or-left : (a b : Bool) → a ≡ true → (a || b) ≡ true
or-left true b h = refl
or-left false b h = absurd cc

or-cases : (a b : Bool) → (a || b) ≡ true → (a ≡ true) ⊎ (b ≡ true)
or-cases true b h = inl refl
or-cases false b h = inr h

group_eq-eq : (a b : Group) → group_eq a b ≡ true → a ≡ b
unfolding group_eq
group_eq-eq Group.injection Group.injection h = refl
group_eq-eq Group.signatures Group.signatures h = refl
group_eq-eq Group.structural Group.structural h = refl
group_eq-eq Group.reputation Group.reputation h = refl
group_eq-eq _ _ h = cc

pub any-keep :
    (f : Group → Bool) (target : Group) (gs : List Group)
    → f target ≡ true
    → any (group_eq target) gs ≡ true
    → any (group_eq target) (keep f gs) ≡ true
unfolding any keep
any-keep f target [] on h = h
any-keep f target (g ∷ gs) on h = elim (or-cases (group_eq target g) _ h) [
  | inl here ↦ rw (sym (ap f (group_eq-eq target g here)) ∙ on, here)
  | inr there ↦ elim (Bool-cases (f g)) [
    | inl kept ↦ rw kept (or-true (group_eq target g) _ (any-keep f target gs on there))
    | inr dropped ↦ rw dropped (any-keep f target gs on there)
  ]
]

pub get-from_config :
    (cfg : Config) (g : Group) → get (from_config cfg) g ≡ effective_group_mode cfg g
unfolding get from_config
get-from_config cfg Group.injection = refl
get-from_config cfg Group.signatures = refl
get-from_config cfg Group.structural = refl
get-from_config cfg Group.reputation = refl

-- What a detector reports for its own group is enforced where the group is.
pub any-enforced :
    (m : Mode) (group_mode : Group → GroupMode) (target : Group) (vs : List Verdict)
    → m ≡ Mode.enforce
    → group_mode target ≡ GroupMode.enforce
    → any (λ v. group_eq target v.group) vs ≡ true
    → any (is_enforced m group_mode) vs ≡ true
unfolding any is_enforced both_enforce
any-enforced m group_mode target [] enforced on h = h
any-enforced m group_mode target (v ∷ vs) enforced on h =
    elim (or-cases (group_eq target v.group) _ h) [
      | inl here ↦ rw (enforced, sym (ap group_mode (group_eq-eq target v.group here)) ∙ on)
      | inr there ↦ or-true _ _ (any-enforced m group_mode target vs enforced on there)
    ]

true-false : {A : Type 0} (b : Bool) → b ≡ true → b ≡ false → A
true-false true h k = cc
true-false false h k = cc

module _ {Ip T : Type 0} (lib : Libraries Ip T) (clock : ℕ → ℕ) (denied : List Ip)
    (fits : Fits lib.find_iter) (cfg : Config) (target : Group) (req : Request Ip)
    (reports : (held : Held Ip T)
      → Live lib clock denied held
      → any (λ v. group_eq target v.group) (inspect_group lib clock target held req).1 ≡ true) where
  pub engine-reports :
      (gs en : List Group) (held : Held Ip T)
      → Live lib clock denied held
      → is_enabled en target ≡ true
      → any (group_eq target) gs ≡ true
      → any
          (λ v. group_eq target v.group)
          (engine_inspect (engine (detector_of lib clock) cfg gs) held req en).1
        ≡ true
  unfolding engine detector_of engine_inspect any
  engine-reports [] en held live on h = absurd cc
  engine-reports (g ∷ gs) en held live on h =
      let P = λ (v : Verdict). group_eq target v.group in
      elim (Bool-cases (is_enabled en g)) [
        | inl runs ↦
            let run = inspect_group lib clock g held req in
            let rest = (engine_inspect (engine (detector_of lib clock) cfg gs) run.0 req en).1 in
            rw (runs, any-append P run.1 rest)
              (elim (or-cases (group_eq target g) _ h) [
                | inl here ↦ or-left _ _ (
                    subst (λ g'. any P (inspect_group lib clock g' held req).1 ≡ true)
                      (group_eq-eq target g here) (reports held live))
                | inr there ↦ or-true _ _ (
                    engine-reports gs en run.0 (group-Live lib clock denied fits g held req live) on
                      there)
              ])
        | inr skipped ↦ elim (or-cases (group_eq target g) _ h) [
          | inl here ↦
              true-false (is_enabled en target) on
                (ap (is_enabled en) (group_eq-eq target g here) ∙ skipped)
          | inr there ↦ rw skipped (engine-reports gs en held live on there)
        ]
      ]
