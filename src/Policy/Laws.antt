-- ===== src/Policy/Laws.antt =====
-- What `decide` does with its verdicts, on every branch.
use mathlib.Core.List.{Perm, perm_append_comm, perm_middle}
use mathlib.Core.List.Perm
use mathlib.Core.Option.{some-injective}
use purple_wolf.Detectors.{Group, Verdict, Mode, GroupMode}
use purple_wolf.Policy.Worst.{IsWorst, worst_index-first, swap_remove-perm}
use purple_wolf.Policy.{block, Decision, is_off, both_enforce, partition, action_of, choose, decide}
use purple_wolf.Prelude.{
  ℕ, Bool, true, false, not, ◌&&◌, Bool-cases, Option-cases, List, [], ◌∷◌, ◌++◌, length, keep, any,
  Option, none, some, ◌≡◌, ◌≢◌, ◌↔◌, refl, sym, ap, ◌∙◌, subst, inl, inr, arith, append-nil,
  append_assoc,
}

off-not-enforced :
    (global : Mode) (gm : GroupMode) → is_off gm ≡ true → both_enforce global gm ≡ false
unfolding is_off both_enforce
off-not-enforced Mode.monitor gm h = refl
off-not-enforced Mode.enforce GroupMode.off h = refl
off-not-enforced Mode.enforce _ h = cc

any_of_keep {ℓ} : {A : Type ℓ} (p : A → Bool) (xs : List A) → keep p xs ≢ [] → any p xs ≡ true
unfolding keep any
any_of_keep p [] h = absurd (h refl)
any_of_keep p (x ∷ xs) h = ground (arith, any_of_keep p xs)

keep-ne-nil {ℓ} : {A : Type ℓ} (p : A → Bool) (xs : List A) → any p xs ≡ true → keep p xs ≢ []
unfolding keep any
keep-ne-nil p [] h = cc
keep-ne-nil p (x ∷ xs) h = ground (arith, keep-ne-nil p xs)

pub to_list : Option Verdict → List Verdict
to_list none = []
to_list (some v) = v ∷ []

module _ (global : Mode) (group_mode : Group → GroupMode) where
  -- The verdict's group is on: its detector may report.
  pub is_live : Verdict → Bool
  is_live v = not (is_off (group_mode v.group))

  -- The verdict may block: the global mode and its group enforce.
  unfoldable pub is_enforced : Verdict → Bool
  is_enforced v = both_enforce global (group_mode v.group)

  -- The verdict is only reported.
  pub is_reported : Verdict → Bool
  unfolding is_live is_enforced
  is_reported v = is_live v && not (is_enforced v)

  pub partition-keep :
      (vs pool would : List Verdict)
      → partition global group_mode vs pool would
        ≡ (pool ++ keep is_enforced vs, would ++ keep is_reported vs)
  unfolding partition keep is_reported
  partition-keep [] pool would = simp append-nil
  partition-keep (v ∷ vs) pool would = ground (
    arith,
    off-not-enforced global (group_mode v.group),
    partition-keep vs pool would,
    partition-keep vs (pool ++ v ∷ []) would,
    partition-keep vs pool (would ++ v ∷ []),
    append_assoc pool (v ∷ []) (keep is_enforced vs),
    append_assoc would (v ∷ []) (keep is_reported vs),
  )

  live-perm :
      (vs : List Verdict) → Perm (keep is_enforced vs ++ keep is_reported vs) (keep is_live vs)
  unfolding keep is_reported
  live-perm [] = Perm.refl []
  live-perm (v ∷ vs) = elim (Bool-cases (is_off (group_mode v.group))) [
    | inl e ↦ rw (e, off-not-enforced global (group_mode v.group) e) (live-perm vs)
    | inr e ↦ elim (Bool-cases (both_enforce global (group_mode v.group))) [
      | inl e' ↦ rw (e, e') (Perm.cons v (live-perm vs))
      | inr e' ↦
          rw (e, e')
            (Perm.trans (perm_middle (keep is_enforced vs) (keep is_reported vs))
              (Perm.cons v (live-perm vs)))
    ]
  ]

  -- `choose` takes the first worst verdict of the pool, and keeps all others.
  pub record Chosen (pool would : List Verdict) (r : Option Verdict × List Verdict) : Type 0 where
    pub all_kept : Perm (to_list r.0 ++ r.1) (pool ++ would)
    pub none_iff : (r.0 ≡ none) ↔ (pool ≡ [])
    pub worst : (v : Verdict) → r.0 ≡ some v → (k : ℕ) × IsWorst pool k (length pool) v

  choose-Chosen :
      (pool would : List Verdict)
      → (r : Option Verdict × List Verdict) × (choose pool would ≡ some r) × Chosen pool would r
  unfolding choose to_list
  choose-Chosen [] would = (
    (none, would),
    refl,
    record { all_kept = Perm.refl would; none_iff = (λ _. refl, λ _. refl); worst = λ v h. cc },
  )
  choose-Chosen (v ∷ vs) would =
      let (k, w, found, is) = worst_index-first v vs in
      let (rest, removed, p) = swap_remove-perm (v ∷ vs) k is.at in
      (
        (some w, would ++ rest),
        rw (found, removed),
        record {
          all_kept =
              Perm.trans (Perm.cons w (perm_append_comm would rest)) (Perm.append_right would p);
          none_iff = (λ h. cc, λ h. cc);
          worst = λ u h.
              (k, subst (λ z. IsWorst (v ∷ vs) k (length (v ∷ vs)) z) (some-injective _ _ h) is);
        },
      )

  -- The verdicts that enforce, which are what may block.
  abbrev pub pool_of : List Verdict → List Verdict
  pool_of vs = keep is_enforced vs

  decide-Chosen :
      (vs : List Verdict)
      → (d : Decision) × (decide vs global group_mode ≡ some d)
        × Chosen (pool_of vs) (keep is_reported vs) (d.blocked_by, d.would_block)
        × (d.action ≡ action_of d.blocked_by)
  unfolding decide
  decide-Chosen vs =
      let (r, run, c) = choose-Chosen (pool_of vs) (keep is_reported vs) in
      (
        record { action = action_of r.0; blocked_by = r.0; would_block = r.1 },
        rw (partition-keep vs [] [], run),
        c,
        refl,
      )

  Chosen-of :
      (vs : List Verdict) (d : Decision)
      → decide vs global group_mode ≡ some d
      → Chosen (pool_of vs) (keep is_reported vs) (d.blocked_by, d.would_block)
        × (d.action ≡ action_of d.blocked_by)
  Chosen-of vs d h =
      let (d', run, c, act) = decide-Chosen vs in
      subst
        (λ e.
          Chosen (pool_of vs) (keep is_reported vs) (e.blocked_by, e.would_block)
          × (e.action ≡ action_of e.blocked_by))
        (some-injective _ _ (sym run ∙ h)) (c, act)

  -- `decide` never indexes out of range, and loses no verdict: the blocking verdict and the reported
  -- ones are together a permutation of the verdicts whose group is not off.
  pub decide-perm :
      (vs : List Verdict)
      → (d : Decision) × (decide vs global group_mode ≡ some d)
        × Perm (to_list d.blocked_by ++ d.would_block) (keep is_live vs)
  decide-perm vs =
      let (d, run, c, _) = decide-Chosen vs in (d, run, Perm.trans c.all_kept (live-perm vs))

  -- A request is blocked exactly when some verdict's group enforces while the global mode does.
  pub decide-block_iff :
      (vs : List Verdict) (d : Decision)
      → decide vs global group_mode ≡ some d
      → (d.action ≡ block) ↔ (any is_enforced vs ≡ true)
  decide-block_iff vs d h =
      let (c, act) = Chosen-of vs d h in
      elim (Option-cases d.blocked_by) [
        | inl e ↦ (
          λ b. absurd (ground (arith, act, e)),
          λ a. absurd (keep-ne-nil is_enforced vs a (c.none_iff.0 e)),
        )
        | inr (v, e) ↦ (
          λ _. any_of_keep is_enforced vs (λ n. absurd (ground (arith, e, c.none_iff.1 n))),
          λ _. act ∙ ap action_of e,
        )
      ]

  -- The verdict that blocks is the first one of the highest severity among those that enforce.
  pub decide-IsWorst :
      (vs : List Verdict) (d : Decision) (v : Verdict)
      → decide vs global group_mode ≡ some d
      → d.blocked_by ≡ some v
      → (k : ℕ) × IsWorst (pool_of vs) k (length (pool_of vs)) v
  decide-IsWorst vs d v h e = (Chosen-of vs d h).0.worst v e
