-- ===== src/Relay/Delivery/Accounts.antt =====
-- What a delivery comes to, whatever the subscriber answers.
use purple_wolf.Prelude.{
  ℕ, zero, suc, ◌+◌, ◌<◌, ◌≤◌, max, false, leb, List, [], ◌∷◌, ◌++◌, map, length, Option, some, ◌≡◌,
  ◌⊎◌, inl, inr, refl, ap, ◌∙◌, arith, Bool-cases, append_assoc,
}
use native.Mathlib.Numerals.{add-one}
use purple_wolf.Relay.Delivery.{
  AttemptOutcome, Outcome, Turn, Sink, attempt_one, tried, back_off, bump_outcome, update_dlq_depth,
  bury, settle, deliver_loop, deliver_with_retries,
}
use purple_wolf.Relay.Dlq.{push}
use purple_wolf.Relay.Envelope.{Envelope, with_attempt}

-- The same audit event on another attempt.
pub record Same {J : Type 0} (e e' : Envelope J) : Type 0 where
  pub event_id : e'.event_id ≡ e.event_id
  pub event : e'.event ≡ e.event
  pub labels : e'.labels ≡ e.labels
  pub source : e'.source ≡ e.source

abbrev pub upto : ℕ → ℕ → List ℕ
upto first zero = []
upto first (suc n) = first ∷ upto (suc first) n

abbrev pub retries : ℕ → List Outcome
retries zero = []
retries (suc n) = Outcome.retry ∷ retries n

-- How a delivery that began in `s` with attempt `first` of `env` has ended.
pub record Ended {J : Type 0} (s : Sink J) (env : Envelope J) (first : ℕ) (s' : Sink J)
    : Type 0 where
  pub again : ℕ
  pub bounded : first + again ≤ max first s.max_attempts
  pub made : List (Envelope J × ℕ)
  pub attempts : s'.attempts ≡ s.attempts ++ made
  pub numbered : map (λ a. a.1) made ≡ upto first (suc again)
  pub last : Envelope J
  pub same : Same env last
  pub ending :
      ((s'.outcomes ≡ s.outcomes ++ (retries again ++ Outcome.delivered ∷ [])) × (s'.dead ≡ s.dead))
      ⊎ ((s'.outcomes ≡ s.outcomes ++ (retries again ++ Outcome.dlq ∷ []))
          × (s'.dead ≡ push s.dead last))

leb-false : (a b : ℕ) → leb a b ≡ false → b < a
leb-false a b h = ground arith

module _ {J : Type 0} where
  Same-refl : (e : Envelope J) → Same e e
  Same-refl e = record { event_id = refl; event = refl; labels = refl; source = refl }

  settle-delivered :
      (s : Sink J) (env : Envelope J) (attempt : ℕ)
      → Ended s env attempt (bump_outcome (tried s env attempt) Outcome.delivered)
  unfolding bump_outcome tried
  settle-delivered s env attempt = record {
    again = 0;
    bounded = omega arith;
    made = (env, attempt) ∷ [];
    attempts = refl;
    numbered = refl;
    last = env;
    same = Same-refl env;
    ending = inl (refl, refl);
  }

  settle-buried :
      (s : Sink J) (env : Envelope J) (attempt : ℕ)
      → Ended s env attempt (bury (bump_outcome (tried s env attempt) Outcome.dlq) env)
  unfolding bury update_dlq_depth bump_outcome tried
  settle-buried s env attempt = record {
    again = 0;
    bounded = omega arith;
    made = (env, attempt) ∷ [];
    attempts = refl;
    numbered = refl;
    last = env;
    same = Same-refl env;
    ending = inr (refl, refl);
  }

  settle-retried :
      (s : Sink J) (env : Envelope J) (attempt : ℕ) (t : Turn) (s' : Sink J)
      → attempt < s.max_attempts
      → Ended
          (back_off (tried s env attempt) t.jitter attempt)
          (with_attempt env (attempt + 1) t.ulid t.now)
          (attempt + 1)
          s'
      → Ended s env attempt s'
  unfolding back_off bump_outcome tried with_attempt
  settle-retried s env attempt t s' more e = record {
    again = suc e.again;
    bounded = omega (arith, e.bounded);
    made = (env, attempt) ∷ e.made;
    attempts = e.attempts ∙ append_assoc s.attempts ((env, attempt) ∷ []) e.made;
    numbered = ap (◌∷◌ attempt) (e.numbered ∙ rw add-one);
    last = e.last;
    same = record {
      event_id = e.same.event_id;
      event = e.same.event;
      labels = e.same.labels;
      source = e.same.source;
    };
    ending = elim e.ending [
      | inl (counted, kept) ↦ inl (counted ∙ append_assoc s.outcomes (Outcome.retry ∷ []) _, kept)
      | inr (counted, kept) ↦ inr (counted ∙ append_assoc s.outcomes (Outcome.retry ∷ []) _, kept)
    ];
  }

  bury-update : (s : Sink J) (env : Envelope J) → bury (update_dlq_depth s) env ≡ bury s env
  unfolding bury update_dlq_depth
  bury-update s env = refl

  max-tried :
      (s : Sink J) (env : Envelope J) (attempt : ℕ)
      → (tried s env attempt).max_attempts ≡ s.max_attempts
  unfolding tried
  max-tried s env attempt = refl

  max-back_off :
      (s : Sink J) (env : Envelope J) (attempt : ℕ) (jitter : ℕ → ℕ)
      → (back_off (tried s env attempt) jitter attempt).max_attempts ≡ s.max_attempts
  unfolding back_off tried bump_outcome
  max-back_off s env attempt jitter = refl

  settle-Ended :
      (o : AttemptOutcome) (s : Sink J) (env : Envelope J) (attempt : ℕ) (more : Option (Sink J))
      → (attempt < s.max_attempts → (s' : Sink J) × (more ≡ some s') × Ended s env attempt s')
      → (s' : Sink J) × (settle o (tried s env attempt) env attempt more ≡ some s')
        × Ended s env attempt s'
  settle-Ended AttemptOutcome.delivered s env attempt more h =
      (_, refl, settle-delivered s env attempt)
  settle-Ended AttemptOutcome.permanent_failure s env attempt more h = (
    _,
    ap some (bury-update (bump_outcome (tried s env attempt) Outcome.dlq) env),
    settle-buried s env attempt,
  )
  settle-Ended AttemptOutcome.retryable s env attempt more h =
      elim (Bool-cases (leb s.max_attempts attempt)) [
        | inl used_up ↦ (_, rw (max-tried s env attempt, used_up), settle-buried s env attempt)
        | inr left ↦
            let (s', run, e) = h (leb-false _ _ left) in
            (s', rw (max-tried s env attempt, left) run, e)
      ]

  deliver_loop-Ended :
      (s : Sink J) (env : Envelope J) (attempt : ℕ) (ts : List Turn)
      → 0 < length ts
      → s.max_attempts < attempt + length ts
      → (s' : Sink J) × (deliver_loop s env attempt ts ≡ some s') × Ended s env attempt s'
  unfolding deliver_loop
  deliver_loop-Ended s env attempt [] some_turn enough = absurd (omega arith)
  deliver_loop-Ended s env attempt (t ∷ ts) some_turn enough =
      settle-Ended (attempt_one t.reply) s env attempt _ (λ more.
        let (s', run, e) =
          deliver_loop-Ended (back_off (tried s env attempt) t.jitter attempt)
            (with_attempt env (attempt + 1) t.ulid t.now) (attempt + 1) ts
            (omega (arith, more, enough))
            (rw (max-back_off s env attempt t.jitter) (omega (arith, enough))) in
        (s', run, settle-retried s env attempt t s' more e))

  -- A delivery ends within the configured number of attempts, and after one in any case, whatever the
  -- subscriber answers. The attempts carry the numbers from 1 on; all but the last are counted as
  -- retries, and the last as delivered, with the dead-letter queue untouched, or as dead, with the
  -- envelope on that queue, still with its event, its event id, its labels and its source.
  pub deliver_with_retries-Ended :
      (s : Sink J) (env : Envelope J) (ts : List Turn)
      → 0 < length ts
      → s.max_attempts ≤ length ts
      → (s' : Sink J) × (deliver_with_retries s env ts ≡ some s') × Ended s env 1 s'
  unfolding deliver_with_retries
  deliver_with_retries-Ended s env ts some_turn enough =
      deliver_loop-Ended s env 1 ts some_turn (omega arith)
