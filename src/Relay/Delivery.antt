-- ===== src/Relay/Delivery.antt =====
-- The sink of crates/purple-wolf-relay/src/subscribers/http.rs.
pub mod Accounts
mod Tests
use purple_wolf.Prelude.{
  ℕ, ◌+◌, Bool, ◌&&◌, ◌||◌, leb, ◌==◌, if◌then◌else◌, List, [], ◌∷◌, ◌++◌, Option, none, some, Str,
}
use purple_wolf.Relay.Dlq.{Dlq, push, len}
use purple_wolf.Relay.Envelope.{Envelope, with_attempt}
use purple_wolf.Relay.Retry.{RetrySchedule, next_delay}

pub data AttemptOutcome : Type 0 where
  delivered retryable permanent_failure : AttemptOutcome

unfoldable pub classify_status : ℕ → AttemptOutcome
classify_status status =
    if leb 200 status && leb status 299
    then AttemptOutcome.delivered
    else if status == 408 || (status == 429 || (leb 500 status && leb status 599))
    then AttemptOutcome.retryable
    else AttemptOutcome.permanent_failure

-- How an attempt can go: the envelope does not serialize, the request fails or times out, or the
-- subscriber answers with a status.
pub data Reply : Type 0 where
  unserializable : Reply
  network_error : Reply
  answered : ℕ → Reply

unfoldable pub attempt_one : Reply → AttemptOutcome
unfolding classify_status
attempt_one unserializable = AttemptOutcome.permanent_failure
attempt_one network_error = AttemptOutcome.retryable
attempt_one (answered status) = classify_status status

-- The labels of the counter of deliveries.
pub data Outcome : Type 0 where
  delivered dlq retry : Outcome

-- The configuration, the dead-letter queue, and what the sink leaves in the metrics and on the way: the
-- counted outcomes, the gauge, each attempt with its envelope and number, and the delays slept.
pub record Sink (J : Type 0) : Type 0 where
  pub retry_schedule : RetrySchedule
  pub max_attempts : ℕ
  pub dead : Dlq (Envelope J)
  pub outcomes : List Outcome
  pub dlq_depth : ℕ
  pub attempts : List (Envelope J × ℕ)
  pub slept : List ℕ

-- What one turn of the loop takes from outside: the reply, the jitter, and for the next envelope a
-- ULID and the time.
pub record Turn : Type 0 where
  pub reply : Reply
  pub jitter : ℕ → ℕ
  pub ulid : Str
  pub now : ℕ

module _ {J : Type 0} where
  unfoldable pub bump_outcome : Sink J → Outcome → Sink J
  bump_outcome s o = record s { outcomes = s.outcomes ++ o ∷ [] }

  unfoldable pub update_dlq_depth : Sink J → Sink J
  unfolding len
  update_dlq_depth s = record s { dlq_depth = len s.dead }

  unfoldable pub bury : Sink J → Envelope J → Sink J
  unfolding update_dlq_depth push
  bury s env = update_dlq_depth (record s { dead = push s.dead env })

  unfoldable pub tried : Sink J → Envelope J → ℕ → Sink J
  tried s env attempt = record s { attempts = s.attempts ++ (env, attempt) ∷ [] }

  unfoldable pub back_off : Sink J → (ℕ → ℕ) → ℕ → Sink J
  unfolding bump_outcome next_delay
  back_off s jitter attempt =
      let s' = bump_outcome s Outcome.retry in
      record s' { slept = s'.slept ++ next_delay s'.retry_schedule jitter attempt ∷ [] }

  -- The loop; `none` where the list of turns ends before it.
  abbrev pub settle : AttemptOutcome → Sink J → Envelope J → ℕ → Option (Sink J) → Option (Sink J)
  settle AttemptOutcome.delivered s env attempt more = some (bump_outcome s Outcome.delivered)
  settle AttemptOutcome.permanent_failure s env attempt more =
      some (bury (update_dlq_depth (bump_outcome s Outcome.dlq)) env)
  settle AttemptOutcome.retryable s env attempt more =
      if leb s.max_attempts attempt then some (bury (bump_outcome s Outcome.dlq) env) else more

  unfoldable pub deliver_loop : Sink J → Envelope J → ℕ → List Turn → Option (Sink J)
  unfolding attempt_one tried back_off with_attempt
  deliver_loop s env attempt [] = none
  deliver_loop s env attempt (t ∷ ts) =
      let s' = tried s env attempt in
      let more =
        deliver_loop (back_off s' t.jitter attempt) (with_attempt env (attempt + 1) t.ulid t.now)
          (attempt + 1) ts in
      settle (attempt_one t.reply) s' env attempt more

  unfoldable pub deliver_with_retries : Sink J → Envelope J → List Turn → Option (Sink J)
  unfolding deliver_loop
  deliver_with_retries s env turns = deliver_loop s env 1 turns

  -- `run_sink` on the envelopes that arrive before the channel closes or the shutdown comes.
  unfoldable pub run_sink : Sink J → List (Envelope J × List Turn) → Option (Sink J)
  unfolding deliver_with_retries
  run_sink s [] = some s
  run_sink s ((env, turns) ∷ rest) = elim (deliver_with_retries s env turns) [
    | none ↦ none
    | some s' ↦ run_sink s' rest
  ]
