-- ===== src/Relay/Delivery/Tests.antt =====
-- Runs of a delivery and of the retry schedule, and the property of deliveries at a concrete input.
use purple_wolf.Prelude.{ℕ, List, [], ◌∷◌, map, Option, none, some, codes, ◌≡◌, refl, arith}
use purple_wolf.Relay.Delivery.Accounts.{Ended, deliver_with_retries-Ended}
use purple_wolf.Relay.Delivery.{
  Outcome, Reply, Turn, Sink, classify_status, attempt_one, tried, back_off, bump_outcome,
  update_dlq_depth, bury, deliver_loop, deliver_with_retries,
}
use purple_wolf.Relay.Dlq
use purple_wolf.Relay.Envelope.{Envelope, new, with_attempt}
use purple_wolf.Relay.Retry.{RetrySchedule, capped_delay, saturating_mul, next_delay}

program : Unit {0}
unfolding deliver_with_retries deliver_loop attempt_one classify_status tried back_off bump_outcome
    update_dlq_depth bury Dlq.new Dlq.push Dlq.len with_attempt next_delay capped_delay
    saturating_mul new
program = tt

abbrev schedule : RetrySchedule
schedule = record { base_delay_ms = 500; max_delay_ms = 1500 }

abbrev unchanged : ℕ → ℕ
unchanged n = n

delays : map (next_delay schedule unchanged) (1 ∷ 2 ∷ 40 ∷ []) ≡ 1000 ∷ 1500 ∷ 1500 ∷ []
unfolding program
delays = refl

abbrev sink : Sink ℕ
unfolding Dlq.new
sink = record {
  retry_schedule = schedule;
  max_attempts = 2;
  dead = Dlq.new 10;
  outcomes = [];
  dlq_depth = 0;
  attempts = [];
  slept = [];
}

abbrev envelope : Envelope ℕ
unfolding new
envelope =
    new 7
      (record { middleware = none; router = none; entry_point = none; relay_instance = codes "r" })
      [] (codes "01") 100

abbrev turn : Reply → Turn
turn r = record { reply = r; jitter = unchanged; ulid = codes "02"; now = 200 }

abbrev outcomes_of : Option (Sink ℕ) → List Outcome
outcomes_of none = []
outcomes_of (some s) = s.outcomes

retried :
    outcomes_of (
      deliver_with_retries sink envelope
        (turn (Reply.answered 503) ∷ turn (Reply.answered 204) ∷ []))
    ≡ Outcome.retry ∷ Outcome.delivered ∷ []
unfolding program
retried = refl

gave_up :
    outcomes_of (
      deliver_with_retries sink envelope (turn Reply.network_error ∷ turn Reply.network_error ∷ []))
    ≡ Outcome.retry ∷ Outcome.dlq ∷ []
unfolding program
gave_up = refl

redirected :
    outcomes_of (deliver_with_retries sink envelope (turn (Reply.answered 302) ∷ []))
    ≡ Outcome.dlq ∷ []
unfolding program
redirected = refl

deliver_with_retries-Ended_example :
    (s' : Sink ℕ) × (deliver_with_retries sink envelope
        (turn (Reply.answered 503) ∷ turn Reply.network_error ∷ [])
      ≡ some s')
    × Ended sink envelope 1 s'
unfolding sink
deliver_with_retries-Ended_example =
    deliver_with_retries-Ended sink envelope
      (turn (Reply.answered 503) ∷ turn Reply.network_error ∷ []) (omega arith) (omega arith)
