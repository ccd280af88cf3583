-- ===== src/Processor.antt =====
-- internal/outbox/processor.go: the worker's loop over the queue. What it calls, the queue, the
-- handler, the clock, `uuid.New` and `rand.Float64`, acts on a world `W`.
pub mod Delay
pub mod Settles
pub mod Budget
use frimo_messenger.Base.{
  ℕ, ◌+◌, ◌-◌, ◌*◌, ◌/◌, Bool, true, false, ◌&&◌, ◌||◌, Option, none, some, List, [], ◌∷◌, String,
  leb, ◌==◌, if◌then◌else◌,
}
use frimo_messenger.Errors.{Error, join, is, Result, ok, err, no_events, non_retryable, canceled}
use frimo_messenger.Domain.{Uuid, Time, Duration, second, minute, Event}

-- `outbox.Repository`.
pub record Repository (W : Type 0) : Type 0 where
  pub claim_next : Uuid → Time → Time → W → Result Event × W
  pub mark_processed : Uuid → Uuid → Time → W → Result (Unit {0}) × W
  pub schedule_retry : Uuid → Uuid → Time → String → W → Result (Unit {0}) × W
  pub mark_failed : Uuid → Uuid → Time → String → W → Result (Unit {0}) × W

-- `rand_float` is the numerator of `rand.Float64()`, which is a fraction over 2^53. `error_text` is
-- an error's `Error()`.
pub record Processor (W : Type 0) : Type 0 where
  pub repository : Repository W
  pub open repository use *
  pub handle : Event → W → Result (Unit {0}) × W
  pub now : W → Time × W
  pub new_uuid : W → Uuid × W
  pub rand_float : W → ℕ × W
  pub error_text : Error → String

-- The constants that `NewProcessor` sets.
abbrev pub poll_interval : Duration
poll_interval = 2 * second

abbrev pub lock_lease : Duration
lock_lease = minute

abbrev pub max_attempts : ℕ
max_attempts = 10

unfoldable pub retry_base_delay : ℕ → Duration
retry_base_delay attempt =
    if leb attempt 1
    then 5 * second
    else if attempt == 2
    then 15 * second
    else if attempt == 3
    then 30 * second
    else if attempt == 4
    then minute
    else 5 * minute

abbrev pub float_scale : ℕ
float_scale = 9_007_199_254_740_992

-- Three quarters of the base delay and a random part of a half of it, rounded down once.
unfoldable pub retry_delay : ℕ → ℕ → Duration
unfolding retry_base_delay
retry_delay attempt r =
    let base = retry_base_delay attempt in base * 3 / 4 + r * (base / 2) / float_scale

module _ {W : Type 0} (p : Processor W) where
  open p use {
    claim_next, mark_processed, schedule_retry, mark_failed, handle, now, new_uuid, rand_float,
    error_text,
  }

  -- `if markErr != nil { return true, errors.Join(handleErr, markErr) }`.
  abbrev pub joined : Error → Result (Unit {0}) × W → (Bool × Option Error) × W
  joined e (ok x, w) = ((true, none), w)
  joined e (err m, w) = ((true, some (join e m)), w)

  abbrev pub marked : Result (Unit {0}) × W → (Bool × Option Error) × W
  marked (ok x, w) = ((true, none), w)
  marked (err m, w) = ((true, some m), w)

  -- What `processOne` does with the handler's answer.
  unfoldable pub settle : Event → Uuid → Result (Unit {0}) → W → (Bool × Option Error) × W
  settle event lock_id (ok x) w =
      let (t, w1) = now w in marked (mark_processed event.id lock_id t w1)
  settle event lock_id (err e) w =
      let (t, w1) = now w in
      if is e non_retryable || leb max_attempts event.attempts
      then joined e (mark_failed event.id lock_id t (error_text e) w1)
      else (let (r, w2) = rand_float w1 in
          joined e
            (schedule_retry event.id lock_id (t + retry_delay event.attempts r) (error_text e) w2))

  unfoldable pub handle_claimed : Uuid → Result Event → W → (Bool × Option Error) × W
  unfolding settle
  handle_claimed lock_id (ok event) w =
      let (answer, w1) = handle event w in settle event lock_id answer w1
  handle_claimed lock_id (err e) w =
      if is e no_events then ((false, none), w) else ((false, some e), w)

  -- The two results of `processOne`: whether an event was claimed, and the error.
  unfoldable pub process_one : W → (Bool × Option Error) × W
  unfolding handle_claimed
  process_one w =
      let (t, w1) = now w in
      let (lock_id, w2) = new_uuid w1 in
      let (claimed, w3) = claim_next lock_id t (t - lock_lease) w2 in
      handle_claimed lock_id claimed w3

abbrev is_canceled : Option Error → Bool
is_canceled none = false
is_canceled (some e) = is e canceled

-- What `select` in `Run` receives: the context is done, or the timer has fired; with the latter,
-- whether the context is done when the work returns.
pub data Signal : Type 0 where
  done : Signal
  fired : Bool → Signal

-- `Run` over the signals that it receives, with the delays that it sets the timer to. It returns
-- when it receives `done`, or when the work was cut off by the context.
module _ {W : Type 0} (p : Processor W) where
  unfoldable pub run : List Signal → W → List Duration × W
  unfolding process_one
  run [] w = ([], w)
  run (done ∷ signals) w = ([], w)
  run (fired context_done ∷ signals) w =
      let ((processed, e), w1) = process_one p w in
      let (delays, last) = run signals w1 in
      if is_canceled e && context_done
      then ([], w1)
      else ((if processed then 0 else poll_interval) ∷ delays, last)
