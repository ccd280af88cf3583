-- ===== src/Processor/Delay.antt =====
-- The delay before an event is tried again.
use frimo_messenger.Base.{ℕ, ◌≤◌, ◌<◌, ◌*◌, arith}
use frimo_messenger.Processor.{retry_base_delay, retry_delay, float_scale}

-- For a random number below `float_scale`, the delay is within a quarter of the base delay of its
-- attempt.
pub retry_delay_bounds :
    (attempt r : ℕ)
    → r < float_scale
    → (retry_base_delay attempt * 3 ≤ retry_delay attempt r * 4)
      × (retry_delay attempt r * 4 ≤ retry_base_delay attempt * 5)
unfolding retry_delay
retry_delay_bounds attempt r h = ground arith

pub retry_base_delay_mono : (a b : ℕ) → a ≤ b → retry_base_delay a ≤ retry_base_delay b
unfolding retry_base_delay
retry_base_delay_mono a b h = ground arith

pub retry_delay_lower : (attempt r : ℕ) → retry_base_delay attempt * 3 ≤ retry_delay attempt r * 4
unfolding retry_delay
retry_delay_lower attempt r = ground arith
