-- ===== src/Retry/Delay.antt =====
-- The arithmetic of a wait in src/axiam_sdk/_retry.py.
use axiam_python_sdk.Base.{ℕ, ◌*◌, ◌/◌, ◌≤◌, min, max, Option, none, some, arith}
use axiam_python_sdk.Base.Int.{ℤ, pos_part}
use axiam_python_sdk.Retry.{backoff, delay, max_delay}

scaled-le : (b f : ℕ) → f ≤ 1000 → b * f / 1000 ≤ b
scaled-le b f h = let le : b * f ≤ b * 1000 = grind arith in omega arith

backoff-le : (attempt : ℕ) → backoff attempt ≤ max_delay
unfolding backoff
backoff-le attempt = omega arith

-- what a wait may not be below: the hint
abbrev pub floor_of : Option ℕ → ℕ
floor_of none = 0
floor_of (some hint) = hint

pub delay_floor :
    (attempt : ℕ) (hint : Option ℕ) (fraction : ℤ) → floor_of hint ≤ delay attempt hint fraction
unfolding delay
delay_floor attempt none fraction = omega arith
delay_floor attempt (some hint) fraction = omega arith

pub delay_ceiling :
    (attempt : ℕ) (hint : Option ℕ) (fraction : ℤ)
    → delay attempt hint fraction ≤ max (backoff attempt) (floor_of hint)
unfolding delay
delay_ceiling attempt none fraction =
    omega (arith, scaled-le (backoff attempt) (min (pos_part fraction) 1000) (omega arith))
delay_ceiling attempt (some hint) fraction =
    omega (arith, scaled-le (backoff attempt) (min (pos_part fraction) 1000) (omega arith))
