-- ===== src/Protocol/Timestamps.antt =====
-- Dates and the timestamps that stand for them (src/main/connection/ProtocolUtil.ts).
use native.Mathlib.Omega.{arith}
use Prim.Native.Nat.{ℕ, suc, ◌+◌, ◌-◌, ◌*◌, ◌/◌, ◌≤◌, ◌<◌}
use convergence_client_javas.Base.{◌≡◌, refl, ap}
use convergence_client_javas.Base.Integers.{ℤ, pos, negsuc, difference, times}
use convergence_client_javas.Protocol.{
  get_or_default_integer, round_millionths, timestamp_to_date, date_to_timestamp,
}

round_millionths-of : (m : ℕ) → round_millionths (times (pos m) 1000000) ≡ pos m
unfolding round_millionths
round_millionths-of m = ap pos rounded
  where
    rounded : (m * 1000000 + 500000) / 1000000 ≡ m
    rounded = omega arith

difference-pos : (m n : ℕ) → n ≤ m → difference m n ≡ pos (m - n)
difference-pos m n h = ground arith

difference-negsuc : (m n : ℕ) → m < n → difference m n ≡ negsuc (n - suc m)
difference-negsuc m n h = ground arith

-- A valid date, before 1970 or after, is read back from its timestamp to the millisecond.
pub timestamp_to_date-date_to_timestamp :
    (millis : ℤ) → timestamp_to_date (date_to_timestamp millis) ≡ millis
unfolding timestamp_to_date date_to_timestamp get_or_default_integer
timestamp_to_date-date_to_timestamp (pos m) =
    rw (difference-pos m (m / 1000 * 1000) (omega arith), round_millionths-of (m - m / 1000 * 1000))
      (ap pos (omega arith))
timestamp_to_date-date_to_timestamp (negsuc m) =
    rw
      (
        difference-negsuc 0 (suc (m / 1000) * 1000) (omega arith),
        difference-pos (suc (m / 1000) * 1000 - 1) m (omega arith),
        round_millionths-of (suc (m / 1000) * 1000 - 1 - m),
        difference-negsuc (suc (m / 1000) * 1000 - 1 - m) (suc (suc (m / 1000) * 1000 - 1))
            (omega arith),
      )
      (ap negsuc (omega arith))

-- The nanoseconds of a date's timestamp are not negative and less than a second.
pub date_to_timestamp-nanos_bound :
    (millis : ℤ)
    → (n : ℕ) × (get_or_default_integer (date_to_timestamp millis).nanos ≡ pos n) × (n < 1000000000)
unfolding date_to_timestamp get_or_default_integer
date_to_timestamp-nanos_bound (pos m) = (
  (m - m / 1000 * 1000) * 1000000,
  rw (difference-pos m (m / 1000 * 1000) (omega arith)) refl,
  omega arith,
)
date_to_timestamp-nanos_bound (negsuc m) = (
  (suc (m / 1000) * 1000 - 1 - m) * 1000000,
  rw
      (
        difference-negsuc 0 (suc (m / 1000) * 1000) (omega arith),
        difference-pos (suc (m / 1000) * 1000 - 1) m (omega arith),
      )
      refl,
  omega arith,
)
