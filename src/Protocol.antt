-- ===== src/Protocol.antt =====
-- Values on their way to the server and back: src/main/connection/ProtocolUtil.ts.
--
-- A date is the milliseconds since 1970, negative before. The integers are exact; an invalid date,
-- whose time is NaN, is not modelled.
pub mod Json
pub mod Timestamps
pub mod Tests
use convergence_client_javas.Base.{ℕ, Option, none, some}
use convergence_client_javas.Base.Integers.{ℤ, pos, ◌+ℤ◌, ◌-ℤ◌, times, floor_divide}

-- A number field that is not sent is 0.
unfoldable pub get_or_default_number : Option ℕ → ℕ
get_or_default_number none = 0
get_or_default_number (some n) = n

-- The same, of a number that may be negative.
unfoldable pub get_or_default_integer : Option ℤ → ℤ
get_or_default_integer none = pos 0
get_or_default_integer (some n) = n

pub record Timestamp : Type 0 where
  pub seconds : Option ℤ
  pub nanos : Option ℤ

-- `Math.round`, of a quotient by 1000000.
unfoldable pub round_millionths : ℤ → ℤ
round_millionths n = floor_divide (n +ℤ pos 500000) 1000000

unfoldable pub timestamp_to_date : Timestamp → ℤ
timestamp_to_date timestamp =
    let seconds = get_or_default_integer timestamp.seconds in
    let nanos = get_or_default_integer timestamp.nanos in
    times seconds 1000 +ℤ round_millionths nanos

unfoldable pub date_to_timestamp : ℤ → Timestamp
date_to_timestamp millis =
    let seconds = floor_divide millis 1000 in
    record { seconds = some seconds; nanos = some (times (millis -ℤ times seconds 1000) 1000000) }
