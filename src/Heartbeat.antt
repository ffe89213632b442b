-- ===== src/Heartbeat.antt =====
-- HeartbeatHelper (src/main/connection/HeartbeatHelper.ts): its two timers, and the pings and
-- timeouts that it reports to its handler.
--
-- A field holds a timer that is pending, or none: one that `clearTimeout` was called on does not fire, and one that fired
-- is not pending. `leaked` says that a field was given another timer while its own was pending, which
-- nothing can stop any more. The handler is there, and its `sendPing` may throw; the intervals are whatever they
-- are.
pub mod Timers
pub mod Tests
use convergence_client_javas.Base.{
  ◌≡◌, Bool, true, false, not, ◌&&◌, ◌||◌, Option, none, some, List, [], ◌∷◌, if◌then◌else◌,
}

pub record HeartbeatHelper : Type 0 where
  pub started : Bool
  pub ping_future : Bool
  pub timeout_future : Bool
  pub leaked : Bool

abbrev pub new_heartbeat : HeartbeatHelper
new_heartbeat = record {
  started = false;
  ping_future = false;
  timeout_future = false;
  leaked = false;
}

unfoldable pub cancel_pong_timeout : HeartbeatHelper → HeartbeatHelper
cancel_pong_timeout h = record h { timeout_future = false }

unfoldable pub schedule_pong_timeout : HeartbeatHelper → HeartbeatHelper
schedule_pong_timeout h =
    let cancelled = cancel_pong_timeout h in
    record cancelled {
      timeout_future = true;
      leaked = cancelled.leaked || cancelled.timeout_future;
    }

unfoldable pub stop_ping_timer : HeartbeatHelper → HeartbeatHelper
stop_ping_timer h = record h { ping_future = false }

unfoldable pub restart_ping_timeout : HeartbeatHelper → HeartbeatHelper
restart_ping_timeout h =
    let halted = stop_ping_timer h in
    record halted { ping_future = true; leaked = halted.leaked || halted.ping_future }

unfoldable pub message_received : HeartbeatHelper → HeartbeatHelper
message_received h = if h.started then restart_ping_timeout (cancel_pong_timeout h) else h

unfoldable pub start : HeartbeatHelper → HeartbeatHelper
start h = message_received (record h { started = true })

unfoldable pub stop : HeartbeatHelper → HeartbeatHelper
stop h = cancel_pong_timeout (stop_ping_timer (record h { started = false }))

-- What happens to it: the calls, and the two timers, which call the handler; at the first of them
-- `sendPing` returns or throws.
pub data HeartbeatEvent : Type 0 where
  started_up stopped received pinged ping_failed timed_out : HeartbeatEvent

-- A timer fires only while it is pending.
unfoldable pub step : HeartbeatEvent → HeartbeatHelper → Option HeartbeatHelper
step started_up h = some (start h)
step stopped h = some (stop h)
step received h = some (message_received h)
step pinged h =
    if h.ping_future then some (schedule_pong_timeout (record h { ping_future = false })) else none
step ping_failed h = if h.ping_future then some (record h { ping_future = false }) else none
step timed_out h = if h.timeout_future then some (record h { timeout_future = false }) else none

-- The states after a sequence of events, the last one first.
pub data Reached : List HeartbeatEvent → HeartbeatHelper → Type 0 where
  fresh : Reached [] new_heartbeat
  after :
      {es : List HeartbeatEvent} {h : HeartbeatHelper}
      → Reached es h
      → (e : HeartbeatEvent) (k : HeartbeatHelper) → step e h ≡ some k
      → Reached (e ∷ es) k
