-- ===== src/Heartbeat/Tests.antt =====
-- A heartbeat that starts, pings and times out.
use convergence_client_javas.Base.{◌≡◌, refl, true, false, ◌||◌, some, [], ◌∷◌}
use convergence_client_javas.Heartbeat.{
  HeartbeatHelper, cancel_pong_timeout, schedule_pong_timeout, stop_ping_timer,
  restart_ping_timeout, message_received, start, started_up, pinged, timed_out, step, Reached,
  fresh, after,
}
use convergence_client_javas.Heartbeat.Timers.{
  last_is_ping, last_ends_timers, well_formed, Reached-well_formed, timed_out-after_ping,
  Reached-pending,
}

abbrev armed : HeartbeatHelper
armed = record { started = true; ping_future = true; timeout_future = false; leaked = false }

abbrev waiting : HeartbeatHelper
waiting = record { started = true; ping_future = false; timeout_future = true; leaked = false }

abbrev silent : HeartbeatHelper
silent = record { started = true; ping_future = false; timeout_future = false; leaked = false }

waiting-Reached : Reached (pinged ∷ started_up ∷ []) waiting
unfolding step start message_received cancel_pong_timeout schedule_pong_timeout stop_ping_timer
    restart_ping_timeout
waiting-Reached = after (after fresh started_up armed refl) pinged waiting refl

waiting_fires : step timed_out waiting ≡ some silent
unfolding step
waiting_fires = refl

Reached-well_formed_example : well_formed (pinged ∷ started_up ∷ []) waiting ≡ true
Reached-well_formed_example = Reached-well_formed (pinged ∷ started_up ∷ []) waiting waiting-Reached

timed_out-after_ping_example : last_is_ping (pinged ∷ started_up ∷ []) ≡ true
timed_out-after_ping_example =
    timed_out-after_ping (pinged ∷ started_up ∷ []) waiting silent waiting-Reached waiting_fires

no_timeout_yet : last_ends_timers (pinged ∷ started_up ∷ []) ≡ false
unfolding last_ends_timers
no_timeout_yet = refl

Reached-pending_example :
    ((waiting.ping_future || waiting.timeout_future) ≡ true) × (waiting.leaked ≡ false)
Reached-pending_example =
    Reached-pending (pinged ∷ started_up ∷ []) waiting waiting-Reached refl no_timeout_yet
