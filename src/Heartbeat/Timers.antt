-- ===== src/Heartbeat/Timers.antt =====
-- What holds of a heartbeat after any sequence of calls and timers
-- (src/main/connection/HeartbeatHelper.ts).
use convergence_client_javas.Base.{
  ◌≡◌, refl, sym, ◌∙◌, Bool, true, false, true≢false, not, ◌&&◌, ◌||◌, none, some, some-injective,
  inl, inr, Bool-cases, both, not-true, List, [], ◌∷◌, subst,
}
use convergence_client_javas.Heartbeat.{
  HeartbeatHelper, cancel_pong_timeout, schedule_pong_timeout, stop_ping_timer,
  restart_ping_timeout, message_received, start, stop, HeartbeatEvent, started_up, stopped,
  received, pinged, ping_failed, timed_out, step, Reached, fresh, after,
}

unfoldable pub last_is_ping : List HeartbeatEvent → Bool
last_is_ping [] = false
last_is_ping (pinged ∷ _) = true
last_is_ping (_ ∷ _) = false

-- The events after which no timer is pending: a timeout, and a ping that could not be sent.
unfoldable pub last_ends_timers : List HeartbeatEvent → Bool
last_ends_timers [] = false
last_ends_timers (timed_out ∷ _) = true
last_ends_timers (ping_failed ∷ _) = true
last_ends_timers (_ ∷ _) = false

-- No timer is leaked; a heartbeat that is not started has no timer; it never waits for two; it waits for a pong only if
-- the last thing that happened was a ping; and one that is started has a timer, unless the last
-- thing that happened was a timeout or a ping that could not be sent.
unfoldable pub formed : Bool → Bool → Bool → Bool → Bool → Bool
formed on ping timeout pinged_last timed_out_last =
    (on || not (ping || timeout))
    && (not (ping && timeout)
        && ((not timeout || pinged_last) && (not on || (ping || (timeout || timed_out_last)))))

unfoldable pub well_formed : List HeartbeatEvent → HeartbeatHelper → Bool
well_formed es h =
    not h.leaked
    && formed h.started h.ping_future h.timeout_future (last_is_ping es) (last_ends_timers es)

formed_ping : (s p t l m : Bool) → formed s p t l m ≡ true → t ≡ true → l ≡ true
unfolding formed
formed_ping s p t true m w e = refl
formed_ping s p false false m w e = absurd (true≢false (sym e))
formed_ping true true true false m w e = absurd (true≢false (sym w))
formed_ping true false true false m w e = absurd (true≢false (sym w))
formed_ping false true true false m w e = absurd (true≢false (sym w))
formed_ping false false true false m w e = absurd (true≢false (sym w))

formed_pending :
    (s p t l m : Bool) → formed s p t l m ≡ true → s ≡ true → m ≡ false → (p || t) ≡ true
unfolding formed
formed_pending s true t l m w on e = refl
formed_pending s false true l m w on e = refl
formed_pending true false false l m w on e = absurd (true≢false (sym w ∙ e))
formed_pending false false false l m w on e = absurd (true≢false (sym on))

abbrev state : Bool → Bool → Bool → HeartbeatHelper
state s p t = record { started = s; ping_future = p; timeout_future = t; leaked = false }

kept :
    (e : HeartbeatEvent) (es : List HeartbeatEvent) (s p t : Bool) (k : HeartbeatHelper)
    → well_formed es (state s p t) ≡ true
    → step e (state s p t) ≡ some k
    → well_formed (e ∷ es) k ≡ true
unfolding well_formed formed step start stop message_received cancel_pong_timeout
    schedule_pong_timeout stop_ping_timer restart_ping_timeout last_is_ping last_ends_timers
kept started_up es s p t k w h =
    subst (λ z. well_formed (started_up ∷ es) z ≡ true) (some-injective h) refl
kept stopped es s p t k w h =
    subst (λ z. well_formed (stopped ∷ es) z ≡ true) (some-injective h) refl
kept received es true p t k w h =
    subst (λ z. well_formed (received ∷ es) z ≡ true) (some-injective h) refl
kept received es false false false k w h =
    subst (λ z. well_formed (received ∷ es) z ≡ true) (some-injective h) refl
kept received es false true t k w h = absurd (true≢false (sym w))
kept received es false false true k w h = absurd (true≢false (sym w))
kept pinged es true true t k w h =
    subst (λ z. well_formed (pinged ∷ es) z ≡ true) (some-injective h) refl
kept pinged es false true t k w h = absurd (true≢false (sym w))
kept pinged es s false t k w h = cc
kept ping_failed es true true false k w h =
    subst (λ z. well_formed (ping_failed ∷ es) z ≡ true) (some-injective h) refl
kept ping_failed es true true true k w h = absurd (true≢false (sym w))
kept ping_failed es false true t k w h = absurd (true≢false (sym w))
kept ping_failed es s false t k w h = cc
kept timed_out es true false true k w h =
    subst (λ z. well_formed (timed_out ∷ es) z ≡ true) (some-injective h) refl
kept timed_out es true true true k w h = absurd (true≢false (sym w))
kept timed_out es false false true k w h = absurd (true≢false (sym w))
kept timed_out es false true true k w h = absurd (true≢false (sym w))
kept timed_out es s p false k w h = cc

kept_any :
    (e : HeartbeatEvent) (es : List HeartbeatEvent) (s p t w : Bool) (k : HeartbeatHelper)
    → well_formed es (record { started = s; ping_future = p; timeout_future = t; leaked = w })
      ≡ true
    → step e (record { started = s; ping_future = p; timeout_future = t; leaked = w }) ≡ some k
    → well_formed (e ∷ es) k ≡ true
unfolding well_formed
kept_any e es s p t true k w h = absurd (true≢false (sym w))
kept_any e es s p t false k w h = kept e es s p t k w h

-- After any sequence of calls and timers the heartbeat is well formed.
pub Reached-well_formed :
    (es : List HeartbeatEvent) (h : HeartbeatHelper) → Reached es h → well_formed es h ≡ true
unfolding well_formed formed last_is_ping last_ends_timers
Reached-well_formed _ _ fresh = refl
Reached-well_formed _ _ (after {es} {h} r e k s) =
    kept_any e es h.started h.ping_future h.timeout_future h.leaked k (Reached-well_formed es h r) s

step_timed_out : (h k : HeartbeatHelper) → step timed_out h ≡ some k → h.timeout_future ≡ true
unfolding step
step_timed_out h k s = elim (Bool-cases h.timeout_future) [
  | inl e ↦ e
  | inr e ↦
      let none_then : step timed_out h ≡ none = rw e refl in
      let bad : none ≡ some k = sym none_then ∙ s in absurd cc
]

-- A timeout is reported only right after a ping: no message came, and nothing was called, between
-- the two.
pub timed_out-after_ping :
    (es : List HeartbeatEvent) (h k : HeartbeatHelper)
    → Reached es h
    → step timed_out h ≡ some k
    → last_is_ping es ≡ true
unfolding well_formed
timed_out-after_ping es h k r s =
    formed_ping h.started h.ping_future h.timeout_future (last_is_ping es) (last_ends_timers es)
      (both (not h.leaked) _ (Reached-well_formed es h r)).1 (step_timed_out h k s)

-- While a heartbeat is started and the last thing that happened is neither a timeout nor a ping that
-- could not be sent, one of its two timers is pending; and no timer runs that it cannot stop.
pub Reached-pending :
    (es : List HeartbeatEvent) (h : HeartbeatHelper)
    → Reached es h
    → h.started ≡ true
    → last_ends_timers es ≡ false
    → ((h.ping_future || h.timeout_future) ≡ true) × (h.leaked ≡ false)
unfolding well_formed
Reached-pending es h r on none_yet =
    let w = both (not h.leaked) _ (Reached-well_formed es h r) in
    (
      formed_pending h.started h.ping_future h.timeout_future (last_is_ping es)
          (last_ends_timers es) w.1 on none_yet,
      not-true h.leaked w.0,
    )
