-- ===== src/Concurrency/Queues.antt =====
-- `getNextIncomingOperation` and `processAcknowledgement` of ClientConcurrencyControl
-- (src/main/model/ot/ClientConcurrencyControl.ts) take an operation off a queue.
use convergence_client_javas.Base.{
  ℕ, subst, ◌≡◌, refl, sym, ◌∙◌, List, [], ◌∷◌, Option, some, ◌==◌, Bool-cases, inl, inr, Result,
  ok, throws, unexpected_version, unexpected_sequence_number, returned, ok-injective,
  some-injective, ok≢throws,
}
use convergence_client_javas.Transformer.Meets.{apply_all, apply_operation}
use convergence_client_javas.Concurrency.{
  ClientOperationEvent, ServerOperationEvent, ClientConcurrencyControl, shift_unapplied,
  get_next_incoming_operation, expected_sequence_number, acknowledge, process_acknowledgement,
}
use convergence_client_javas.Concurrency.Meeting.{inflight, unapplied, apply_each}
use convergence_client_javas.Concurrency.Consistent.{Consistent}

module _ {D S : Type 0} (apply : D → S → Result S) where
  shift_unapplied-Consistent :
      (control : ClientConcurrencyControl D) (us : List (ServerOperationEvent D))
      (e : ServerOperationEvent D) (x y : S)
      → Consistent apply control x y
      → control.unapplied_operations ≡ us
      → (shift_unapplied control us).1 ≡ some e
      → (y' : S) × (apply_operation apply e.operation y ≡ ok y')
        × Consistent apply (shift_unapplied control us).0 x y'
  unfolding shift_unapplied apply_all
  shift_unapplied-Consistent control [] e x y h u g = absurd cc
  shift_unapplied-Consistent control (d ∷ us) e x y h u g =
      let r =
        returned (apply_operation apply d.operation y) (apply_each apply (unapplied us)) h.meeting
          (subst (λ q. apply_each apply (unapplied q) y ≡ ok h.meeting) u h.unapplied_applied) in
      (
        r.value,
        rw (sym (some-injective g)) r.first,
        record {
          sent = h.sent;
          meeting = h.meeting;
          inflight_applied = h.inflight_applied;
          pending_applied = h.pending_applied;
          unapplied_applied = r.rest;
          idle = h.idle;
        },
      )

  -- The user is shown the next operation of the server, which can be applied.
  pub incoming-Consistent :
      (control : ClientConcurrencyControl D) (e : ServerOperationEvent D) (x y : S)
      → Consistent apply control x y
      → (get_next_incoming_operation control).1 ≡ some e
      → (y' : S) × (apply_operation apply e.operation y ≡ ok y')
        × Consistent apply (get_next_incoming_operation control).0 x y'
  unfolding get_next_incoming_operation
  incoming-Consistent control e x y h g =
      shift_unapplied-Consistent control control.unapplied_operations e x y h refl g

  acknowledge-Consistent :
      (version : ℕ) (seq_no : Option ℕ) (control : ClientConcurrencyControl D)
      (is : List (ClientOperationEvent D)) (e : ClientOperationEvent D) (x y : S)
      → Consistent apply control x y
      → control.inflight_operations ≡ is
      → (acknowledge version seq_no control is).1 ≡ ok e
      → (x' : S) × (apply_operation apply e.operation x ≡ ok x')
        × Consistent apply (acknowledge version seq_no control is).0 x' y
  unfolding acknowledge apply_all
  acknowledge-Consistent version seq_no control [] e x y h u g = absurd cc
  acknowledge-Consistent version seq_no control (d ∷ is) e x y h u g =
      let r =
        returned (apply_operation apply d.operation x) (apply_each apply (inflight is)) h.sent
          (subst (λ q. apply_each apply (inflight q) x ≡ ok h.sent) u h.inflight_applied) in
      elim (Bool-cases (control.context_version == version)) [
        | inl v ↦ elim (Bool-cases (expected_sequence_number seq_no d.seq_no)) [
          | inl n ↦
              let step : (acknowledge version seq_no control (d ∷ is)).1 ≡ ok d = rw (v, n) refl in
              (
                r.value,
                rw (sym (ok-injective (sym step ∙ g))) r.first,
                rw (v, n)
                    (record {
                      sent = h.sent;
                      meeting = h.meeting;
                      inflight_applied = r.rest;
                      pending_applied = h.pending_applied;
                      unapplied_applied = h.unapplied_applied;
                      idle = h.idle;
                    }),
              )
          | inr n ↦
              let step : (acknowledge version seq_no control (d ∷ is)).1
                  ≡ throws unexpected_sequence_number =
                rw (v, n) refl in
              absurd (ok≢throws (sym g ∙ step))
        ]
        | inr v ↦
            let step : (acknowledge version seq_no control (d ∷ is)).1 ≡ throws unexpected_version =
              rw v refl in
            absurd (ok≢throws (sym g ∙ step))
      ]

  -- The server has received the first operation in flight, which it could apply.
  pub acknowledgement-Consistent :
      (version : ℕ) (seq_no : Option ℕ) (control : ClientConcurrencyControl D)
      (e : ClientOperationEvent D) (x y : S)
      → Consistent apply control x y
      → (process_acknowledgement version seq_no control).1 ≡ ok e
      → (x' : S) × (apply_operation apply e.operation x ≡ ok x')
        × Consistent apply (process_acknowledgement version seq_no control).0 x' y
  unfolding process_acknowledgement
  acknowledgement-Consistent version seq_no control e x y h g =
      acknowledge-Consistent version seq_no control control.inflight_operations e x y h refl g
