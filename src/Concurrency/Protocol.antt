-- ===== src/Concurrency/Protocol.antt =====
-- What ClientConcurrencyControl (src/main/model/ot/ClientConcurrencyControl.ts) promises: whatever
-- comes from the user and from the server, in any order, the two sides of its queues lead to one
-- state.
use Prim.Native.String.{String}
use convergence_client_javas.Base.{
  ℕ, subst, ◌≡◌, refl, sym, ◌∙◌, [], Option, some, Result, ok, ok-injective,
}
use convergence_client_javas.Transformer.{discrete, Registry, transform_two_discrete_ops}
use convergence_client_javas.Transformer.Meets.{apply_all, apply_operation, Transforms}
use convergence_client_javas.Concurrency.{
  ClientOperationEvent, ServerOperationEvent, ClientConcurrencyControl, new_control,
  get_next_incoming_operation, start_batch_operation, cancel_batch_operation,
  complete_batch_operation, process_acknowledgement,
}
use convergence_client_javas.Concurrency.Process.{
  process_outgoing_operation, process_remote_operation,
}
use convergence_client_javas.Concurrency.Meeting.{inflight, pending, unapplied, apply_each}
use convergence_client_javas.Concurrency.Consistent.{
  Consistent, remote-Consistent, outgoing-Consistent,
}
use convergence_client_javas.Concurrency.Queues.{incoming-Consistent, acknowledgement-Consistent}
use convergence_client_javas.Concurrency.Batches.{
  start-Consistent, cancel-Consistent, complete-Consistent,
}

-- A session of one user: the control, the state of the server at the control's context version, and
-- the state that the user sees, after any sequence of calls. An operation of the server is one that
-- it could apply; an edit is one that the user's state allows.
pub data Session {D S : Type 0} (tfr : Registry D) (apply : D → S → Result S)
    : ClientConcurrencyControl D → S → S → Type 0 where
  opened :
      (id : String) (version seq_no : ℕ) (x : S)
      → Session tfr apply (new_control id version seq_no) x x
  remote :
      (control : ClientConcurrencyControl D) (e : ServerOperationEvent D) (x x' y : S)
      → Session tfr apply control x y
      → e.version ≡ control.context_version
      → apply_operation apply e.operation x ≡ ok x'
      → Session tfr apply (process_remote_operation tfr e control).0 x' y
  edited :
      (control : ClientConcurrencyControl D) (now : ℕ) (o : D) (x y y' : S)
      → Session tfr apply control x y
      → apply o y ≡ ok y'
      → Session tfr apply (process_outgoing_operation tfr now (discrete o) control).0 x y'
  shown :
      (control : ClientConcurrencyControl D) (e : ServerOperationEvent D) (x y y' : S)
      → Session tfr apply control x y
      → (get_next_incoming_operation control).1 ≡ some e
      → apply_operation apply e.operation y ≡ ok y'
      → Session tfr apply (get_next_incoming_operation control).0 x y'
  acknowledged :
      (control : ClientConcurrencyControl D) (version : ℕ) (seq_no : Option ℕ)
      (e : ClientOperationEvent D) (x x' y : S)
      → Session tfr apply control x y
      → (process_acknowledgement version seq_no control).1 ≡ ok e
      → apply_operation apply e.operation x ≡ ok x'
      → Session tfr apply (process_acknowledgement version seq_no control).0 x' y
  started :
      (control : ClientConcurrencyControl D) (x y : S)
      → Session tfr apply control x y
      → Session tfr apply (start_batch_operation control).0 x y
  cancelled :
      (control : ClientConcurrencyControl D) (x y : S)
      → Session tfr apply control x y
      → Session tfr apply (cancel_batch_operation control).0 x y
  completed :
      (control : ClientConcurrencyControl D) (now : ℕ) (x y : S)
      → Session tfr apply control x y
      → Session tfr apply (complete_batch_operation now control).0 x y

module _ {D S : Type 0} (tfr : Registry D) (apply : D → S → Result S)
    (law : Transforms apply (transform_two_discrete_ops tfr)) where
  -- In every session the two sides of the queues lead to one state, when the registry's functions
  -- let both sites of any two discrete operations meet.
  pub Session-Consistent :
      (control : ClientConcurrencyControl D) (x y : S)
      → Session tfr apply control x y
      → Consistent apply control x y
  unfolding new_control apply_all
  Session-Consistent _ _ _ (opened id version seq_no x) = record {
    sent = x;
    meeting = x;
    inflight_applied = refl;
    pending_applied = refl;
    unapplied_applied = refl;
    idle = λ f. refl;
  }
  Session-Consistent _ _ _ (remote control e x x' y s v a) =
      (remote-Consistent tfr apply law control e x x' y (Session-Consistent control x y s) v a).1
  Session-Consistent _ _ _ (edited control now o x y y' s a) =
      outgoing-Consistent tfr apply law control now o x y y' (Session-Consistent control x y s) a
  Session-Consistent _ _ _ (shown control e x y y' s g a) =
      let n = incoming-Consistent apply control e x y (Session-Consistent control x y s) g in
      subst (Consistent apply (get_next_incoming_operation control).0 x)
        (ok-injective (sym n.1 ∙ a)) n.2
  Session-Consistent _ _ _ (acknowledged control version seq_no e x x' y s g a) =
      let n =
        acknowledgement-Consistent apply version seq_no control e x y
          (Session-Consistent control x y s) g in
      subst (λ z. Consistent apply (process_acknowledgement version seq_no control).0 z y)
        (ok-injective (sym n.1 ∙ a)) n.2
  Session-Consistent _ _ _ (started control x y s) =
      start-Consistent apply control x y (Session-Consistent control x y s)
  Session-Consistent _ _ _ (cancelled control x y s) =
      cancel-Consistent apply control x y (Session-Consistent control x y s)
  Session-Consistent _ _ _ (completed control now x y s) =
      complete-Consistent apply control x y (Session-Consistent control x y s) now

  -- In every session, when the registry's functions let both sites of any two discrete operations
  -- meet: once nothing is in flight, pending or unapplied, the user sees the server's state.
  pub Session-settled :
      (control : ClientConcurrencyControl D) (x y : S)
      → Session tfr apply control x y
      → control.inflight_operations ≡ []
      → control.pending_compound_operation ≡ []
      → control.unapplied_operations ≡ []
      → x ≡ y
  unfolding apply_all
  Session-settled control x y s i p u =
      let h = Session-Consistent control x y s in
      let sent : apply_each apply [] x ≡ ok h.sent =
        subst (λ q. apply_each apply (inflight q) x ≡ ok h.sent) i h.inflight_applied in
      let met : apply_each apply [] h.sent ≡ ok h.meeting =
        subst (λ q. apply_each apply (pending q) h.sent ≡ ok h.meeting) p h.pending_applied in
      let seen : apply_each apply [] y ≡ ok h.meeting =
        subst (λ q. apply_each apply (unapplied q) y ≡ ok h.meeting) u h.unapplied_applied in
      ok-injective sent ∙ (ok-injective met ∙ sym (ok-injective seen))

  -- In every session, when the registry's functions let both sites of any two discrete operations
  -- meet: an operation of the server, of the expected version, that the server could apply is
  -- processed without an error.
  pub process_remote_operation_returns :
      (control : ClientConcurrencyControl D) (x x' y : S) (e : ServerOperationEvent D)
      → Session tfr apply control x y
      → e.version ≡ control.context_version
      → apply_operation apply e.operation x ≡ ok x'
      → (process_remote_operation tfr e control).1 ≡ ok tt
  process_remote_operation_returns control x x' y e s v a =
      (remote-Consistent tfr apply law control e x x' y (Session-Consistent control x y s) v a).0

  -- In every session, when the registry's functions let both sites of any two discrete operations
  -- meet: the operation that the user is shown next can be applied.
  pub get_next_incoming_operation_applies :
      (control : ClientConcurrencyControl D) (x y : S) (e : ServerOperationEvent D)
      → Session tfr apply control x y
      → (get_next_incoming_operation control).1 ≡ some e
      → (y' : S) × (apply_operation apply e.operation y ≡ ok y')
  get_next_incoming_operation_applies control x y e s g =
      let n = incoming-Consistent apply control e x y (Session-Consistent control x y s) g in
      (n.0, n.1)
