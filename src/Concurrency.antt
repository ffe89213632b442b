-- ===== src/Concurrency.antt =====
-- ClientConcurrencyControl (src/main/model/ot/ClientConcurrencyControl.ts), with the events of
-- src/main/model/ot/ClientOperationEvent.ts and ServerOperationEvent.ts.
--
-- A method takes the control and gives the control it leaves behind, with what it returns or
-- throws: a method that throws half-way keeps what it has done so far. `new Date()` is an argument.
-- A cast that TypeScript does not check is a check here.
pub mod Process
pub mod Meeting
pub mod Consistent
pub mod Queues
pub mod Batches
pub mod Protocol
pub mod Committed
pub mod ArraySessions
pub mod ArrayTests
pub mod Tests
use Prim.Native.String.{String}
use convergence_client_javas.Base.{
  ℕ, suc, Bool, true, false, not, ◌&&◌, ◌||◌, Option, none, some, List, [], ◌∷◌, ◌++◌, length, ◌==◌,
  if◌then◌else◌, Result, ok, throws, not_discrete, batch_in_progress, batch_not_in_progress,
  batch_not_empty, batch_empty, nothing_in_flight, unexpected_version, unexpected_sequence_number,
}
use convergence_client_javas.Operations.{OperationPair}
use convergence_client_javas.Transformer.{Operation, discrete, compound}

pub record ClientOperationEvent (D : Type 0) : Type 0 where
  pub session_id : String
  pub seq_no : ℕ
  pub context_version : ℕ
  pub timestamp : ℕ
  pub operation : Operation D

pub record ServerOperationEvent (D : Type 0) : Type 0 where
  pub client_id : String
  pub version : ℕ
  pub timestamp : ℕ
  pub operation : Operation D

-- The fields of the class, and the `committed` of each commit_state_changed event so far.
pub record ClientConcurrencyControl (D : Type 0) : Type 0 where
  pub session_id : String
  pub last_sequence_number : ℕ
  pub compound_op_in_progress : Bool
  pub pending_compound_operation : List D
  pub inflight_operations : List (ClientOperationEvent D)
  pub unapplied_operations : List (ServerOperationEvent D)
  pub context_version : ℕ
  pub emitted : List Bool

-- What a method leaves behind.
abbrev pub Left : Type 0 → Type 0 → Type 0
Left D A = ClientConcurrencyControl D × Result A

abbrev pub is_empty {ℓ} : {A : Type ℓ} → List A → Bool
is_empty [] = true
is_empty (_ ∷ _) = false

-- `seqNo !== undefined`, and the comparison with the event's.
abbrev pub expected_sequence_number : Option ℕ → ℕ → Bool
expected_sequence_number none n = true
expected_sequence_number (some m) n = n == m

module _ {D : Type 0} where
  unfoldable pub new_control : String → ℕ → ℕ → ClientConcurrencyControl D
  new_control session_id context_version last_sequence_number = record {
    session_id = session_id;
    last_sequence_number = last_sequence_number;
    compound_op_in_progress = false;
    pending_compound_operation = [];
    inflight_operations = [];
    unapplied_operations = [];
    context_version = context_version;
    emitted = [];
  }

  unfoldable pub set_state :
      ℕ
      → ℕ
      → List (ClientOperationEvent D)
      → ClientConcurrencyControl D
      → ClientConcurrencyControl D
  set_state context_version last_sequence_number in_flight control = record control {
    context_version = context_version;
    last_sequence_number = last_sequence_number;
    inflight_operations = in_flight;
  }

  unfoldable pub has_inflight_operation : ClientConcurrencyControl D → Bool
  has_inflight_operation control = not (is_empty control.inflight_operations)

  unfoldable pub is_committed : ClientConcurrencyControl D → Bool
  is_committed control =
      not (has_inflight_operation control) || not (is_empty control.pending_compound_operation)

  -- Nothing in flight and no batch with operations: the test by which events are emitted.
  unfoldable pub was_committed : ClientConcurrencyControl D → Bool
  was_committed control =
      is_empty control.inflight_operations && is_empty control.pending_compound_operation

  -- `shift` of the queue, at the queue.
  unfoldable pub shift_unapplied :
      ClientConcurrencyControl D
      → List (ServerOperationEvent D)
      → ClientConcurrencyControl D × Option (ServerOperationEvent D)
  shift_unapplied control [] = (control, none)
  shift_unapplied control (e ∷ es) = (record control { unapplied_operations = es }, some e)

  unfoldable pub get_next_incoming_operation :
      ClientConcurrencyControl D → ClientConcurrencyControl D × Option (ServerOperationEvent D)
  get_next_incoming_operation control = shift_unapplied control control.unapplied_operations

  unfoldable pub start_batch_operation : ClientConcurrencyControl D → Left D (Unit {0})
  start_batch_operation control =
      if control.compound_op_in_progress then (control, throws batch_in_progress) else (
        record control { pending_compound_operation = []; compound_op_in_progress = true },
        ok tt,
      )

  unfoldable pub cancel_batch_operation : ClientConcurrencyControl D → Left D (Unit {0})
  cancel_batch_operation control =
      if not control.compound_op_in_progress
      then (control, throws batch_not_in_progress)
      else if not (is_empty control.pending_compound_operation)
      then (control, throws batch_not_empty)
      else (record control { compound_op_in_progress = false }, ok tt)

  unfoldable pub complete_batch_operation :
      ℕ → ClientConcurrencyControl D → Left D (ClientOperationEvent D)
  complete_batch_operation now control =
      let outgoing : ClientOperationEvent D = record {
        session_id = control.session_id;
        seq_no = suc control.last_sequence_number;
        context_version = control.context_version;
        timestamp = now;
        operation = compound control.pending_compound_operation;
      } in
      if not control.compound_op_in_progress
      then (control, throws batch_not_in_progress)
      else if is_empty control.pending_compound_operation
      then (record control { compound_op_in_progress = false }, throws batch_empty)
      else (
        record control {
          compound_op_in_progress = false;
          pending_compound_operation = [];
          last_sequence_number = suc control.last_sequence_number;
          inflight_operations = control.inflight_operations ++ outgoing ∷ [];
        },
        ok outgoing,
      )

  -- `processAcknowledgement`, at the queue of operations in flight. An acknowledgement with the
  -- wrong sequence number throws after the operation is taken off.
  unfoldable pub acknowledge :
      ℕ
      → Option ℕ
      → ClientConcurrencyControl D
      → List (ClientOperationEvent D)
      → Left D (ClientOperationEvent D)
  acknowledge version seq_no control [] = (control, throws nothing_in_flight)
  acknowledge version seq_no control (acked ∷ rest) =
      let taken : ClientConcurrencyControl D = record control { inflight_operations = rest } in
      if not (control.context_version == version)
      then (control, throws unexpected_version)
      else if not (expected_sequence_number seq_no acked.seq_no)
      then (taken, throws unexpected_sequence_number)
      else (
        record taken {
          context_version = suc control.context_version;
          emitted = control.emitted ++ (if was_committed taken then true ∷ [] else []);
        },
        ok acked,
      )

  unfoldable pub process_acknowledgement :
      ℕ → Option ℕ → ClientConcurrencyControl D → Left D (ClientOperationEvent D)
  process_acknowledgement version seq_no control =
      acknowledge version seq_no control control.inflight_operations
