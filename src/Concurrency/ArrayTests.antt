-- ===== src/Concurrency/ArrayTests.antt =====
-- A session on one array, and the theorems at it.
use text.Mathlib.Text.{◌==◌ as same_string}
use convergence_client_javas.Base.{
  ℕ, ◌≡◌, refl, false, List, [], ◌∷◌, ◌==◌, ==_iff, same_text, same_text-eq, some, none,
  if◌then◌else◌, ok, splice,
}
use convergence_client_javas.Transformer.{discrete, transform_two_discrete_ops}
use convergence_client_javas.Transformer.Meets.{Transforms, apply_operation}
use convergence_client_javas.Arrays.{
  DeepEquals, ArrayOperation, array_reorder, handle_model_operation_event, apply_reorder, reorder,
}
use convergence_client_javas.Nodes.{Nodes, put, deliver, apply_to_nodes}
use convergence_client_javas.Arrays.Model.{apply_to_model, array_registry}
use convergence_client_javas.Arrays.Model.Meets.{array_registry-Transforms}
use convergence_client_javas.Concurrency.{
  ClientConcurrencyControl, ServerOperationEvent, new_control, get_next_incoming_operation,
  shift_unapplied,
}
use convergence_client_javas.Concurrency.Process.{
  process_remote_operation, transform_inflight_operations, transform_pending_compound_operations,
}
use convergence_client_javas.Concurrency.Protocol.{Session, opened, remote, shown}
use convergence_client_javas.Concurrency.ArraySessions.{array-Session_settled}

abbrev numbers_equal : DeepEquals ℕ
numbers_equal = record { deep_equals = λ x y. x == y; deep_equals-eq = λ x y e. (==_iff x y).0 e }

abbrev arrays_equal : DeepEquals (List ℕ)
arrays_equal = record { deep_equals = same_text; deep_equals-eq = same_text-eq }

array_registry-Transforms_example :
    Transforms apply_to_model
      (transform_two_discrete_ops (array_registry numbers_equal arrays_equal))
array_registry-Transforms_example = array_registry-Transforms numbers_equal arrays_equal

abbrev first_nodes : Nodes (List ℕ)
first_nodes = λ id. if same_string "list" id then some (10 ∷ 11 ∷ 12 ∷ 13 ∷ []) else none

abbrev moved_nodes : Nodes (List ℕ)
moved_nodes = put first_nodes "list" (10 ∷ 12 ∷ 13 ∷ 11 ∷ [])

abbrev move : ArrayOperation ℕ
move = array_reorder (record { id = "list"; no_op = false; from_index = 1; to_index = 3 })

abbrev move_event : ServerOperationEvent (ArrayOperation ℕ)
move_event = record { client_id = "other"; version = 4; timestamp = 0; operation = discrete move }

move_applies : apply_operation apply_to_model (discrete move) first_nodes ≡ ok moved_nodes
unfolding apply_operation apply_to_nodes deliver handle_model_operation_event apply_reorder reorder
    splice
move_applies = refl

abbrev at_first : ClientConcurrencyControl (ArrayOperation ℕ)
at_first = new_control "mine" 4 0

abbrev after_remote : ClientConcurrencyControl (ArrayOperation ℕ)
after_remote =
    (process_remote_operation (array_registry numbers_equal arrays_equal) move_event at_first).0

abbrev after_shown : ClientConcurrencyControl (ArrayOperation ℕ)
after_shown = (get_next_incoming_operation after_remote).0

remote-Session :
    Session
      (array_registry numbers_equal arrays_equal)
      apply_to_model
      after_remote
      moved_nodes
      first_nodes
unfolding new_control
remote-Session =
    remote at_first move_event first_nodes moved_nodes first_nodes (opened "mine" 4 0 first_nodes)
      refl move_applies

shown_next : (get_next_incoming_operation after_remote).1 ≡ some move_event
unfolding new_control process_remote_operation transform_inflight_operations
    transform_pending_compound_operations get_next_incoming_operation shift_unapplied
shown_next = refl

shown-Session :
    Session
      (array_registry numbers_equal arrays_equal)
      apply_to_model
      after_shown
      moved_nodes
      moved_nodes
shown-Session =
    shown after_remote move_event moved_nodes first_nodes moved_nodes remote-Session shown_next
      move_applies

queues_empty :
    (after_shown.inflight_operations ≡ [])
    × (after_shown.pending_compound_operation ≡ [])
    × (after_shown.unapplied_operations ≡ [])
unfolding new_control process_remote_operation transform_inflight_operations
    transform_pending_compound_operations get_next_incoming_operation shift_unapplied
queues_empty = (refl, refl, refl)

array-Session_settled_example : moved_nodes ≡ moved_nodes
array-Session_settled_example =
    array-Session_settled numbers_equal arrays_equal after_shown moved_nodes moved_nodes
      shown-Session queues_empty.0 queues_empty.1 queues_empty.2
