-- ===== src/Models/Tests.antt =====
-- A session on a model with an object and a number, and the theorems at it.
use text.Mathlib.Text.{◌==◌ as same_string}
use convergence_client_javas.Base.{
  ℕ, ◌+◌, ◌≡◌, refl, ap, false, [], ◌==◌, ==_iff, same_text, same_text-eq, some, none,
  if◌then◌else◌, ok, inl, inr, arith,
}
use convergence_client_javas.Transformer.{discrete}
use convergence_client_javas.Transformer.Meets.{apply_operation}
use convergence_client_javas.Nodes.{Nodes, put, deliver, apply_to_nodes}
use convergence_client_javas.Nodes.Sums.{sum_id, sum_is_no_op, sum_handle}
use convergence_client_javas.Objects.{
  object_add, Children, is_no_op, object_operation_id, is_present, has_key, apply_set,
  apply_set_value, handle_model_operation_event, allowed, handle_allowed,
}
use convergence_client_javas.Objects.Tests.{same_entries, same_entries-eq}
use convergence_client_javas.Concurrency.{
  ClientConcurrencyControl, ServerOperationEvent, new_control, get_next_incoming_operation,
  shift_unapplied,
}
use convergence_client_javas.Concurrency.Process.{
  process_remote_operation, transform_inflight_operations, transform_pending_compound_operations,
}
use convergence_client_javas.Concurrency.Protocol.{Session, opened, remote, shown}
use convergence_client_javas.Models.{
  Platform, ModelOperation, ModelNode, model_registry, apply_to_any,
}
use convergence_client_javas.Models.Sessions.{model-Session_settled}

abbrev platform : Platform ℕ ℕ ℕ
platform = record {
  deep_equals = record { deep_equals = λ x y. x == y; deep_equals-eq = λ x y e. (==_iff x y).0 e };
  deep_equals_arrays = record { deep_equals = same_text; deep_equals-eq = same_text-eq };
  strict_equals = record {
    strict_equals = λ x y. x == y;
    strict_equals-eq = λ x y e. (==_iff x y).0 e;
  };
  deep_equals_properties = record {
    deep_equals = same_entries;
    deep_equals-eq = λ x y e. ap apply_set_value (same_entries-eq x y e);
  };
  numbers = record {
    add = λ x y. x + y;
    is_zero = λ x. x == 0;
    is_nan = λ x. false;
    strict_equals = λ x y. x == y;
    strict_equals-eq = λ x y e. (==_iff x y).0 e;
  };
  times = record { same_time = λ x y. x == y; same_time-eq = λ x y e. (==_iff x y).0 e };
}

abbrev AtModel : Type 0
AtModel = ClientConcurrencyControl (ModelOperation ℕ ℕ ℕ)

abbrev first_nodes : Nodes (ModelNode ℕ ℕ ℕ)
first_nodes = λ id.
    if same_string "person" id
    then some (inr (inl (λ key. none)))
    else if same_string "count" id
    then some (inr (inr (inr (inl 3))))
    else none

abbrev named : Children ℕ
named = apply_set "name" 7 (λ key. none)

abbrev named_nodes : Nodes (ModelNode ℕ ℕ ℕ)
named_nodes = put first_nodes "person" (inr (inl named))

abbrev add_name : ModelOperation ℕ ℕ ℕ
add_name =
    inr (inl (object_add (record { id = "person"; no_op = false; prop = "name"; value = 7 })))

abbrev name_event : ServerOperationEvent (ModelOperation ℕ ℕ ℕ)
name_event = record {
  client_id = "other";
  version = 4;
  timestamp = 0;
  operation = discrete add_name;
}

name_applies :
    apply_operation (apply_to_any platform) (discrete add_name) first_nodes ≡ ok named_nodes
unfolding apply_operation apply_to_nodes deliver sum_id sum_is_no_op sum_handle is_no_op
    object_operation_id handle_allowed allowed has_key is_present handle_model_operation_event
    apply_set
name_applies = refl

abbrev at_first : AtModel
at_first = new_control "mine" 4 0

abbrev after_remote : AtModel
after_remote = (process_remote_operation (model_registry platform) name_event at_first).0

abbrev after_shown : AtModel
after_shown = (get_next_incoming_operation after_remote).0

remote-Session :
    Session (model_registry platform) (apply_to_any platform) after_remote named_nodes first_nodes
unfolding new_control
remote-Session =
    remote at_first name_event first_nodes named_nodes first_nodes (opened "mine" 4 0 first_nodes)
      refl name_applies

shown_next : (get_next_incoming_operation after_remote).1 ≡ some name_event
unfolding new_control process_remote_operation transform_inflight_operations
    transform_pending_compound_operations get_next_incoming_operation shift_unapplied
shown_next = refl

shown-Session :
    Session (model_registry platform) (apply_to_any platform) after_shown named_nodes named_nodes
shown-Session =
    shown after_remote name_event named_nodes first_nodes named_nodes remote-Session shown_next
      name_applies

queues_empty :
    (after_shown.inflight_operations ≡ [])
    × (after_shown.pending_compound_operation ≡ [])
    × (after_shown.unapplied_operations ≡ [])
unfolding new_control process_remote_operation transform_inflight_operations
    transform_pending_compound_operations get_next_incoming_operation shift_unapplied
queues_empty = (refl, refl, refl)

model-Session_settled_example : named_nodes ≡ named_nodes
model-Session_settled_example =
    model-Session_settled platform (λ x m n. omega arith) after_shown named_nodes named_nodes
      shown-Session queues_empty.0 queues_empty.1 queues_empty.2
