-- ===== src/References/Tests.antt =====
-- References at work, and the theorems at concrete inputs.
use convergence_client_javas.Base.{
  ◌<◌, ◌≡◌, refl, inr, false, [], ◌∷◌, some, ok, throws, null_dereferenced, get_elem?, splice,
  arith, List, map,
}
use convergence_client_javas.Transformer.{discrete}
use convergence_client_javas.Transformer.Meets.{apply_all, apply_operation}
use convergence_client_javas.Concurrency.{ClientConcurrencyControl, ClientOperationEvent}
use convergence_client_javas.Strings.{
  Text, StringOperation, string_splice, string_value, splice_text, apply_text,
}
use convergence_client_javas.Strings.Plain.{string_operation_id}
use convergence_client_javas.References.{
  IndexRange, index_values, range_values, ModelReferenceData, splice_index, insert_index,
  remove_index, handle_insert, handle_remove, handle_insert_ranges, handle_remove_ranges,
}
use convergence_client_javas.References.Indices.{
  splice_index-follows, splice_index-before_moves, insert_index-follows, remove_index-follows,
  handle_remove-handle_insert, handle_insert_ranges-follows_and_returns, ends_of,
}
use convergence_client_javas.References.Transform.{
  string_references, process_outgoing_set_reference, process_remote_reference_set,
}
use convergence_client_javas.References.Bounds.{
  apply_for, Moved, process_outgoing_set_reference-Moved, process_remote_reference_set-Moved,
}
use convergence_client_javas.References.Remote.{remote_values, remote_values-throws}

abbrev five : Text
five = 10 ∷ 11 ∷ 12 ∷ 13 ∷ 14 ∷ []

-- Index 4 behind a splice at 1 that deletes 2 and inserts 1.
splice_index-follows_example :
    get_elem? (splice five 1 2 (20 ∷ [])) (splice_index 1 2 1 4) ≡ get_elem? five 4
splice_index-follows_example = splice_index-follows five 1 2 (20 ∷ []) (omega arith) 4 (omega arith)

splice_index-before_moves_example : 1 < splice_index 3 0 2 1
splice_index-before_moves_example = splice_index-before_moves 3 0 2 1 (omega arith)

insert_index-follows_example :
    get_elem? (splice five 2 0 (20 ∷ [])) (insert_index 2 1 3) ≡ get_elem? five 3
insert_index-follows_example = insert_index-follows five 2 (20 ∷ []) 3 (omega arith)

remove_index-follows_example :
    get_elem? (splice five 1 2 []) (remove_index 1 2 4) ≡ get_elem? five 4
remove_index-follows_example = remove_index-follows five 1 2 4 (omega arith) (inr (omega arith))

handle_remove-handle_insert_example :
    handle_remove (handle_insert (1 ∷ 4 ∷ []) 2 3) 2 3 ≡ 1 ∷ 4 ∷ []
handle_remove-handle_insert_example = handle_remove-handle_insert (1 ∷ 4 ∷ []) 2 3

abbrev one_range : List IndexRange
one_range = record { start = 1; end = 2 } ∷ []

handle_insert_ranges-follows_and_returns_example :
    (map (ends_of (splice (5 ∷ 6 ∷ 7 ∷ []) 1 0 (8 ∷ 9 ∷ []))) (handle_insert_ranges one_range 1 2)
      ≡ map (ends_of (5 ∷ 6 ∷ 7 ∷ [])) one_range)
    × (handle_remove_ranges (handle_insert_ranges one_range 1 2) 1 2 ≡ one_range)
handle_insert_ranges-follows_and_returns_example =
    handle_insert_ranges-follows_and_returns one_range (5 ∷ 6 ∷ 7 ∷ []) 1 (8 ∷ 9 ∷ []) (omega arith)

abbrev cut : StringOperation
cut =
    string_splice
      (record { id = "text"; no_op = false; index = 1; delete_count = 2; insert_value = [] })

abbrev replace : StringOperation
replace = string_value (record { id = "text"; no_op = false; value = 7 ∷ [] })

abbrev selection : ModelReferenceData
selection = record {
  value_id = some "text";
  values = range_values (record { start = 2; end = 5 } ∷ []);
}

abbrev cursor : ModelReferenceData
cursor = record { value_id = some "text"; values = index_values (3 ∷ []) }

abbrev with_unapplied : ClientConcurrencyControl StringOperation
with_unapplied = record {
  session_id = "mine";
  last_sequence_number = 0;
  compound_op_in_progress = false;
  pending_compound_operation = [];
  inflight_operations = [];
  unapplied_operations =
      record { client_id = "other"; version = 0; timestamp = 0; operation = discrete cut } ∷ [];
  context_version = 1;
  emitted = [];
}

abbrev in_flight : StringOperation → ClientOperationEvent StringOperation
in_flight o = record {
  session_id = "mine";
  seq_no = 0;
  context_version = 0;
  timestamp = 0;
  operation = discrete o;
}

abbrev with_inflight : StringOperation → ClientConcurrencyControl StringOperation
with_inflight o = record {
  session_id = "mine";
  last_sequence_number = 1;
  compound_op_in_progress = false;
  pending_compound_operation = [];
  inflight_operations = in_flight o ∷ [];
  unapplied_operations = [];
  context_version = 0;
  emitted = [];
}

cut_applied :
    apply_all (apply_operation (apply_for "text")) (discrete cut ∷ []) five ≡ ok (10 ∷ 13 ∷ 14 ∷ [])
unfolding apply_all apply_operation apply_for string_operation_id apply_text splice_text
cut_applied = refl

process_outgoing_set_reference-Moved_example :
    Moved "text" 3 (process_outgoing_set_reference string_references with_unapplied selection)
process_outgoing_set_reference-Moved_example =
    process_outgoing_set_reference-Moved "text" with_unapplied selection five (10 ∷ 13 ∷ 14 ∷ [])
      refl (omega arith, omega arith, tt) cut_applied

process_remote_reference_set-Moved_example :
    Moved "text" 3 (process_remote_reference_set string_references (with_inflight cut) cursor)
process_remote_reference_set-Moved_example =
    process_remote_reference_set-Moved "text" (with_inflight cut) cursor five (10 ∷ 13 ∷ 14 ∷ [])
      refl (omega arith, tt) cut_applied

remote_values-throws_example :
    remote_values string_references (with_inflight replace) cursor ≡ throws null_dereferenced
remote_values-throws_example =
    remote_values-throws (with_inflight replace) (in_flight replace) []
      (record { id = "text"; no_op = false; value = 7 ∷ [] }) cursor refl refl refl refl (3 ∷ [])
      refl
