-- ===== src/Messages/RoundTrip.antt =====
-- What is sent of an operation (src/main/model/OperationMapper.ts) is read back as the operation.
use Prim.Native.String.{String}
use convergence_client_javas.Base.{◌≡◌, refl, List, [], ◌∷◌, map, ok, inl, inr}
use convergence_client_javas.Transformer.{Operation, discrete, compound}
use convergence_client_javas.Arrays.{
  array_insert, array_remove, array_set, array_reorder, array_value,
}
use convergence_client_javas.Strings.{string_splice, string_value}
use convergence_client_javas.Objects.{object_add, object_set, object_remove, object_value}
use convergence_client_javas.Values.{number_delta, number_value}
use convergence_client_javas.Protocol.{get_or_default_number}
use convergence_client_javas.Protocol.Timestamps.{timestamp_to_date-date_to_timestamp}
use convergence_client_javas.DataValues.{DataValue}
use convergence_client_javas.DataValues.Wire.{
  get_or_default, to_i_data_value, to_data_value-to_i_data_value,
}
use convergence_client_javas.Messages.{
  SentOperation, send_entry, to_i_discrete_operation_data, to_i_operation_data, to_values,
  to_entries, to_discrete_operation, to_discrete_operations, to_operation,
}

module _ {N : Type 0} (zero_number : N) where
  to_values-map : (vs : List (DataValue N)) → to_values zero_number (map to_i_data_value vs) ≡ ok vs
  unfolding to_values
  to_values-map [] = refl
  to_values-map (v ∷ vs) =
      rw (to_data_value-to_i_data_value zero_number "" v, to_values-map vs) refl

  to_entries-map :
      (es : List (String × DataValue N)) → to_entries zero_number (map send_entry es) ≡ ok es
  unfolding to_entries
  to_entries-map [] = refl
  to_entries-map (e ∷ es) =
      rw (to_data_value-to_i_data_value zero_number "" e.1, to_entries-map es) refl

  to_discrete_operation-to_i_discrete_operation_data :
      (o : SentOperation N)
      → to_discrete_operation zero_number (to_i_discrete_operation_data o) ≡ ok o
  unfolding to_discrete_operation to_i_discrete_operation_data get_or_default get_or_default_number
  to_discrete_operation-to_i_discrete_operation_data (inl (array_insert o)) =
      rw (to_data_value-to_i_data_value zero_number "" o.value) refl
  to_discrete_operation-to_i_discrete_operation_data (inl (array_remove o)) = refl
  to_discrete_operation-to_i_discrete_operation_data (inl (array_reorder o)) = refl
  to_discrete_operation-to_i_discrete_operation_data (inl (array_set o)) =
      rw (to_data_value-to_i_data_value zero_number "" o.value) refl
  to_discrete_operation-to_i_discrete_operation_data (inl (array_value o)) =
      rw (to_values-map o.value) refl
  to_discrete_operation-to_i_discrete_operation_data (inr (inl (object_add o))) =
      rw (to_data_value-to_i_data_value zero_number "" o.value) refl
  to_discrete_operation-to_i_discrete_operation_data (inr (inl (object_set o))) =
      rw (to_data_value-to_i_data_value zero_number "" o.value) refl
  to_discrete_operation-to_i_discrete_operation_data (inr (inl (object_remove o))) = refl
  to_discrete_operation-to_i_discrete_operation_data (inr (inl (object_value o))) =
      rw (to_entries-map o.value) refl
  to_discrete_operation-to_i_discrete_operation_data (inr (inr (inl (string_splice o)))) = refl
  to_discrete_operation-to_i_discrete_operation_data (inr (inr (inl (string_value o)))) = refl
  to_discrete_operation-to_i_discrete_operation_data (inr (inr (inr (inl (number_delta o))))) = refl
  to_discrete_operation-to_i_discrete_operation_data (inr (inr (inr (inl (number_value o))))) = refl
  to_discrete_operation-to_i_discrete_operation_data (inr (inr (inr (inr (inl o))))) = refl
  to_discrete_operation-to_i_discrete_operation_data (inr (inr (inr (inr (inr o))))) =
      rw (timestamp_to_date-date_to_timestamp o.value) refl

  to_discrete_operations-map :
      (os : List (SentOperation N))
      → to_discrete_operations zero_number (map to_i_discrete_operation_data os) ≡ ok os
  unfolding to_discrete_operations
  to_discrete_operations-map [] = refl
  to_discrete_operations-map (o ∷ os) =
      rw (to_discrete_operation-to_i_discrete_operation_data o, to_discrete_operations-map os) refl

  -- Every operation, compound ones, those that bring values and dates before 1970 included, is read
  -- back as it was from the message that is sent of it. NaN is not among the numbers.
  pub to_operation-to_i_operation_data :
      (o : Operation (SentOperation N)) → to_operation zero_number (to_i_operation_data o) ≡ ok o
  unfolding to_operation to_i_operation_data get_or_default
  to_operation-to_i_operation_data (discrete o) =
      rw (to_discrete_operation-to_i_discrete_operation_data o) refl
  to_operation-to_i_operation_data (compound os) = rw (to_discrete_operations-map os) refl
