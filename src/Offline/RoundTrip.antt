-- ===== src/Offline/RoundTrip.antt =====
-- What is stored of an operation (src/main/storage/OfflineOperationMapper.ts) is enough to get it
-- back.
use convergence_client_javas.Base.{◌≡◌, refl, List, [], ◌∷◌, map, ok, inl, inr}
use convergence_client_javas.Transformer.{Operation, discrete, compound}
use convergence_client_javas.Arrays.{
  array_insert, array_remove, array_set, array_reorder, array_value,
}
use convergence_client_javas.Strings.{string_splice, string_value}
use convergence_client_javas.Objects.{object_add, object_set, object_remove, object_value}
use convergence_client_javas.Values.{number_delta, number_value}
use convergence_client_javas.Models.{ModelOperation}
use convergence_client_javas.Offline.{
  offline_type, required, as_data_value, as_data_values, as_properties, as_text, as_number,
  as_boolean, as_date, to_offline_operation_data, operation_of_type, from_offline_operation_data,
  to_offline, from_offline_all, from_offline,
}

module _ {V N T : Type 0} where
  -- A stored operation is read back as it was, whatever its type.
  from_offline_operation_data-to_offline_operation_data :
      (o : ModelOperation V N T) → from_offline_operation_data (to_offline_operation_data o) ≡ ok o
  unfolding from_offline_operation_data to_offline_operation_data operation_of_type offline_type
      required as_data_value as_data_values as_properties as_text as_number as_boolean as_date
  from_offline_operation_data-to_offline_operation_data (inr (inr (inl (string_splice o)))) = refl
  from_offline_operation_data-to_offline_operation_data (inr (inr (inl (string_value o)))) = refl
  from_offline_operation_data-to_offline_operation_data (inl (array_insert o)) = refl
  from_offline_operation_data-to_offline_operation_data (inl (array_remove o)) = refl
  from_offline_operation_data-to_offline_operation_data (inl (array_set o)) = refl
  from_offline_operation_data-to_offline_operation_data (inl (array_reorder o)) = refl
  from_offline_operation_data-to_offline_operation_data (inl (array_value o)) = refl
  from_offline_operation_data-to_offline_operation_data (inr (inl (object_set o))) = refl
  from_offline_operation_data-to_offline_operation_data (inr (inl (object_add o))) = refl
  from_offline_operation_data-to_offline_operation_data (inr (inl (object_remove o))) = refl
  from_offline_operation_data-to_offline_operation_data (inr (inl (object_value o))) = refl
  from_offline_operation_data-to_offline_operation_data (inr (inr (inr (inl (number_delta o))))) =
      refl
  from_offline_operation_data-to_offline_operation_data (inr (inr (inr (inl (number_value o))))) =
      refl
  from_offline_operation_data-to_offline_operation_data (inr (inr (inr (inr (inl o))))) = refl
  from_offline_operation_data-to_offline_operation_data (inr (inr (inr (inr (inr o))))) = refl

  from_offline_all-map :
      (os : List (ModelOperation V N T))
      → from_offline_all (map to_offline_operation_data os) ≡ ok os
  unfolding from_offline_all
  from_offline_all-map [] = refl
  from_offline_all-map (o ∷ os) =
      rw (from_offline_operation_data-to_offline_operation_data o, from_offline_all-map os) refl

  -- Every operation, on a node of any type or of several, is read back from what is stored of it as
  -- it was.
  pub from_offline-to_offline :
      (o : Operation (ModelOperation V N T)) → from_offline (to_offline o) ≡ ok o
  unfolding from_offline to_offline
  from_offline-to_offline (discrete o) =
      rw (from_offline_operation_data-to_offline_operation_data o) refl
  from_offline-to_offline (compound os) = rw (from_offline_all-map os) refl
