-- ===== src/References/Transform.antt =====
-- ReferenceTransformer (src/main/model/ot/xform/ReferenceTransformer.ts), the functions of
-- src/main/model/ot/xform/reference that the registry holds, and the two loops of
-- ClientConcurrencyControl.ts over them.
use Prim.Native.String.{String}
use text.Mathlib.Text.{◌==◌ as same_string}
use convergence_client_javas.Base.{
  Bool, false, Option, none, some, List, [], ◌∷◌, map, length, if◌then◌else◌, Result, ok, throws,
  no_function_found, ◌>>=◌,
}
use convergence_client_javas.Transformer.{Operation, discrete, compound}
use convergence_client_javas.Concurrency.{ClientConcurrencyControl}
use convergence_client_javas.Strings.{StringOperation, string_splice, string_value, is_no_op}
use convergence_client_javas.Strings.Plain.{string_operation_id}
use convergence_client_javas.References.{
  ReferenceValues, index_values, range_values, element_values, property_values, ModelReferenceData,
  handle_splice, handle_splice_ranges,
}

-- What the transformer reads of an operation, and the registry's functions: whether there is one for
-- the types of an operation and a reference, and whether it gives null.
pub record ReferenceRegistry (D : Type 0) : Type 0 where
  pub operation_id : D → String
  pub is_no_op : D → Bool
  pub get_reference_transformation_function : D → ReferenceValues → Option (Option ReferenceValues)

unfoldable pub string_reference_function :
    StringOperation → ReferenceValues → Option (Option ReferenceValues)
string_reference_function (string_splice o) (index_values vs) =
    some (some (index_values (handle_splice vs o.index o.delete_count (length o.insert_value))))
string_reference_function (string_splice o) (range_values vs) =
    some
      (some (range_values (handle_splice_ranges vs o.index o.delete_count (length o.insert_value))))
string_reference_function (string_splice o) (element_values vs) = none
string_reference_function (string_splice o) (property_values vs) = none
string_reference_function (string_value o) (index_values vs) = some none
string_reference_function (string_value o) (range_values vs) = some none
string_reference_function (string_value o) (element_values vs) = none
string_reference_function (string_value o) (property_values vs) = none

abbrev pub string_references : ReferenceRegistry StringOperation
string_references = record {
  operation_id = string_operation_id;
  is_no_op = is_no_op;
  get_reference_transformation_function = string_reference_function;
}

-- `s.id === r.valueId`.
unfoldable pub targets : String → Option String → Bool
targets id none = false
targets id (some value_id) = same_string id value_id

-- What the function gave, as the reference with other values.
unfoldable pub call_function :
    Option (Option ReferenceValues) → ModelReferenceData → Result (Option ModelReferenceData)
call_function none r = throws no_function_found
call_function (some none) r = ok none
call_function (some (some values)) r = ok (some (record r { values = values }))

-- A loop over operations, one step for each; it stops at null.
unfoldable pub transform_each :
    {O : Type 0}
    → (O → ModelReferenceData → Result (Option ModelReferenceData))
    → List O
    → Option ModelReferenceData
    → Result (Option ModelReferenceData)
transform_each transform_reference [] r = ok r
transform_each transform_reference (o ∷ os) none = ok none
transform_each transform_reference (o ∷ os) (some r) = do
  q ← transform_reference o r
  transform_each transform_reference os q

module _ {D : Type 0} (tfr : ReferenceRegistry D) where
  unfoldable pub transform_with_identical_path_operation :
      D → ModelReferenceData → Result (Option ModelReferenceData)
  transform_with_identical_path_operation o r =
      call_function (tfr.get_reference_transformation_function o r.values) r

  unfoldable pub transform_discrete_operation :
      D → ModelReferenceData → Result (Option ModelReferenceData)
  transform_discrete_operation s r =
      if tfr.is_no_op s
      then ok (some r)
      else if targets (tfr.operation_id s) r.value_id
      then transform_with_identical_path_operation s r
      else ok (some r)

  unfoldable pub transform_reference :
      Operation D → ModelReferenceData → Result (Option ModelReferenceData)
  transform_reference (discrete o) r = transform_discrete_operation o r
  transform_reference (compound os) r = transform_each transform_discrete_operation os (some r)

  unfoldable pub process_outgoing_set_reference :
      ClientConcurrencyControl D → ModelReferenceData → Result (Option ModelReferenceData)
  process_outgoing_set_reference control r =
      transform_each transform_reference (map (λ e. e.operation) control.unapplied_operations)
        (some r)

  unfoldable pub process_remote_reference_set :
      ClientConcurrencyControl D → ModelReferenceData → Result (Option ModelReferenceData)
  process_remote_reference_set control r =
      transform_each transform_reference (map (λ e. e.operation) control.inflight_operations)
        (some r)
