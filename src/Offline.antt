-- ===== src/Offline.antt =====
-- Operations as they are kept while the client is offline: toOfflineOperationData and
-- fromOfflineOperationData (src/main/storage/OfflineOperationMapper.ts), with the interfaces of
-- src/main/storage/api/IModelOperationData.ts.
--
-- A stored operation is one record with the fields of all the interfaces, of which a type has some.
-- A cast that TypeScript does not check is a check here: an operation with a field that is missing or
-- not of its type is refused, and so is one of another type, of which the source returns undefined.
pub mod RoundTrip
pub mod Tests
use Prim.Native.String.{String}
use text.Mathlib.Text.{◌==◌ as same_string}
use convergence_client_javas.Base.{
  ℕ, Bool, Option, none, some, List, [], ◌∷◌, map, if◌then◌else◌, Result, ok, throws,
  not_an_operation, ◌>>=◌, inl, inr,
}
use convergence_client_javas.Transformer.{Operation, discrete, compound}
use convergence_client_javas.Arrays.{
  array_insert, array_remove, array_set, array_reorder, array_value,
}
use convergence_client_javas.Strings.{Text, string_splice, string_value}
use convergence_client_javas.Objects.{object_add, object_set, object_remove, object_value}
use convergence_client_javas.Values.{number_delta, number_value}
use convergence_client_javas.Models.{ModelOperation}

-- What the field `value` may hold.
pub data StoredValue (V N T : Type 0) : Type 0 where
  stored_data_value : V → StoredValue V N T
  stored_data_values : List V → StoredValue V N T
  stored_properties : List (String × V) → StoredValue V N T
  stored_text : Text → StoredValue V N T
  stored_number : N → StoredValue V N T
  stored_boolean : Bool → StoredValue V N T
  stored_date : T → StoredValue V N T

pub record ModelOperationData (V N T : Type 0) : Type 0 where
  pub type : String
  pub id : String
  pub no_op : Bool
  pub index : Option ℕ
  pub from_index : Option ℕ
  pub to_index : Option ℕ
  pub delete_count : Option ℕ
  pub inserted_value : Option Text
  pub key : Option String
  pub value : Option (StoredValue V N T)

-- The types of operations that the `switch` tells apart.
pub data OfflineType : Type 0 where
  type_string_splice : OfflineType
  type_string_set : OfflineType
  type_array_insert : OfflineType
  type_array_remove : OfflineType
  type_array_replace : OfflineType
  type_array_move : OfflineType
  type_array_set : OfflineType
  type_object_set_property : OfflineType
  type_object_add_property : OfflineType
  type_object_remove_property : OfflineType
  type_object_set : OfflineType
  type_number_delta : OfflineType
  type_number_set : OfflineType
  type_boolean_set : OfflineType
  type_date_set : OfflineType

unfoldable pub offline_type : String → Option OfflineType
offline_type type =
    if same_string "string_splice" type
    then some type_string_splice
    else if same_string "string_set" type
    then some type_string_set
    else if same_string "array_insert" type
    then some type_array_insert
    else if same_string "array_remove" type
    then some type_array_remove
    else if same_string "array_replace" type
    then some type_array_replace
    else if same_string "array_move" type
    then some type_array_move
    else if same_string "array_set" type
    then some type_array_set
    else if same_string "object_set_property" type
    then some type_object_set_property
    else if same_string "object_add_property" type
    then some type_object_add_property
    else if same_string "object_remove_property" type
    then some type_object_remove_property
    else if same_string "object_set" type
    then some type_object_set
    else if same_string "number_delta" type
    then some type_number_delta
    else if same_string "number_set" type
    then some type_number_set
    else if same_string "boolean_set" type
    then some type_boolean_set
    else if same_string "date_set" type
    then some type_date_set
    else none

-- A field that has to be there.
unfoldable pub required : {A : Type 0} → Option A → Result A
required none = throws not_an_operation
required (some a) = ok a

module _ {V N T : Type 0} where
  unfoldable pub as_data_value : Option (StoredValue V N T) → Result (V)
  as_data_value (some (stored_data_value v)) = ok v
  as_data_value _ = throws not_an_operation

  unfoldable pub as_data_values : Option (StoredValue V N T) → Result (List V)
  as_data_values (some (stored_data_values v)) = ok v
  as_data_values _ = throws not_an_operation

  unfoldable pub as_properties : Option (StoredValue V N T) → Result (List (String × V))
  as_properties (some (stored_properties v)) = ok v
  as_properties _ = throws not_an_operation

  unfoldable pub as_text : Option (StoredValue V N T) → Result (Text)
  as_text (some (stored_text v)) = ok v
  as_text _ = throws not_an_operation

  unfoldable pub as_number : Option (StoredValue V N T) → Result (N)
  as_number (some (stored_number v)) = ok v
  as_number _ = throws not_an_operation

  unfoldable pub as_boolean : Option (StoredValue V N T) → Result (Bool)
  as_boolean (some (stored_boolean v)) = ok v
  as_boolean _ = throws not_an_operation

  unfoldable pub as_date : Option (StoredValue V N T) → Result (T)
  as_date (some (stored_date v)) = ok v
  as_date _ = throws not_an_operation

  -- The fields that every type has.
  abbrev pub fields : String → String → Bool → ModelOperationData V N T
  fields type id no_op = record {
    type = type;
    id = id;
    no_op = no_op;
    index = none;
    from_index = none;
    to_index = none;
    delete_count = none;
    inserted_value = none;
    key = none;
    value = none;
  }

  unfoldable pub to_offline_operation_data : ModelOperation V N T → ModelOperationData V N T
  to_offline_operation_data (inr (inr (inl (string_splice o)))) =
      record (fields "string_splice" o.id o.no_op) {
        index = some o.index;
        delete_count = some o.delete_count;
        inserted_value = some o.insert_value;
      }
  to_offline_operation_data (inr (inr (inl (string_value o)))) =
      record (fields "string_set" o.id o.no_op) { value = some (stored_text o.value) }
  to_offline_operation_data (inl (array_insert o)) = record (fields "array_insert" o.id o.no_op) {
    index = some o.index;
    value = some (stored_data_value o.value);
  }
  to_offline_operation_data (inl (array_remove o)) = record (fields "array_remove" o.id o.no_op) {
    index = some o.index;
  }
  to_offline_operation_data (inl (array_set o)) = record (fields "array_replace" o.id o.no_op) {
    index = some o.index;
    value = some (stored_data_value o.value);
  }
  to_offline_operation_data (inl (array_reorder o)) = record (fields "array_move" o.id o.no_op) {
    from_index = some o.from_index;
    to_index = some o.to_index;
  }
  to_offline_operation_data (inl (array_value o)) = record (fields "array_set" o.id o.no_op) {
    value = some (stored_data_values o.value);
  }
  to_offline_operation_data (inr (inl (object_set o))) =
      record (fields "object_set_property" o.id o.no_op) {
        key = some o.prop;
        value = some (stored_data_value o.value);
      }
  to_offline_operation_data (inr (inl (object_add o))) =
      record (fields "object_add_property" o.id o.no_op) {
        key = some o.prop;
        value = some (stored_data_value o.value);
      }
  to_offline_operation_data (inr (inl (object_remove o))) =
      record (fields "object_remove_property" o.id o.no_op) { key = some o.prop }
  to_offline_operation_data (inr (inl (object_value o))) =
      record (fields "object_set" o.id o.no_op) { value = some (stored_properties o.value) }
  to_offline_operation_data (inr (inr (inr (inl (number_delta o))))) =
      record (fields "number_delta" o.id o.no_op) { value = some (stored_number o.delta) }
  to_offline_operation_data (inr (inr (inr (inl (number_value o))))) =
      record (fields "number_set" o.id o.no_op) { value = some (stored_number o.value) }
  to_offline_operation_data (inr (inr (inr (inr (inl o))))) =
      record (fields "boolean_set" o.id o.no_op) { value = some (stored_boolean o.value) }
  to_offline_operation_data (inr (inr (inr (inr (inr o))))) =
      record (fields "date_set" o.id o.no_op) { value = some (stored_date o.value) }

  -- The cases of the `switch`.
  unfoldable pub operation_of_type :
      Option OfflineType → ModelOperationData V N T → Result (ModelOperation V N T)
  operation_of_type none data' = throws not_an_operation
  operation_of_type (some type_string_splice) data' = do
    index' ← required data'.index
    delete_count' ← required data'.delete_count
    insert_value' ← required data'.inserted_value
    ok (
        inr (
          inr (
            inl (
              string_splice (record {
                id = data'.id;
                no_op = data'.no_op;
                index = index';
                delete_count = delete_count';
                insert_value = insert_value';
              })))))
  operation_of_type (some type_string_set) data' = do
    value' ← as_text data'.value
    ok (
        inr (
          inr (inl (string_value (record { id = data'.id; no_op = data'.no_op; value = value' })))))
  operation_of_type (some type_array_insert) data' = do
    index' ← required data'.index
    value' ← as_data_value data'.value
    ok (
        inl (
          array_insert
            (record { id = data'.id; no_op = data'.no_op; index = index'; value = value' })))
  operation_of_type (some type_array_remove) data' = do
    index' ← required data'.index
    ok (inl (array_remove (record { id = data'.id; no_op = data'.no_op; index = index' })))
  operation_of_type (some type_array_replace) data' = do
    index' ← required data'.index
    value' ← as_data_value data'.value
    ok (
        inl (
          array_set
            (record { id = data'.id; no_op = data'.no_op; index = index'; value = value' })))
  operation_of_type (some type_array_move) data' = do
    from_index' ← required data'.from_index
    to_index' ← required data'.to_index
    ok (
        inl (
          array_reorder (record {
            id = data'.id;
            no_op = data'.no_op;
            from_index = from_index';
            to_index = to_index';
          })))
  operation_of_type (some type_array_set) data' = do
    value' ← as_data_values data'.value
    ok (inl (array_value (record { id = data'.id; no_op = data'.no_op; value = value' })))
  operation_of_type (some type_object_set_property) data' = do
    prop' ← required data'.key
    value' ← as_data_value data'.value
    ok (
        inr (
          inl (
            object_set
              (record { id = data'.id; no_op = data'.no_op; prop = prop'; value = value' }))))
  operation_of_type (some type_object_add_property) data' = do
    prop' ← required data'.key
    value' ← as_data_value data'.value
    ok (
        inr (
          inl (
            object_add
              (record { id = data'.id; no_op = data'.no_op; prop = prop'; value = value' }))))
  operation_of_type (some type_object_remove_property) data' = do
    prop' ← required data'.key
    ok (inr (inl (object_remove (record { id = data'.id; no_op = data'.no_op; prop = prop' }))))
  operation_of_type (some type_object_set) data' = do
    value' ← as_properties data'.value
    ok (inr (inl (object_value (record { id = data'.id; no_op = data'.no_op; value = value' }))))
  operation_of_type (some type_number_delta) data' = do
    delta' ← as_number data'.value
    ok (
        inr (
          inr (
            inr (
              inl (number_delta (record { id = data'.id; no_op = data'.no_op; delta = delta' }))))))
  operation_of_type (some type_number_set) data' = do
    value' ← as_number data'.value
    ok (
        inr (
          inr (
            inr (
              inl (number_value (record { id = data'.id; no_op = data'.no_op; value = value' }))))))
  operation_of_type (some type_boolean_set) data' = do
    value' ← as_boolean data'.value
    ok (inr (inr (inr (inr (inl (record { id = data'.id; no_op = data'.no_op; value = value' }))))))
  operation_of_type (some type_date_set) data' = do
    value' ← as_date data'.value
    ok (inr (inr (inr (inr (inr (record { id = data'.id; no_op = data'.no_op; value = value' }))))))

  unfoldable pub from_offline_operation_data :
      ModelOperationData V N T → Result (ModelOperation V N T)
  from_offline_operation_data data' = operation_of_type (offline_type data'.type) data'

-- Compound operations, of the type "compound", and the others.
pub data OfflineOperation (V N T : Type 0) : Type 0 where
  stored_discrete : ModelOperationData V N T → OfflineOperation V N T
  stored_compound : List (ModelOperationData V N T) → OfflineOperation V N T

module _ {V N T : Type 0} where
  unfoldable pub to_offline : Operation (ModelOperation V N T) → OfflineOperation V N T
  to_offline (discrete o) = stored_discrete (to_offline_operation_data o)
  to_offline (compound os) = stored_compound (map to_offline_operation_data os)

  unfoldable pub from_offline_all :
      List (ModelOperationData V N T) → Result (List (ModelOperation V N T))
  from_offline_all [] = ok []
  from_offline_all (d ∷ ds) = do
    o ← from_offline_operation_data d
    os ← from_offline_all ds
    ok (o ∷ os)

  unfoldable pub from_offline : OfflineOperation V N T → Result (Operation (ModelOperation V N T))
  from_offline (stored_discrete d) = do o ← from_offline_operation_data d; ok (discrete o)
  from_offline (stored_compound ds) = do os ← from_offline_all ds; ok (compound os)
