-- ===== src/Messages.antt =====
-- Operations as messages to the server and from it: toOperation and toIOperationData
-- (src/main/model/OperationMapper.ts), over the conversion of values in DataValues/Wire. A field that
-- is not sent has its default. A discrete operation has one of its alternatives; of a message that has
-- none the source returns undefined, which is not modelled.
pub mod RoundTrip
pub mod Tests
use Prim.Native.String.{String}
use convergence_client_javas.Base.{
  ℕ, Bool, false, Option, some, List, [], ◌∷◌, map, Result, ok, throws, not_an_operation, inl, inr,
  ◌>>=◌,
}
use convergence_client_javas.Base.Integers.{ℤ}
use convergence_client_javas.Transformer.{Operation, discrete, compound}
use convergence_client_javas.Arrays.{
  array_insert, array_remove, array_set, array_reorder, array_value,
}
use convergence_client_javas.Strings.{Text, string_splice, string_value}
use convergence_client_javas.Objects.{object_add, object_set, object_remove, object_value}
use convergence_client_javas.Values.{number_delta, number_value}
use convergence_client_javas.Models.{ModelOperation}
use convergence_client_javas.Protocol.{
  get_or_default_number, Timestamp, timestamp_to_date, date_to_timestamp,
}
use convergence_client_javas.DataValues.{DataValue}
use convergence_client_javas.DataValues.Wire.{
  DataValueData, get_or_default, to_i_data_value, to_data_value,
}

-- The operations of a model whose values are those of DataValues, and whose dates are their times.
abbrev pub SentOperation : Type 0 → Type 0
SentOperation N = ModelOperation (DataValue N) N ℤ

-- The alternatives of the message, each with its id, its `noOp` and its other fields.
pub data DiscreteOperationData (N : Type 0) : Type 0 where
  array_insert_operation :
      String → Option Bool → Option ℕ → DataValueData N → DiscreteOperationData N
  array_remove_operation : String → Option Bool → Option ℕ → DiscreteOperationData N
  array_move_operation : String → Option Bool → Option ℕ → Option ℕ → DiscreteOperationData N
  array_replace_operation :
      String → Option Bool → Option ℕ → DataValueData N → DiscreteOperationData N
  array_set_operation :
      String → Option Bool → Option (List (DataValueData N)) → DiscreteOperationData N
  object_add_property_operation :
      String → Option Bool → Option String → DataValueData N → DiscreteOperationData N
  object_set_property_operation :
      String → Option Bool → Option String → DataValueData N → DiscreteOperationData N
  object_remove_property_operation : String → Option Bool → Option String → DiscreteOperationData N
  object_set_operation :
      String → Option Bool → List (String × DataValueData N) → DiscreteOperationData N
  string_splice_operation :
      String → Option Bool → Option ℕ → Option ℕ → Option Text → DiscreteOperationData N
  string_set_operation : String → Option Bool → Option Text → DiscreteOperationData N
  number_delta_operation : String → Option Bool → Option N → DiscreteOperationData N
  number_set_operation : String → Option Bool → Option N → DiscreteOperationData N
  boolean_set_operation : String → Option Bool → Option Bool → DiscreteOperationData N
  date_set_operation : String → Option Bool → Timestamp → DiscreteOperationData N

pub data OperationData (N : Type 0) : Type 0 where
  no_data : OperationData N
  compound_operation : Option (List (DiscreteOperationData N)) → OperationData N
  discrete_operation : DiscreteOperationData N → OperationData N

module _ {N : Type 0} where
  abbrev pub send_entry : String × DataValue N → String × DataValueData N
  send_entry entry = (entry.0, to_i_data_value entry.1)

  unfoldable pub to_i_discrete_operation_data : SentOperation N → DiscreteOperationData N
  to_i_discrete_operation_data (inl (array_insert o)) =
      array_insert_operation o.id (some o.no_op) (some o.index) (to_i_data_value o.value)
  to_i_discrete_operation_data (inl (array_remove o)) =
      array_remove_operation o.id (some o.no_op) (some o.index)
  to_i_discrete_operation_data (inl (array_reorder o)) =
      array_move_operation o.id (some o.no_op) (some o.from_index) (some o.to_index)
  to_i_discrete_operation_data (inl (array_set o)) =
      array_replace_operation o.id (some o.no_op) (some o.index) (to_i_data_value o.value)
  to_i_discrete_operation_data (inl (array_value o)) =
      array_set_operation o.id (some o.no_op) (some (map to_i_data_value o.value))
  to_i_discrete_operation_data (inr (inl (object_add o))) =
      object_add_property_operation o.id (some o.no_op) (some o.prop) (to_i_data_value o.value)
  to_i_discrete_operation_data (inr (inl (object_set o))) =
      object_set_property_operation o.id (some o.no_op) (some o.prop) (to_i_data_value o.value)
  to_i_discrete_operation_data (inr (inl (object_remove o))) =
      object_remove_property_operation o.id (some o.no_op) (some o.prop)
  to_i_discrete_operation_data (inr (inl (object_value o))) =
      object_set_operation o.id (some o.no_op) (map send_entry o.value)
  to_i_discrete_operation_data (inr (inr (inl (string_splice o)))) =
      string_splice_operation o.id (some o.no_op) (some o.index) (some o.delete_count)
        (some o.insert_value)
  to_i_discrete_operation_data (inr (inr (inl (string_value o)))) =
      string_set_operation o.id (some o.no_op) (some o.value)
  to_i_discrete_operation_data (inr (inr (inr (inl (number_delta o))))) =
      number_delta_operation o.id (some o.no_op) (some o.delta)
  to_i_discrete_operation_data (inr (inr (inr (inl (number_value o))))) =
      number_set_operation o.id (some o.no_op) (some o.value)
  to_i_discrete_operation_data (inr (inr (inr (inr (inl o))))) =
      boolean_set_operation o.id (some o.no_op) (some o.value)
  to_i_discrete_operation_data (inr (inr (inr (inr (inr o))))) =
      date_set_operation o.id (some o.no_op) (date_to_timestamp o.value)

  unfoldable pub to_i_operation_data : Operation (SentOperation N) → OperationData N
  to_i_operation_data (discrete o) = discrete_operation (to_i_discrete_operation_data o)
  to_i_operation_data (compound os) =
      compound_operation (some (map to_i_discrete_operation_data os))

module _ {N : Type 0} (zero_number : N) where
  unfoldable pub to_values : List (DataValueData N) → Result (List (DataValue N))
  to_values [] = ok []
  to_values (v ∷ vs) = do w ← to_data_value zero_number "" v; ws ← to_values vs; ok (w ∷ ws)

  unfoldable pub to_entries : List (String × DataValueData N) → Result (List (String × DataValue N))
  to_entries [] = ok []
  to_entries (e ∷ es) = do
    w ← to_data_value zero_number "" e.1
    ws ← to_entries es
    ok ((e.0, w) ∷ ws)

  unfoldable pub to_discrete_operation : DiscreteOperationData N → Result (SentOperation N)
  to_discrete_operation (array_insert_operation id no_op index' value') = do
    value_read ← to_data_value zero_number "" value'
    ok (
        inl (
          array_insert (record {
            id = id;
            no_op = get_or_default false no_op;
            index = get_or_default_number index';
            value = value_read;
          })))
  to_discrete_operation (array_remove_operation id no_op index') = ok (
      inl (
        array_remove (record {
          id = id;
          no_op = get_or_default false no_op;
          index = get_or_default_number index';
        })))
  to_discrete_operation (array_move_operation id no_op from_index' to_index') = ok (
      inl (
        array_reorder (record {
          id = id;
          no_op = get_or_default false no_op;
          from_index = get_or_default_number from_index';
          to_index = get_or_default_number to_index';
        })))
  to_discrete_operation (array_replace_operation id no_op index' value') = do
    value_read ← to_data_value zero_number "" value'
    ok (
        inl (
          array_set (record {
            id = id;
            no_op = get_or_default false no_op;
            index = get_or_default_number index';
            value = value_read;
          })))
  to_discrete_operation (array_set_operation id no_op values') = do
    value_read ← to_values (get_or_default [] values')
    ok (
        inl (
          array_value (record { id = id; no_op = get_or_default false no_op; value = value_read })))
  to_discrete_operation (object_add_property_operation id no_op key' value') = do
    value_read ← to_data_value zero_number "" value'
    ok (
        inr (
          inl (
            object_add (record {
              id = id;
              no_op = get_or_default false no_op;
              prop = get_or_default "" key';
              value = value_read;
            }))))
  to_discrete_operation (object_set_property_operation id no_op key' value') = do
    value_read ← to_data_value zero_number "" value'
    ok (
        inr (
          inl (
            object_set (record {
              id = id;
              no_op = get_or_default false no_op;
              prop = get_or_default "" key';
              value = value_read;
            }))))
  to_discrete_operation (object_remove_property_operation id no_op key') = ok (
      inr (
        inl (
          object_remove (record {
            id = id;
            no_op = get_or_default false no_op;
            prop = get_or_default "" key';
          }))))
  to_discrete_operation (object_set_operation id no_op values') = do
    value_read ← to_entries values'
    ok (
        inr (
          inl (
            object_value
              (record { id = id; no_op = get_or_default false no_op; value = value_read }))))
  to_discrete_operation (string_splice_operation id no_op index' delete_count' inserted_value') =
      ok (
        inr (
          inr (
            inl (
              string_splice (record {
                id = id;
                no_op = get_or_default false no_op;
                index = get_or_default_number index';
                delete_count = get_or_default_number delete_count';
                insert_value = get_or_default [] inserted_value';
              })))))
  to_discrete_operation (string_set_operation id no_op value') = ok (
      inr (
        inr (
          inl (
            string_value (record {
              id = id;
              no_op = get_or_default false no_op;
              value = get_or_default [] value';
            })))))
  to_discrete_operation (number_delta_operation id no_op delta') = ok (
      inr (
        inr (
          inr (
            inl (
              number_delta (record {
                id = id;
                no_op = get_or_default false no_op;
                delta = get_or_default zero_number delta';
              }))))))
  to_discrete_operation (number_set_operation id no_op value') = ok (
      inr (
        inr (
          inr (
            inl (
              number_value (record {
                id = id;
                no_op = get_or_default false no_op;
                value = get_or_default zero_number value';
              }))))))
  to_discrete_operation (boolean_set_operation id no_op value') = ok (
      inr (
        inr (
          inr (
            inr (
              inl (record {
                id = id;
                no_op = get_or_default false no_op;
                value = get_or_default false value';
              }))))))
  to_discrete_operation (date_set_operation id no_op value') = ok (
      inr (
        inr (
          inr (
            inr (
              inr (record {
                id = id;
                no_op = get_or_default false no_op;
                value = timestamp_to_date value';
              }))))))

  unfoldable pub to_discrete_operations :
      List (DiscreteOperationData N) → Result (List (SentOperation N))
  to_discrete_operations [] = ok []
  to_discrete_operations (d ∷ ds) = do
    o ← to_discrete_operation d
    os ← to_discrete_operations ds
    ok (o ∷ os)

  unfoldable pub to_operation : OperationData N → Result (Operation (SentOperation N))
  to_operation no_data = throws not_an_operation
  to_operation (compound_operation ds) = do
    os ← to_discrete_operations (get_or_default [] ds)
    ok (compound os)
  to_operation (discrete_operation d) = do o ← to_discrete_operation d; ok (discrete o)
