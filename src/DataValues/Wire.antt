-- ===== src/DataValues/Wire.antt =====
-- Values as they are sent to the server: toDataValue and toIDataValue
-- (src/main/model/ModelMessageConverter.ts). A field that is not sent has its default; a message with
-- none of the alternatives is refused.
use Prim.Native.String.{String}
use convergence_client_javas.Base.{
  ◌≡◌, refl, Bool, false, Option, none, some, Result, ok, throws, not_serializable, ◌>>=◌,
}
use convergence_client_javas.Protocol.{Timestamp, timestamp_to_date, date_to_timestamp}
use convergence_client_javas.Protocol.Timestamps.{timestamp_to_date-date_to_timestamp}
use convergence_client_javas.DataValues.{
  DataValue, null_value, string_value, number_value, boolean_value, date_value, array_value,
  object_value, DataValues, no_values, value_then, DataFields, no_fields, field_then,
}

mutual
  pub data DataValueData (N : Type 0) : Type 0 where
    no_value_data : DataValueData N
    null_value_data : String → DataValueData N
    string_value_data : String → Option String → DataValueData N
    double_value_data : String → Option N → DataValueData N
    boolean_value_data : String → Option Bool → DataValueData N
    date_value_data : String → Timestamp → DataValueData N
    array_value_data : String → DataValuesData N → DataValueData N
    object_value_data : String → DataFieldsData N → DataValueData N

  pub data DataValuesData (N : Type 0) : Type 0 where
    values_not_sent no_values_data : DataValuesData N
    value_data_then : DataValueData N → DataValuesData N → DataValuesData N

  pub data DataFieldsData (N : Type 0) : Type 0 where
    fields_not_sent no_fields_data : DataFieldsData N
    field_data_then : String → DataValueData N → DataFieldsData N → DataFieldsData N

-- `val || default`, of a field; NaN, for which it gives the default too, is not among the numbers.
unfoldable pub get_or_default : {A : Type 0} → A → Option A → A
get_or_default a none = a
get_or_default a (some b) = b

module _ {N : Type 0} where
  unfoldable mutual
    pub to_i_data_value : DataValue N → DataValueData N
    to_i_data_value (null_value id) = null_value_data id
    to_i_data_value (string_value id s) = string_value_data id (some s)
    to_i_data_value (number_value id x) = double_value_data id (some x)
    to_i_data_value (boolean_value id b) = boolean_value_data id (some b)
    to_i_data_value (date_value id t) = date_value_data id (date_to_timestamp t)
    to_i_data_value (array_value id vs) = array_value_data id (to_i_data_values vs)
    to_i_data_value (object_value id fs) = object_value_data id (to_i_data_fields fs)

    pub to_i_data_values : DataValues N → DataValuesData N
    to_i_data_values no_values = no_values_data
    to_i_data_values (value_then v vs) = value_data_then (to_i_data_value v) (to_i_data_values vs)

    pub to_i_data_fields : DataFields N → DataFieldsData N
    to_i_data_fields no_fields = no_fields_data
    to_i_data_fields (field_then k v fs) =
        field_data_then k (to_i_data_value v) (to_i_data_fields fs)

module _ {N : Type 0} (zero_number : N) (empty_string : String) where
  unfoldable mutual
    pub to_data_value : DataValueData N → Result (DataValue N)
    to_data_value no_value_data = throws not_serializable
    to_data_value (null_value_data id) = ok (null_value id)
    to_data_value (string_value_data id s) = ok (string_value id (get_or_default empty_string s))
    to_data_value (double_value_data id x) = ok (number_value id (get_or_default zero_number x))
    to_data_value (boolean_value_data id b) = ok (boolean_value id (get_or_default false b))
    to_data_value (date_value_data id t) = ok (date_value id (timestamp_to_date t))
    to_data_value (array_value_data id vs) = do ws ← to_data_values vs; ok (array_value id ws)
    to_data_value (object_value_data id fs) = do gs ← to_data_fields fs; ok (object_value id gs)

    pub to_data_values : DataValuesData N → Result (DataValues N)
    to_data_values values_not_sent = ok no_values
    to_data_values no_values_data = ok no_values
    to_data_values (value_data_then v vs) = do
      w ← to_data_value v
      ws ← to_data_values vs
      ok (value_then w ws)

    pub to_data_fields : DataFieldsData N → Result (DataFields N)
    to_data_fields fields_not_sent = ok no_fields
    to_data_fields no_fields_data = ok no_fields
    to_data_fields (field_data_then k v fs) = do
      w ← to_data_value v
      gs ← to_data_fields fs
      ok (field_then k w gs)

  mutual
    unfolding to_i_data_value to_data_value get_or_default

    value_returns : (v : DataValue N) → to_data_value (to_i_data_value v) ≡ ok v
    value_returns (null_value id) = refl
    value_returns (string_value id s) = refl
    value_returns (number_value id x) = refl
    value_returns (boolean_value id b) = refl
    value_returns (date_value id t) = rw (timestamp_to_date-date_to_timestamp t) refl
    value_returns (array_value id vs) = rw (values_return vs) refl
    value_returns (object_value id fs) = rw (fields_return fs) refl

    values_return : (vs : DataValues N) → to_data_values (to_i_data_values vs) ≡ ok vs
    values_return no_values = refl
    values_return (value_then v vs) = rw (value_returns v, values_return vs) refl

    fields_return : (fs : DataFields N) → to_data_fields (to_i_data_fields fs) ≡ ok fs
    fields_return no_fields = refl
    fields_return (field_then k v fs) = rw (value_returns v, fields_return fs) refl

  -- A value of a model, with the ids of its nodes and however nested, dates before 1970 included, is
  -- read back from the message that is sent of it. NaN is not among the numbers.
  pub to_data_value-to_i_data_value : (v : DataValue N) → to_data_value (to_i_data_value v) ≡ ok v
  to_data_value-to_i_data_value v = value_returns v
