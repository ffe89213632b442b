-- ===== src/DataValues/Tests.antt =====
-- The theorems on values at data with undefined values in them.
use convergence_client_javas.Base.{ℕ, ◌≡◌, refl, true, ok}
use convergence_client_javas.Base.Integers.{pos, negsuc}
use convergence_client_javas.DataValues.{
  Data, data_undefined, data_string, data_array, data_object, no_elements, element_then,
  no_properties, property_then, DataValue, string_value, date_value, array_value, no_values,
  value_then, Builtins, has_own_property,
}
use convergence_client_javas.DataValues.Supported.{is_defined, is_supported, has_ordinary_keys}
use convergence_client_javas.DataValues.Factory.{Made, create_data_value-Made}
use convergence_client_javas.DataValues.Wire.{
  to_i_data_value, to_data_value, to_data_value-to_i_data_value,
}

abbrev sparse : Data ℕ
sparse = data_object (
    property_then "gone" data_undefined (
      property_then "names"
        (data_array (element_then data_undefined (element_then (data_string "x") no_elements)))
        no_properties))

abbrev whole_numbers : Builtins ℕ
whole_numbers = record { is_finite = λ n. true; new_date = λ d. pos 0 }

create_data_value-Made_example : Made whole_numbers (λ n. "id") sparse 0
unfolding is_defined is_supported has_ordinary_keys has_own_property
create_data_value-Made_example = create_data_value-Made whole_numbers (λ n. "id") sparse 0 refl refl

abbrev held : DataValue ℕ
held =
    array_value "1"
      (value_then (date_value "2" (negsuc 1234566)) (value_then (string_value "3" "x") no_values))

to_data_value-to_i_data_value_example : to_data_value 0 "" (to_i_data_value held) ≡ ok held
to_data_value-to_i_data_value_example = to_data_value-to_i_data_value 0 "" held
