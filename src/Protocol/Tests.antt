-- ===== src/Protocol/Tests.antt =====
-- The theorems on values for the server at concrete values.
use convergence_client_javas.Base.{ℕ, ◌≡◌, true, ok, throws, not_serializable, if◌then◌else◌, ◌>>=◌}
use convergence_client_javas.Base.Integers.{negsuc}
use convergence_client_javas.Protocol.{timestamp_to_date, date_to_timestamp}
use convergence_client_javas.Protocol.Timestamps.{timestamp_to_date-date_to_timestamp}
use convergence_client_javas.Protocol.Json.{
  Json, json_null, json_boolean, json_number, json_array, json_object, no_values, value_then,
  no_fields, field_then, is_plain_json, json_to_proto_value, proto_value_to_json,
}
use convergence_client_javas.Protocol.Json.RoundTrip.{proto_value_to_json-json_to_proto_value}

timestamp_to_date-date_to_timestamp_example :
    timestamp_to_date (date_to_timestamp (negsuc 1234566)) ≡ negsuc 1234566
timestamp_to_date-date_to_timestamp_example = timestamp_to_date-date_to_timestamp (negsuc 1234566)

abbrev nested : Json ℕ
nested = json_object (
    field_then "flags"
      (json_array (value_then (json_boolean true) (value_then json_null no_values)))
      (field_then "count" (json_number 3) no_fields))

proto_value_to_json-json_to_proto_value_example :
    (json_to_proto_value nested >>= proto_value_to_json)
    ≡ (if is_plain_json nested then ok nested else throws not_serializable)
proto_value_to_json-json_to_proto_value_example = proto_value_to_json-json_to_proto_value nested
