-- ===== src/Protocol/Json.antt =====
-- JSON values and the google.protobuf.Value that stands for them: protoValueToJson and
-- jsonToProtoValue (src/main/connection/ProtocolUtil.ts). The numbers are a parameter, NaN not among
-- them. A struct lists its fields in the order of the object. An object with an own `constructor` is
-- refused, since the source tells objects by `value.constructor === Object`; an own key `__proto__`,
-- which would set the prototype of a copy, is not modelled.
pub mod RoundTrip
use Prim.Native.String.{String}
use text.Mathlib.Text.{◌==◌ as same_string}
use convergence_client_javas.Base.{
  Bool, true, false, true≢false, not, ◌&&◌, ◌||◌, both, not-true, if◌then◌else◌, inl, inr,
  Bool-cases, ◌≡◌, refl, sym, ◌∙◌, Result, ok, throws, not_serializable, ◌>>=◌,
}

mutual
  pub data Json (N : Type 0) : Type 0 where
    json_null : Json N
    json_boolean : Bool → Json N
    json_string : String → Json N
    json_number : N → Json N
    json_array : JsonValues N → Json N
    json_object : JsonFields N → Json N

  pub data JsonValues (N : Type 0) : Type 0 where
    no_values : JsonValues N
    value_then : Json N → JsonValues N → JsonValues N

  pub data JsonFields (N : Type 0) : Type 0 where
    no_fields : JsonFields N
    field_then : String → Json N → JsonFields N → JsonFields N

-- The alternatives of the message; one that has none of them is not a value.
mutual
  pub data ProtoValue (N : Type 0) : Type 0 where
    no_kind : ProtoValue N
    null_value : ProtoValue N
    bool_value : Bool → ProtoValue N
    string_value : String → ProtoValue N
    number_value : N → ProtoValue N
    list_value : ProtoValues N → ProtoValue N
    struct_value : ProtoFields N → ProtoValue N

  pub data ProtoValues (N : Type 0) : Type 0 where
    no_proto_values : ProtoValues N
    proto_value_then : ProtoValue N → ProtoValues N → ProtoValues N

  pub data ProtoFields (N : Type 0) : Type 0 where
    no_proto_fields : ProtoFields N
    proto_field_then : String → ProtoValue N → ProtoFields N → ProtoFields N

module _ {N : Type 0} where
  unfoldable pub has_field : String → JsonFields N → Bool
  has_field key no_fields = false
  has_field key (field_then k v fs) = same_string key k || has_field key fs

  unfoldable mutual
    pub json_to_proto_value : Json N → Result (ProtoValue N)
    json_to_proto_value json_null = ok null_value
    json_to_proto_value (json_boolean b) = ok (bool_value b)
    json_to_proto_value (json_string s) = ok (string_value s)
    json_to_proto_value (json_number n) = ok (number_value n)
    json_to_proto_value (json_array vs) = do ws ← json_to_proto_values vs; ok (list_value ws)
    json_to_proto_value (json_object fs) =
        let fields = json_to_proto_fields fs in
        if has_field "constructor" fs
        then throws not_serializable
        else fields >>= (λ gs. ok (struct_value gs))

    pub json_to_proto_values : JsonValues N → Result (ProtoValues N)
    json_to_proto_values no_values = ok no_proto_values
    json_to_proto_values (value_then v vs) = do
      w ← json_to_proto_value v
      ws ← json_to_proto_values vs
      ok (proto_value_then w ws)

    pub json_to_proto_fields : JsonFields N → Result (ProtoFields N)
    json_to_proto_fields no_fields = ok no_proto_fields
    json_to_proto_fields (field_then k v fs) = do
      w ← json_to_proto_value v
      gs ← json_to_proto_fields fs
      ok (proto_field_then k w gs)

  unfoldable mutual
    pub proto_value_to_json : ProtoValue N → Result (Json N)
    proto_value_to_json no_kind = throws not_serializable
    proto_value_to_json null_value = ok json_null
    proto_value_to_json (bool_value b) = ok (json_boolean b)
    proto_value_to_json (string_value s) = ok (json_string s)
    proto_value_to_json (number_value n) = ok (json_number n)
    proto_value_to_json (list_value vs) = do ws ← proto_values_to_json vs; ok (json_array ws)
    proto_value_to_json (struct_value fs) = do gs ← proto_fields_to_json fs; ok (json_object gs)

    pub proto_values_to_json : ProtoValues N → Result (JsonValues N)
    proto_values_to_json no_proto_values = ok no_values
    proto_values_to_json (proto_value_then v vs) = do
      w ← proto_value_to_json v
      ws ← proto_values_to_json vs
      ok (value_then w ws)

    pub proto_fields_to_json : ProtoFields N → Result (JsonFields N)
    proto_fields_to_json no_proto_fields = ok no_fields
    proto_fields_to_json (proto_field_then k v fs) = do
      w ← proto_value_to_json v
      gs ← proto_fields_to_json fs
      ok (field_then k w gs)

  -- Whether no object in the value has an own `constructor`.
  unfoldable mutual
    pub is_plain_json : Json N → Bool
    is_plain_json (json_array vs) = are_plain_json vs
    is_plain_json (json_object fs) = not (has_field "constructor" fs) && have_plain_json fs
    is_plain_json json_null = true
    is_plain_json (json_boolean b) = true
    is_plain_json (json_string s) = true
    is_plain_json (json_number n) = true

    pub are_plain_json : JsonValues N → Bool
    are_plain_json no_values = true
    are_plain_json (value_then v vs) = is_plain_json v && are_plain_json vs

    pub have_plain_json : JsonFields N → Bool
    have_plain_json no_fields = true
    have_plain_json (field_then k v fs) = is_plain_json v && have_plain_json fs
