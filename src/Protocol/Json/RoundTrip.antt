-- ===== src/Protocol/Json/RoundTrip.antt =====
-- What is read back of the message that jsonToProtoValue (src/main/connection/ProtocolUtil.ts) makes.
use convergence_client_javas.Base.{
  true, false, true≢false, not, both, not-true, if◌then◌else◌, inl, inr, Bool-cases, ◌≡◌, refl, ◌∙◌,
  ok, throws, not_serializable, ◌>>=◌,
}
use convergence_client_javas.Protocol.Json.{
  Json, json_null, json_boolean, json_string, json_number, json_array, json_object, JsonValues,
  no_values, value_then, JsonFields, no_fields, field_then, ProtoValue, list_value, struct_value,
  ProtoValues, proto_value_then, ProtoFields, proto_field_then, has_field, json_to_proto_value,
  json_to_proto_values, json_to_proto_fields, proto_value_to_json, proto_values_to_json,
  proto_fields_to_json, is_plain_json, are_plain_json, have_plain_json,
}

module _ {N : Type 0} where
  -- A message that was made of a value, and that is read as it.
  record Sent (v : Json N) : Type 0 where
    message : ProtoValue N
    made : json_to_proto_value v ≡ ok message
    read : proto_value_to_json message ≡ ok v

  record SentValues (vs : JsonValues N) : Type 0 where
    messages : ProtoValues N
    made : json_to_proto_values vs ≡ ok messages
    read : proto_values_to_json messages ≡ ok vs

  record SentFields (fs : JsonFields N) : Type 0 where
    messages : ProtoFields N
    made : json_to_proto_fields fs ≡ ok messages
    read : proto_fields_to_json messages ≡ ok fs

  mutual
    unfolding json_to_proto_value proto_value_to_json is_plain_json

    json_to_proto_value-Sent : (v : Json N) → is_plain_json v ≡ true → Sent v
    json_to_proto_value-Sent json_null h = record { message = _; made = refl; read = refl }
    json_to_proto_value-Sent (json_boolean b) h = record { message = _; made = refl; read = refl }
    json_to_proto_value-Sent (json_string s) h = record { message = _; made = refl; read = refl }
    json_to_proto_value-Sent (json_number n) h = record { message = _; made = refl; read = refl }
    json_to_proto_value-Sent (json_array vs) h =
        let r = json_to_proto_values-SentValues vs h in
        record { message = list_value r.messages; made = rw r.made refl; read = rw r.read refl }
    json_to_proto_value-Sent (json_object fs) h =
        let k = both (not (has_field "constructor" fs)) (have_plain_json fs) h in
        let r = json_to_proto_fields-SentFields fs k.1 in
        record {
          message = struct_value r.messages;
          made = rw (not-true _ k.0, r.made) refl;
          read = rw r.read refl;
        }

    json_to_proto_values-SentValues : (vs : JsonValues N) → are_plain_json vs ≡ true → SentValues vs
    json_to_proto_values-SentValues no_values h = record { messages = _; made = refl; read = refl }
    json_to_proto_values-SentValues (value_then v vs) h =
        let k = both (is_plain_json v) (are_plain_json vs) h in
        let r = json_to_proto_value-Sent v k.0 in
        let q = json_to_proto_values-SentValues vs k.1 in
        record {
          messages = proto_value_then r.message q.messages;
          made = rw (r.made, q.made) refl;
          read = rw (r.read, q.read) refl;
        }

    json_to_proto_fields-SentFields :
        (fs : JsonFields N) → have_plain_json fs ≡ true → SentFields fs
    json_to_proto_fields-SentFields no_fields h = record { messages = _; made = refl; read = refl }
    json_to_proto_fields-SentFields (field_then k v fs) h =
        let p = both (is_plain_json v) (have_plain_json fs) h in
        let r = json_to_proto_value-Sent v p.0 in
        let q = json_to_proto_fields-SentFields fs p.1 in
        record {
          messages = proto_field_then k r.message q.messages;
          made = rw (r.made, q.made) refl;
          read = rw (r.read, q.read) refl;
        }

  mutual
    unfolding json_to_proto_value is_plain_json

    value_refused :
        (v : Json N) → is_plain_json v ≡ false → json_to_proto_value v ≡ throws not_serializable
    value_refused json_null h = absurd (true≢false h)
    value_refused (json_boolean b) h = absurd (true≢false h)
    value_refused (json_string s) h = absurd (true≢false h)
    value_refused (json_number n) h = absurd (true≢false h)
    value_refused (json_array vs) h = rw (values_refused vs h) refl
    value_refused (json_object fs) h = elim (Bool-cases (has_field "constructor" fs)) [
      | inl e ↦ rw e refl
      | inr e ↦
          let rest : have_plain_json fs ≡ is_plain_json (json_object fs) = rw e refl in
          rw (e, fields_refused fs (rest ∙ h)) refl
    ]

    values_refused :
        (vs : JsonValues N)
        → are_plain_json vs ≡ false
        → json_to_proto_values vs ≡ throws not_serializable
    values_refused no_values h = absurd (true≢false h)
    values_refused (value_then v vs) h = elim (Bool-cases (is_plain_json v)) [
      | inl e ↦
          let rest : are_plain_json vs ≡ are_plain_json (value_then v vs) = rw e refl in
          rw ((json_to_proto_value-Sent v e).made, values_refused vs (rest ∙ h)) refl
      | inr e ↦ rw (value_refused v e) refl
    ]

    fields_refused :
        (fs : JsonFields N)
        → have_plain_json fs ≡ false
        → json_to_proto_fields fs ≡ throws not_serializable
    fields_refused no_fields h = absurd (true≢false h)
    fields_refused (field_then k v fs) h = elim (Bool-cases (is_plain_json v)) [
      | inl e ↦
          let rest : have_plain_json fs ≡ have_plain_json (field_then k v fs) = rw e refl in
          rw ((json_to_proto_value-Sent v e).made, fields_refused fs (rest ∙ h)) refl
      | inr e ↦ rw (value_refused v e) refl
    ]

  -- A JSON value, however nested, is read back from the message that stands for it, unless an object
  -- in it has an own `constructor`; then it is refused. NaN is not among the numbers.
  pub proto_value_to_json-json_to_proto_value :
      (v : Json N)
      → (json_to_proto_value v >>= proto_value_to_json)
        ≡ (if is_plain_json v then ok v else throws not_serializable)
  proto_value_to_json-json_to_proto_value v = elim (Bool-cases (is_plain_json v)) [
    | inl e ↦ let r = json_to_proto_value-Sent v e in rw (e, r.made) r.read
    | inr e ↦ rw (e, value_refused v e) refl
  ]
