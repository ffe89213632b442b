-- ===== src/DataValues/Factory.antt =====
-- The data that DataValueFactory (src/main/model/DataValueFactory.ts) makes a value of are the data
-- of the value.
use Prim.Native.String.{String}
use convergence_client_javas.Base.{
  ℕ, suc, ◌≡◌, inl, inr, refl, sym, ap, subst, ◌∙◌, true, true≢false, not, both, not-true, ok,
  ◌>>=◌,
}
use convergence_client_javas.DataValues.{
  Data, data_undefined, data_null, data_string, data_number, data_boolean, data_date, data_array,
  data_object, Elements, no_elements, element_then, Properties, no_properties, property_then,
  DataValue, null_value, array_value, object_value, DataValues, value_then, DataFields, field_then,
  Options, Builtins, number_value, has_own_property, create_data_value, create_elements,
  create_properties, plain, plain_elements, plain_properties,
}
use convergence_client_javas.DataValues.Supported.{
  cleaned, cleaned_elements, cleaned_properties, is_defined, defined_cases, cleaned_defined_element,
  cleaned_defined_property, has_ordinary_keys, is_supported, are_supported, have_supported,
}

-- The options under which nothing is refused.
abbrev pub lenient : Options
lenient = record { omit_in_objects = true; null_in_arrays = true }

module _ {N : Type 0} (builtins : Builtins N) (ids : ℕ → String) where
  create_defined_element :
      (e : Data N) (es : Elements N) (n : ℕ)
      → is_defined e ≡ true
      → create_elements builtins ids lenient (element_then e es) n ≡ (
          create_data_value builtins ids lenient e n >>= (λ v.
            create_elements builtins ids lenient es v.1 >>= (λ r. ok (value_then v.0 r.0, r.1))))
  unfolding create_data_value is_defined
  create_defined_element data_undefined es n h = absurd (true≢false (sym h))
  create_defined_element data_null es n h = refl
  create_defined_element (data_string s) es n h = refl
  create_defined_element (data_number x) es n h = refl
  create_defined_element (data_boolean b) es n h = refl
  create_defined_element (data_date t) es n h = refl
  create_defined_element (data_array fs) es n h = refl
  create_defined_element (data_object ps) es n h = refl

  create_defined_property :
      (k : String) (e : Data N) (ps : Properties N) (n : ℕ)
      → is_defined e ≡ true
      → create_properties builtins ids lenient (property_then k e ps) n ≡ (
          create_data_value builtins ids lenient e n >>= (λ v.
            create_properties builtins ids lenient ps v.1
            >>= (λ r. ok (field_then k v.0 r.0, r.1))))
  unfolding create_data_value is_defined
  create_defined_property k data_undefined ps n h = absurd (true≢false (sym h))
  create_defined_property k data_null ps n h = refl
  create_defined_property k (data_string s) ps n h = refl
  create_defined_property k (data_number x) ps n h = refl
  create_defined_property k (data_boolean b) ps n h = refl
  create_defined_property k (data_date t) ps n h = refl
  create_defined_property k (data_array es) ps n h = refl
  create_defined_property k (data_object qs) ps n h = refl

  -- A call that returned a value with the data that were asked for.
  pub record Made (d : Data N) (n : ℕ) : Type 0 where
    pub value : DataValue N
    pub next : ℕ
    pub created : create_data_value builtins ids lenient d n ≡ ok (value, next)
    pub back : plain value ≡ cleaned d

  record MadeElements (es : Elements N) (n : ℕ) : Type 0 where
    pub values : DataValues N
    pub next : ℕ
    pub created : create_elements builtins ids lenient es n ≡ ok (values, next)
    pub back : plain_elements values ≡ cleaned_elements es

  record MadeProperties (ps : Properties N) (n : ℕ) : Type 0 where
    pub fields : DataFields N
    pub next : ℕ
    pub created : create_properties builtins ids lenient ps n ≡ ok (fields, next)
    pub back : plain_properties fields ≡ cleaned_properties ps

  create_ordinary :
      (ps : Properties N) (n : ℕ)
      → has_ordinary_keys ps ≡ true
      → create_data_value builtins ids lenient (data_object ps) n ≡ (
          create_properties builtins ids lenient ps (suc n)
          >>= (λ r. ok (object_value (ids n) r.0, r.1)))
  unfolding has_ordinary_keys create_data_value
  create_ordinary ps n h =
      let a = both (not (has_own_property "constructor" ps)) _ h in
      let b = both (not (has_own_property "hasOwnProperty" ps)) _ a.1 in
      rw (not-true _ a.0, not-true _ b.0, not-true _ b.1) refl

  mutual
    unfolding create_data_value plain cleaned is_defined is_supported

    made : (d : Data N) (n : ℕ) → is_defined d ≡ true → is_supported builtins d ≡ true → Made d n
    made data_undefined n h g = absurd (true≢false (sym h))
    made data_null n h g = record { value = _; next = _; created = refl; back = refl }
    made (data_string s) n h g = record { value = _; next = _; created = refl; back = refl }
    made (data_number x) n h g = record {
      value = number_value (ids n) x;
      next = suc n;
      created = rw g refl;
      back = refl;
    }
    made (data_boolean b) n h g = record { value = _; next = _; created = refl; back = refl }
    made (data_date t) n h g = record { value = _; next = _; created = refl; back = refl }
    made (data_array es) n h g =
        let r = made_elements es (suc n) g in
        record {
          value = array_value (ids n) r.values;
          next = r.next;
          created = rw r.created refl;
          back = ap data_array r.back;
        }
    made (data_object ps) n h g =
        let k = both (has_ordinary_keys ps) (have_supported builtins ps) g in
        let r = made_properties ps (suc n) k.1 in
        record {
          value = object_value (ids n) r.fields;
          next = r.next;
          created = create_ordinary ps n k.0 ∙ rw r.created refl;
          back = ap data_object r.back;
        }

    made_elements : (es : Elements N) (n : ℕ) → are_supported builtins es ≡ true → MadeElements es n
    made_elements no_elements n g = record { values = _; next = _; created = refl; back = refl }
    made_elements (element_then e es) n g = elim (defined_cases e) [
      | inl u ↦
          let r = made_elements es (suc n) (both (is_supported builtins e) _ g).1 in
          subst (λ z. MadeElements (element_then z es) n) u
            (record {
              values = value_then (null_value (ids n)) r.values;
              next = r.next;
              created = rw r.created refl;
              back = ap (element_then data_null) r.back;
            })
      | inr h ↦
          let k = both (is_supported builtins e) (are_supported builtins es) g in
          let v = made e n h k.0 in
          let r = made_elements es v.next k.1 in
          record {
            values = value_then v.value r.values;
            next = r.next;
            created = create_defined_element e es n h ∙ rw (v.created, r.created) refl;
            back = (λ i. element_then (v.back i) (r.back i)) ∙ sym (cleaned_defined_element e es h);
          }
    ]

    made_properties :
        (ps : Properties N) (n : ℕ) → have_supported builtins ps ≡ true → MadeProperties ps n
    made_properties no_properties n g = record { fields = _; next = _; created = refl; back = refl }
    made_properties (property_then k e ps) n g = elim (defined_cases e) [
      | inl u ↦
          let r = made_properties ps n (both (is_supported builtins e) _ g).1 in
          subst (λ z. MadeProperties (property_then k z ps) n) u
            (record {
              fields = r.fields;
              next = r.next;
              created = rw r.created refl;
              back = r.back;
            })
      | inr h ↦
          let q = both (is_supported builtins e) (have_supported builtins ps) g in
          let v = made e n h q.0 in
          let r = made_properties ps v.next q.1 in
          record {
            fields = field_then k v.value r.fields;
            next = r.next;
            created = create_defined_property k e ps n h ∙ rw (v.created, r.created) refl;
            back =
                (λ i. property_then k (v.back i) (r.back i))
                ∙ sym (cleaned_defined_property k e ps h);
          }
    ]

  -- When undefined values are omitted from objects and null in arrays, data that are defined, whose
  -- numbers are finite, and whose objects have no own `constructor`, `hasOwnProperty` or
  -- `$convergenceType`, are made a value. The data of the value are those that were asked for, with
  -- null for each undefined value of an array and without the undefined values of an object.
  pub create_data_value-Made :
      (d : Data N) (n : ℕ) → is_defined d ≡ true → is_supported builtins d ≡ true → Made d n
  create_data_value-Made d n h g = made d n h g
