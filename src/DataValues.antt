-- ===== src/DataValues.antt =====
-- The values that a model is made of (src/main/model/dataValue.ts), each with the id of its node; and
-- DataValueFactory (src/main/model/DataValueFactory.ts), which makes them of plain data.
--
-- Plain data are undefined, null, strings, numbers, booleans, valid dates, arrays, and objects that are
-- literals; their keys do not repeat. The numbers are a parameter, with `isFinite`; a date is its time,
-- and what `new Date` makes of data is a parameter. Not among them: functions and instances of classes,
-- which are refused, an own key `__proto__`, and an own `constructor` with the name "Date", which the
-- factory takes for a date. The id generator gives ids one by one: `ids n` is the n-th.
pub mod Supported
pub mod Factory
pub mod Wire
pub mod Tests
use Prim.Native.String.{String}
use text.Mathlib.Text.{◌==◌ as same_string}
use convergence_client_javas.Base.{
  ℕ, suc, Bool, true, false, not, ◌&&◌, ◌||◌, Option, none, some, if◌then◌else◌, Result, ok, throws,
  undefined_value, unsupported_type, not_a_function, invalid_convergence_type, ◌>>=◌,
}
use convergence_client_javas.Base.Integers.{ℤ}

mutual
  pub data Data (N : Type 0) : Type 0 where
    data_undefined : Data N
    data_null : Data N
    data_string : String → Data N
    data_number : N → Data N
    data_boolean : Bool → Data N
    data_date : ℤ → Data N
    data_array : Elements N → Data N
    data_object : Properties N → Data N

  pub data Elements (N : Type 0) : Type 0 where
    no_elements : Elements N
    element_then : Data N → Elements N → Elements N

  pub data Properties (N : Type 0) : Type 0 where
    no_properties : Properties N
    property_then : String → Data N → Properties N → Properties N

mutual
  pub data DataValue (N : Type 0) : Type 0 where
    null_value : String → DataValue N
    string_value : String → String → DataValue N
    number_value : String → N → DataValue N
    boolean_value : String → Bool → DataValue N
    date_value : String → ℤ → DataValue N
    array_value : String → DataValues N → DataValue N
    object_value : String → DataFields N → DataValue N

  pub data DataValues (N : Type 0) : Type 0 where
    no_values : DataValues N
    value_then : DataValue N → DataValues N → DataValues N

  pub data DataFields (N : Type 0) : Type 0 where
    no_fields : DataFields N
    field_then : String → DataValue N → DataFields N → DataFields N

-- `_undefinedObjectValues` is "omit" and `_undefinedArrayValues` is "null".
pub record Options : Type 0 where
  pub omit_in_objects : Bool
  pub null_in_arrays : Bool

module _ {N : Type 0} where
  unfoldable pub has_own_property : String → Properties N → Bool
  has_own_property key no_properties = false
  has_own_property key (property_then k e ps) = same_string key k || has_own_property key ps

  unfoldable pub own_property : String → Properties N → Option (Data N)
  own_property key no_properties = none
  own_property key (property_then k e ps) =
      let rest = own_property key ps in if same_string key k then some e else rest

  unfoldable pub is_date_type : Option (Data N) → Bool
  is_date_type (some (data_string s)) = same_string s "date"
  is_date_type _ = false

-- What the factory uses of JavaScript's numbers and dates.
pub record Builtins (N : Type 0) : Type 0 where
  pub is_finite : N → Bool
  pub new_date : Data N → ℤ

module _ {N : Type 0} (builtins : Builtins N) (ids : ℕ → String) (options : Options) where
  unfoldable pub date_of_value : Option (Data N) → ℕ → Result (DataValue N × ℕ)
  date_of_value none n = throws invalid_convergence_type
  date_of_value (some value) n = ok (date_value (ids n) (builtins.new_date value), suc n)

  -- An object with a $convergenceType.
  unfoldable pub create_typed_value : Properties N → ℕ → Result (DataValue N × ℕ)
  create_typed_value ps n =
      if is_date_type (own_property "$convergenceType" ps)
      then date_of_value (own_property "value" ps) n
      else throws invalid_convergence_type

  -- With the number of ids drawn before, and after.
  unfoldable mutual
    pub create_data_value : Data N → ℕ → Result (DataValue N × ℕ)
    create_data_value data_undefined n = throws undefined_value
    create_data_value data_null n = ok (null_value (ids n), suc n)
    create_data_value (data_string s) n = ok (string_value (ids n) s, suc n)
    create_data_value (data_number x) n =
        if builtins.is_finite x then ok (number_value (ids n) x, suc n) else throws unsupported_type
    create_data_value (data_boolean b) n = ok (boolean_value (ids n) b, suc n)
    create_data_value (data_date t) n = ok (date_value (ids n) t, suc n)
    create_data_value (data_array es) n = do
      r ← create_elements es (suc n)
      ok (array_value (ids n) r.0, r.1)
    create_data_value (data_object ps) n =
        let rest = create_properties ps (suc n) in
        if has_own_property "constructor" ps
        then throws unsupported_type
        else if has_own_property "hasOwnProperty" ps
        then throws not_a_function
        else if has_own_property "$convergenceType" ps
        then create_typed_value ps n
        else rest >>= (λ r. ok (object_value (ids n) r.0, r.1))

    pub create_elements : Elements N → ℕ → Result (DataValues N × ℕ)
    create_elements no_elements n = ok (no_values, n)
    create_elements (element_then data_undefined es) n =
        let rest = create_elements es (suc n) in
        if options.null_in_arrays
        then rest >>= (λ r. ok (value_then (null_value (ids n)) r.0, r.1))
        else throws undefined_value
    create_elements (element_then e es) n = do
      v ← create_data_value e n
      r ← create_elements es v.1
      ok (value_then v.0 r.0, r.1)

    pub create_properties : Properties N → ℕ → Result (DataFields N × ℕ)
    create_properties no_properties n = ok (no_fields, n)
    create_properties (property_then k data_undefined ps) n =
        let rest = create_properties ps n in
        if options.omit_in_objects then rest else throws undefined_value
    create_properties (property_then k e ps) n = do
      v ← create_data_value e n
      r ← create_properties ps v.1
      ok (field_then k v.0 r.0, r.1)

module _ {N : Type 0} where
  -- The plain data of a value, as `data()` of its node gives them.
  unfoldable mutual
    pub plain : DataValue N → Data N
    plain (null_value id) = data_null
    plain (string_value id s) = data_string s
    plain (number_value id x) = data_number x
    plain (boolean_value id b) = data_boolean b
    plain (date_value id t) = data_date t
    plain (array_value id vs) = data_array (plain_elements vs)
    plain (object_value id fs) = data_object (plain_properties fs)

    pub plain_elements : DataValues N → Elements N
    plain_elements no_values = no_elements
    plain_elements (value_then v vs) = element_then (plain v) (plain_elements vs)

    pub plain_properties : DataFields N → Properties N
    plain_properties no_fields = no_properties
    plain_properties (field_then k v fs) = property_then k (plain v) (plain_properties fs)
