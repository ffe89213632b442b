-- ===== src/DataValues/Supported.antt =====
-- Which data DataValueFactory (src/main/model/DataValueFactory.ts) takes, and what becomes of undefined
-- values in them.
use Prim.Native.String.{String}
use convergence_client_javas.Base.{
  ◌≡◌, ◌⊎◌, inl, inr, refl, sym, Bool, true, false, true≢false, not, ◌&&◌,
}
use convergence_client_javas.DataValues.{
  Data, data_undefined, data_null, data_string, data_number, data_boolean, data_date, data_array,
  data_object, Elements, no_elements, element_then, Properties, no_properties, property_then,
  Builtins, has_own_property,
}

-- What becomes of data with undefined values in them: null in an array, nothing in an object.
module _ {N : Type 0} where
  unfoldable mutual
    pub cleaned : Data N → Data N
    cleaned (data_array es) = data_array (cleaned_elements es)
    cleaned (data_object ps) = data_object (cleaned_properties ps)
    cleaned data_undefined = data_undefined
    cleaned data_null = data_null
    cleaned (data_string s) = data_string s
    cleaned (data_number x) = data_number x
    cleaned (data_boolean b) = data_boolean b
    cleaned (data_date t) = data_date t

    pub cleaned_elements : Elements N → Elements N
    cleaned_elements no_elements = no_elements
    cleaned_elements (element_then data_undefined es) = element_then data_null (cleaned_elements es)
    cleaned_elements (element_then e es) = element_then (cleaned e) (cleaned_elements es)

    pub cleaned_properties : Properties N → Properties N
    cleaned_properties no_properties = no_properties
    cleaned_properties (property_then k data_undefined ps) = cleaned_properties ps
    cleaned_properties (property_then k e ps) = property_then k (cleaned e) (cleaned_properties ps)

  unfoldable pub is_defined : Data N → Bool
  is_defined data_undefined = false
  is_defined _ = true

  pub defined_cases : (e : Data N) → (data_undefined ≡ e) ⊎ (is_defined e ≡ true)
  unfolding is_defined
  defined_cases data_undefined = inl refl
  defined_cases data_null = inr refl
  defined_cases (data_string s) = inr refl
  defined_cases (data_number x) = inr refl
  defined_cases (data_boolean b) = inr refl
  defined_cases (data_date t) = inr refl
  defined_cases (data_array es) = inr refl
  defined_cases (data_object ps) = inr refl

  pub cleaned_defined_element :
      (e : Data N) (es : Elements N)
      → is_defined e ≡ true
      → cleaned_elements (element_then e es) ≡ element_then (cleaned e) (cleaned_elements es)
  unfolding cleaned is_defined
  cleaned_defined_element data_undefined es h = absurd (true≢false (sym h))
  cleaned_defined_element data_null es h = refl
  cleaned_defined_element (data_string s) es h = refl
  cleaned_defined_element (data_number x) es h = refl
  cleaned_defined_element (data_boolean b) es h = refl
  cleaned_defined_element (data_date t) es h = refl
  cleaned_defined_element (data_array fs) es h = refl
  cleaned_defined_element (data_object ps) es h = refl

  pub cleaned_defined_property :
      (k : String) (e : Data N) (ps : Properties N)
      → is_defined e ≡ true
      → cleaned_properties (property_then k e ps)
        ≡ property_then k (cleaned e) (cleaned_properties ps)
  unfolding cleaned is_defined
  cleaned_defined_property k data_undefined ps h = absurd (true≢false (sym h))
  cleaned_defined_property k data_null ps h = refl
  cleaned_defined_property k (data_string s) ps h = refl
  cleaned_defined_property k (data_number x) ps h = refl
  cleaned_defined_property k (data_boolean b) ps h = refl
  cleaned_defined_property k (data_date t) ps h = refl
  cleaned_defined_property k (data_array es) ps h = refl
  cleaned_defined_property k (data_object qs) ps h = refl

-- The data that the factory takes: finite numbers, and objects with no own `constructor`,
-- `hasOwnProperty` or `$convergenceType`.
unfoldable pub has_ordinary_keys : {N : Type 0} → Properties N → Bool
has_ordinary_keys ps =
    not (has_own_property "constructor" ps)
    && (not (has_own_property "hasOwnProperty" ps) && not (has_own_property "$convergenceType" ps))

module _ {N : Type 0} (builtins : Builtins N) where
  unfoldable mutual
    pub is_supported : Data N → Bool
    is_supported (data_number x) = builtins.is_finite x
    is_supported (data_array es) = are_supported es
    is_supported (data_object ps) = has_ordinary_keys ps && have_supported ps
    is_supported data_undefined = true
    is_supported data_null = true
    is_supported (data_string s) = true
    is_supported (data_boolean b) = true
    is_supported (data_date t) = true

    pub are_supported : Elements N → Bool
    are_supported no_elements = true
    are_supported (element_then e es) = is_supported e && are_supported es

    pub have_supported : Properties N → Bool
    have_supported no_properties = true
    have_supported (property_then k e ps) = is_supported e && have_supported ps
