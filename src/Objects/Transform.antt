-- ===== src/Objects/Transform.antt =====
-- The transformation functions of objects (src/main/model/ot/xform/object) and what
-- TransformationFunctionRegistry.ts registers for them.
use Prim.Native.String.{String}
use text.Mathlib.Text.{◌==◌ as same_string}
use convergence_client_javas.Base.{
  ◌≡◌, Bool, true, not, some, List, if◌then◌else◌, Result, ok, throws, same_property,
}
use convergence_client_javas.Operations.{OperationPair, pair}
use convergence_client_javas.Transformer.{Registry}
use convergence_client_javas.Nodes.{node_registry}
use convergence_client_javas.Nodes.Pairs.{Functions}
use convergence_client_javas.Objects.{
  ObjectAddPropertyOperation, ObjectSetPropertyOperation, ObjectRemovePropertyOperation,
  ObjectSetOperation, ObjectOperation, object_add, object_set, object_remove, object_value,
  apply_set_value, object_kind,
}

-- `===` on two values: on objects, whether they are one object. What is read of it is that it holds
-- of equal values only.
pub record StrictEquals (V : Type 0) : Type 0 where
  pub strict_equals : V → V → Bool
  pub strict_equals-eq : (v w : V) → strict_equals v w ≡ true → v ≡ w

-- EqualsUtil.deepEquals on the values of two ObjectSets: it may forget the order of the keys, and
-- holds only of values with the same properties.
pub record PropertiesEqual (V : Type 0) : Type 0 where
  pub deep_equals : List (String × V) → List (String × V) → Bool
  pub deep_equals-eq :
      (x y : List (String × V)) → deep_equals x y ≡ true → apply_set_value x ≡ apply_set_value y

module _ {V : Type 0} where
  abbrev pub silent_add : ObjectAddPropertyOperation V → ObjectOperation V
  silent_add o = object_add (record o { no_op = true })

  abbrev pub silent_set : ObjectSetPropertyOperation V → ObjectOperation V
  silent_set o = object_set (record o { no_op = true })

  abbrev pub silent_remove : ObjectRemovePropertyOperation → ObjectOperation V
  silent_remove o = object_remove (record o { no_op = true })

  abbrev pub silent_value : ObjectSetOperation V → ObjectOperation V
  silent_value o = object_value (record o { no_op = true })

  unfoldable pub remove_property_remove_property :
      ObjectRemovePropertyOperation
      → ObjectRemovePropertyOperation
      → Result (OperationPair (ObjectOperation V))
  remove_property_remove_property s c =
      if not (same_string s.prop c.prop)
      then ok (pair (object_remove s) (object_remove c))
      else ok (pair (silent_remove s) (silent_remove c))

  unfoldable pub remove_property_set_property :
      ObjectRemovePropertyOperation
      → ObjectSetPropertyOperation V
      → Result (OperationPair (ObjectOperation V))
  remove_property_set_property s c =
      if not (same_string s.prop c.prop)
      then ok (pair (object_remove s) (object_set c))
      else ok (
          pair (silent_remove s)
            (object_add (record { id = c.id; no_op = c.no_op; prop = c.prop; value = c.value })))

  unfoldable pub set_property_remove_property :
      ObjectSetPropertyOperation V
      → ObjectRemovePropertyOperation
      → Result (OperationPair (ObjectOperation V))
  set_property_remove_property s c =
      if not (same_string s.prop c.prop)
      then ok (pair (object_set s) (object_remove c))
      else ok (
          pair (object_add (record { id = s.id; no_op = s.no_op; prop = s.prop; value = s.value }))
            (silent_remove c))

  -- The four functions that throw at one property: an add against a set or a remove.
  unfoldable pub unless_same_property :
      String
      → String
      → OperationPair (ObjectOperation V)
      → Result (OperationPair (ObjectOperation V))
  unless_same_property p q operations =
      if not (same_string p q) then ok operations else throws same_property

module _ {V : Type 0} (e : StrictEquals V) where
  unfoldable pub add_property_add_property :
      ObjectAddPropertyOperation V
      → ObjectAddPropertyOperation V
      → Result (OperationPair (ObjectOperation V))
  add_property_add_property s c =
      if not (same_string s.prop c.prop)
      then ok (pair (object_add s) (object_add c))
      else if not (e.strict_equals s.value c.value)
      then ok (
          pair (object_set (record { id = s.id; no_op = s.no_op; prop = s.prop; value = s.value }))
            (silent_add c))
      else ok (pair (silent_add s) (silent_add c))

  unfoldable pub set_property_set_property :
      ObjectSetPropertyOperation V
      → ObjectSetPropertyOperation V
      → Result (OperationPair (ObjectOperation V))
  set_property_set_property s c =
      if not (same_string s.prop c.prop)
      then ok (pair (object_set s) (object_set c))
      else if not (e.strict_equals s.value c.value)
      then ok (pair (object_set s) (silent_set c))
      else ok (pair (silent_set s) (silent_set c))

module _ {V : Type 0} (d : PropertiesEqual V) where
  unfoldable pub object_set_set :
      ObjectSetOperation V → ObjectSetOperation V → Result (OperationPair (ObjectOperation V))
  object_set_set s c =
      if not (d.deep_equals s.value c.value)
      then ok (pair (object_value s) (silent_value c))
      else ok (pair (silent_value s) (silent_value c))

module _ {V : Type 0} (e : StrictEquals V) (d : PropertiesEqual V) where
  -- The function that is registered for two types.
  unfoldable pub object_otf :
      ObjectOperation V → ObjectOperation V → Result (OperationPair (ObjectOperation V))
  object_otf (object_add s) (object_add c) = add_property_add_property e s c
  object_otf (object_add s) (object_set c) =
      unless_same_property s.prop c.prop (pair (object_add s) (object_set c))
  object_otf (object_add s) (object_remove c) =
      unless_same_property s.prop c.prop (pair (object_add s) (object_remove c))
  object_otf (object_add s) (object_value c) = ok (pair (silent_add s) (object_value c))
  object_otf (object_set s) (object_add c) =
      unless_same_property s.prop c.prop (pair (object_set s) (object_add c))
  object_otf (object_set s) (object_set c) = set_property_set_property e s c
  object_otf (object_set s) (object_remove c) = set_property_remove_property s c
  object_otf (object_set s) (object_value c) = ok (pair (silent_set s) (object_value c))
  object_otf (object_remove s) (object_add c) =
      unless_same_property s.prop c.prop (pair (object_remove s) (object_add c))
  object_otf (object_remove s) (object_set c) = remove_property_set_property s c
  object_otf (object_remove s) (object_remove c) = remove_property_remove_property s c
  object_otf (object_remove s) (object_value c) = ok (pair (silent_remove s) (object_value c))
  object_otf (object_value s) (object_add c) = ok (pair (object_value s) (silent_add c))
  object_otf (object_value s) (object_set c) = ok (pair (object_value s) (silent_set c))
  object_otf (object_value s) (object_remove c) = ok (pair (object_value s) (silent_remove c))
  object_otf (object_value s) (object_value c) = object_set_set d s c

  abbrev pub object_functions : Functions (ObjectOperation V)
  object_functions s c = some object_otf

  abbrev pub object_registry : Registry (ObjectOperation V)
  object_registry = node_registry object_kind object_functions
