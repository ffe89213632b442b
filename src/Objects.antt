-- ===== src/Objects.antt =====
-- Objects: the operations ObjectAddProperty, ObjectSetProperty, ObjectRemoveProperty and ObjectSet
-- (src/main/model/ot/ops) and what ObjectNode (src/main/model/internal/ObjectNode.ts) does with
-- them.
--
-- The children of an object are the values by their keys: the order in which a Map lists its keys is
-- forgotten, since it is not the same at two sites. The values of an ObjectSet stay a list.
pub mod Transform
pub mod Convergence
pub mod Local
pub mod Tests
use Prim.Native.String.{String}
use text.Mathlib.Text.{◌==◌ as same_string}
use convergence_client_javas.Base.{
  Bool, true, false, not, Option, none, some, List, [], ◌∷◌, if◌then◌else◌, Result, ok, throws,
  not_allowed,
}
use convergence_client_javas.Nodes.{NodeKind}

pub record ObjectAddPropertyOperation (V : Type 0) : Type 0 where
  pub id : String
  pub no_op : Bool
  pub prop : String
  pub value : V

pub record ObjectSetPropertyOperation (V : Type 0) : Type 0 where
  pub id : String
  pub no_op : Bool
  pub prop : String
  pub value : V

pub record ObjectRemovePropertyOperation : Type 0 where
  pub id : String
  pub no_op : Bool
  pub prop : String

pub record ObjectSetOperation (V : Type 0) : Type 0 where
  pub id : String
  pub no_op : Bool
  pub value : List (String × V)

pub data ObjectOperation (V : Type 0) : Type 0 where
  object_add : ObjectAddPropertyOperation V → ObjectOperation V
  object_set : ObjectSetPropertyOperation V → ObjectOperation V
  object_remove : ObjectRemovePropertyOperation → ObjectOperation V
  object_value : ObjectSetOperation V → ObjectOperation V

-- `_children`.
abbrev pub Children : Type 0 → Type 0
Children V = String → Option V

module _ {V : Type 0} where
  unfoldable pub is_no_op : ObjectOperation V → Bool
  is_no_op (object_add o) = o.no_op
  is_no_op (object_set o) = o.no_op
  is_no_op (object_remove o) = o.no_op
  is_no_op (object_value o) = o.no_op

  unfoldable pub object_operation_id : ObjectOperation V → String
  object_operation_id (object_add o) = o.id
  object_operation_id (object_set o) = o.id
  object_operation_id (object_remove o) = o.id
  object_operation_id (object_value o) = o.id

  unfoldable pub is_present : Option V → Bool
  is_present none = false
  is_present (some v) = true

  -- `_children.has(key)`.
  unfoldable pub has_key : String → Children V → Bool
  has_key key children = is_present (children key)

  unfoldable pub apply_set : String → V → Children V → Children V
  apply_set key value children = λ k. if same_string key k then some value else children k

  unfoldable pub apply_remove : String → Children V → Children V
  apply_remove key children =
      if has_key key children
      then (λ k. if same_string key k then none else children k)
      else children

  -- The loop over the properties of the values.
  unfoldable pub set_all : List (String × V) → Children V → Children V
  set_all [] children = children
  set_all (entry ∷ entries) children = set_all entries (apply_set entry.0 entry.1 children)

  unfoldable pub apply_set_value : List (String × V) → Children V
  apply_set_value values = set_all values (λ k. none)

  unfoldable pub handle_model_operation_event : ObjectOperation V → Children V → Children V
  handle_model_operation_event (object_add o) children = apply_set o.prop o.value children
  handle_model_operation_event (object_set o) children = apply_set o.prop o.value children
  handle_model_operation_event (object_remove o) children = apply_remove o.prop children
  handle_model_operation_event (object_value o) children = apply_set_value o.value

  -- The operations that may be issued on an object: RealTimeObject.set adds a key that the object
  -- does not have and sets one that it has, and ObjectNode.remove issues nothing for a key that the
  -- object does not have.
  unfoldable pub allowed : ObjectOperation V → Children V → Bool
  allowed (object_add o) children = not (has_key o.prop children)
  allowed (object_set o) children = has_key o.prop children
  allowed (object_remove o) children = has_key o.prop children
  allowed (object_value o) children = true

  -- The node, where an operation that may not be issued on it is refused.
  unfoldable pub handle_allowed : ObjectOperation V → Children V → Result (Children V)
  handle_allowed o children =
      if allowed o children
      then ok (handle_model_operation_event o children)
      else throws not_allowed

  abbrev pub object_kind : NodeKind (ObjectOperation V) (Children V)
  object_kind = record {
    operation_id = object_operation_id;
    is_no_op = is_no_op;
    handle = handle_allowed;
    tolerant = false;
  }
