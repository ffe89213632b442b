-- ===== src/Models.antt =====
-- A whole model: nodes of every type in one model (src/main/model/internal/Model.ts), each with
-- what the registry has for its type (src/main/model/ot/xform/TransformationFunctionRegistry.ts).
--
-- The nodes are those the model has: operations for a node that is not there are refused. The edits
-- of strings are plain ones, and an operation on an object is one that may be issued on it.
pub mod Sessions
pub mod Tests
use convergence_client_javas.Base.{Bool, List, Option, Result, ◌⊎◌}
use convergence_client_javas.Transformer.{Registry}
use convergence_client_javas.Nodes.{NodeKind, Nodes, apply_to_nodes, node_registry}
use convergence_client_javas.Nodes.Pairs.{Functions, FunctionsMeet}
use convergence_client_javas.Nodes.Sums.{sum_kind, sum_functions, sum-FunctionsMeet}
use convergence_client_javas.Arrays.{DeepEquals, ArrayOperation}
use convergence_client_javas.Arrays.Model.{array_kind, array_functions}
use convergence_client_javas.Arrays.Model.Meets.{array_functions-Meet}
use convergence_client_javas.Strings.{Text, StringOperation}
use convergence_client_javas.Strings.Plain.{string_kind, string_functions}
use convergence_client_javas.Strings.Plain.Meets.{string_functions-Meet}
use convergence_client_javas.Objects.{ObjectOperation, Children, object_kind}
use convergence_client_javas.Objects.Transform.{StrictEquals, PropertiesEqual, object_functions}
use convergence_client_javas.Objects.Convergence.Meets.{object_functions-Meet}
use convergence_client_javas.Values.{
  Numbers, AdditionsSwap, NumberOperation, number_kind, number_functions, BooleanSetOperation,
  boolean_kind, boolean_functions, DateSetOperation, Times, date_kind, date_functions,
}
use convergence_client_javas.Values.Convergence.{
  number_functions-Meet, boolean_functions-Meet, date_functions-Meet,
}

-- What the model takes from elsewhere: the comparisons of values, the numbers and the times.
pub record Platform (V N T : Type 0) : Type 0 where
  pub deep_equals : DeepEquals V
  pub deep_equals_arrays : DeepEquals (List V)
  pub strict_equals : StrictEquals V
  pub deep_equals_properties : PropertiesEqual V
  pub numbers : Numbers N
  pub times : Times T

module _ (V N T : Type 0) where
  -- The operations for the types of nodes.
  abbrev pub ModelOperation : Type 0
  ModelOperation =
      ArrayOperation V
      ⊎ (ObjectOperation V
          ⊎ (StringOperation ⊎ (NumberOperation N ⊎ (BooleanSetOperation ⊎ DateSetOperation T))))

  abbrev pub ModelNode : Type 0
  ModelNode = List V ⊎ (Children V ⊎ (Text ⊎ (N ⊎ (Bool ⊎ T))))

module _ {V N T : Type 0} (platform : Platform V N T) where
  open platform use {
    deep_equals, deep_equals_arrays, strict_equals, deep_equals_properties, numbers, times,
  }

  abbrev pub model_kind : NodeKind (ModelOperation V N T) (ModelNode V N T)
  model_kind = sum_kind array_kind (
      sum_kind object_kind
        (sum_kind string_kind (sum_kind (number_kind numbers) (sum_kind boolean_kind date_kind))))

  abbrev pub model_functions : Functions (ModelOperation V N T)
  model_functions = sum_functions (array_functions deep_equals deep_equals_arrays) (
      sum_functions (object_functions strict_equals deep_equals_properties) (
        sum_functions string_functions (
          sum_functions (number_functions numbers)
            (sum_functions boolean_functions (date_functions times)))))

  abbrev pub model_registry : Registry (ModelOperation V N T)
  model_registry = node_registry model_kind model_functions

  abbrev pub apply_to_any :
      ModelOperation V N T → Nodes (ModelNode V N T) → Result (Nodes (ModelNode V N T))
  apply_to_any = apply_to_nodes model_kind

  pub model_functions-Meet :
      AdditionsSwap platform.numbers → FunctionsMeet model_kind model_functions
  model_functions-Meet additions_swap =
      sum-FunctionsMeet _ _ _ _ (array_functions-Meet deep_equals deep_equals_arrays) (
        sum-FunctionsMeet _ _ _ _ (object_functions-Meet strict_equals deep_equals_properties) (
          sum-FunctionsMeet _ _ _ _ string_functions-Meet (
            sum-FunctionsMeet _ _ _ _ (number_functions-Meet numbers additions_swap)
              (sum-FunctionsMeet _ _ _ _ boolean_functions-Meet (date_functions-Meet times)))))
