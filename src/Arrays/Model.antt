-- ===== src/Arrays/Model.antt =====
-- Models of arrays: the nodes of Nodes with ArrayNode (src/main/model/internal/ArrayNode.ts) as
-- their kind and the registry's functions for arrays
-- (src/main/model/ot/xform/TransformationFunctionRegistry.ts).
pub mod Meets
use convergence_client_javas.Base.{some, List, true, Result, ok}
use convergence_client_javas.Transformer.{Registry}
use convergence_client_javas.Nodes.{NodeKind, Nodes, apply_to_nodes, node_registry}
use convergence_client_javas.Nodes.Pairs.{Functions}
use convergence_client_javas.Arrays.{
  DeepEquals, ArrayOperation, is_no_op, handle_model_operation_event,
}
use convergence_client_javas.Arrays.Transform.Ids.{array_operation_id}
use convergence_client_javas.Arrays.Transform.Otf.{array_otf}

module _ {V : Type 0} where
  abbrev pub array_kind : NodeKind (ArrayOperation V) (List V)
  array_kind = record {
    operation_id = array_operation_id;
    is_no_op = is_no_op;
    handle = handle_model_operation_event;
    tolerant = true;
  }

  abbrev pub apply_to_model : ArrayOperation V → Nodes (List V) → Result (Nodes (List V))
  apply_to_model = apply_to_nodes array_kind

  -- Every pair of array operations has a function, and none of the functions throws.
  abbrev pub array_functions : DeepEquals V → DeepEquals (List V) → Functions (ArrayOperation V)
  array_functions d ds s c = some (λ s c. ok (array_otf d ds s c))

  abbrev pub array_registry : DeepEquals V → DeepEquals (List V) → Registry (ArrayOperation V)
  array_registry d ds = node_registry array_kind (array_functions d ds)
