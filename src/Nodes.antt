-- ===== src/Nodes.antt =====
-- The nodes of a model by their ids: Model.handleModelOperationEvent
-- (src/main/model/internal/Model.ts) finds the node of an operation, and
-- RealTimeModel._applyDiscreteOperation (src/main/model/rt/RealTimeModel.ts) leaves a no-op out.
--
-- The kind of the nodes is an interface. The children that a value brings are part of the value, not
-- nodes of their own.
pub mod Delivery
pub mod Pairs
pub mod Sites
pub mod Meets
pub mod Sums
use Prim.Native.String.{String}
use text.Mathlib.Text.{◌==◌ as same_string}
use convergence_client_javas.Base.{
  Bool, Option, none, some, if◌then◌else◌, Result, ok, throws, no_node, ◌>>=◌,
}
use convergence_client_javas.Operations.{OperationPair}
use convergence_client_javas.Transformer.{Registry}

-- A kind of nodes: what is read of an operation, `_handleModelOperationEvent` of the node, and
-- whether an operation for a node that is not there is left out, as the source does, or refused.
pub record NodeKind (D N : Type 0) : Type 0 where
  pub operation_id : D → String
  pub is_no_op : D → Bool
  pub handle : D → N → Result N
  pub tolerant : Bool

-- `_idToValue`: the node with an id, where there is one.
abbrev pub Nodes : Type 0 → Type 0
Nodes N = String → Option N

unfoldable pub put : {N : Type 0} → Nodes N → String → N → Nodes N
put nodes id node = λ other. if same_string id other then some node else nodes other

module _ {D N : Type 0} (kind : NodeKind D N) where
  -- The operation at the node that was found.
  unfoldable pub deliver : D → Nodes N → Option N → Result (Nodes N)
  deliver o nodes none = if kind.tolerant then ok nodes else throws no_node
  deliver o nodes (some node) = do
    after ← kind.handle o node
    ok (put nodes (kind.operation_id o) after)

  unfoldable pub apply_to_nodes : D → Nodes N → Result (Nodes N)
  apply_to_nodes o nodes =
      if kind.is_no_op o then ok nodes else deliver o nodes (nodes (kind.operation_id o))

  -- The same at one node.
  unfoldable pub apply_at_node : D → N → Result N
  apply_at_node o node = if kind.is_no_op o then ok node else kind.handle o node

  abbrev pub node_registry : (D → D → Option (D → D → Result (OperationPair D))) → Registry D
  node_registry functions = record {
    operation_id = kind.operation_id;
    is_no_op = kind.is_no_op;
    get_operation_transformation_function = functions;
  }
