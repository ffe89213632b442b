-- ===== src/Models/Sessions.antt =====
-- Sessions on a whole model: ClientConcurrencyControl
-- (src/main/model/ot/ClientConcurrencyControl.ts) with the registry's functions for every type.
use convergence_client_javas.Base.{◌≡◌, []}
use convergence_client_javas.Transformer.{transform_two_discrete_ops}
use convergence_client_javas.Transformer.Meets.{Transforms}
use convergence_client_javas.Nodes.{Nodes}
use convergence_client_javas.Nodes.Meets.{node_registry-Transforms}
use convergence_client_javas.Concurrency.{ClientConcurrencyControl}
use convergence_client_javas.Concurrency.Protocol.{Session, Session-settled}
use convergence_client_javas.Values.{AdditionsSwap}
use convergence_client_javas.Models.{
  Platform, ModelOperation, ModelNode, model_kind, model_functions, model_registry, apply_to_any,
  model_functions-Meet,
}

module _ {V N T : Type 0} (platform : Platform V N T) where
  pub model_registry-Transforms :
      AdditionsSwap platform.numbers
      → Transforms (apply_to_any platform) (transform_two_discrete_ops (model_registry platform))
  model_registry-Transforms additions_swap =
      node_registry-Transforms (model_kind platform) (model_functions platform)
        (model_functions-Meet platform additions_swap)

-- In every session on a model of arrays, objects, strings, numbers, booleans and dates, whatever
-- operations on its nodes the user and the server issue, in any order, where a string is edited by
-- insertions, removals and sets, a property is added only when it is absent and set or removed only
-- when it is present, and the numbers are such that additions to them may be done in either order, as
-- integers up to 2 ^ 53 are and fractions are not: once nothing is in flight, pending or unapplied,
-- the user sees the server's model.
pub model-Session_settled :
    {V N T : Type 0} (platform : Platform V N T) (additions_swap : AdditionsSwap platform.numbers)
    (control : ClientConcurrencyControl (ModelOperation V N T)) (x y : Nodes (ModelNode V N T))
    → Session (model_registry platform) (apply_to_any platform) control x y
    → control.inflight_operations ≡ []
    → control.pending_compound_operation ≡ []
    → control.unapplied_operations ≡ []
    → x ≡ y
model-Session_settled platform additions_swap =
    Session-settled (model_registry platform) (apply_to_any platform)
      (model_registry-Transforms platform additions_swap)
