-- ===== src/Transformer.antt =====
-- OperationTransformer (src/main/model/ot/xform/OperationTransformer.ts), with the operations that
-- it takes (src/main/model/ot/ops/Operation.ts, DiscreteOperation.ts, CompoundOperation.ts).
--
-- A discrete operation is of a type that the model takes as a parameter, with its id, its mark and
-- the registry of its functions. A `throw` is a value.
pub mod Meets
pub mod Discrete
use Prim.Native.String.{String}
use text.Mathlib.Text.{◌==◌ as same_string}
use convergence_client_javas.Base.{
  Bool, ◌||◌, ◌≡◌, Option, none, some, List, [], ◌∷◌, if◌then◌else◌, Result, ok, throws,
  no_function_found, ◌>>=◌,
}
use convergence_client_javas.Operations.{OperationPair, pair}

pub data Operation (D : Type 0) : Type 0 where
  discrete : D → Operation D
  compound : List D → Operation D

-- What the transformer reads of a discrete operation, and TransformationFunctionRegistry.
pub record Registry (D : Type 0) : Type 0 where
  pub operation_id : D → String
  pub is_no_op : D → Bool
  pub get_operation_transformation_function : D → D → Option (D → D → Result (OperationPair D))

module _ {D : Type 0} (tfr : Registry D) where
  open tfr use {operation_id, is_no_op, get_operation_transformation_function}

  unfoldable pub transform_identical_path_operations : D → D → Result (OperationPair D)
  transform_identical_path_operations s c = elim (get_operation_transformation_function s c) [
    | none ↦ throws no_function_found
    | some tf ↦ tf s c
  ]

  unfoldable pub transform_two_discrete_ops : D → D → Result (OperationPair D)
  transform_two_discrete_ops s c =
      if is_no_op s || is_no_op c
      then ok (pair s c)
      else if same_string (operation_id s) (operation_id c)
      then transform_identical_path_operations s c
      else ok (pair s c)

  -- The loop of `transformClientCompoundOperation`: the server operation that comes out, and the
  -- new client operations.
  unfoldable pub transform_client_ops : D → List D → Result (D × List D)
  transform_client_ops s [] = ok (s, [])
  transform_client_ops s (o ∷ os) = do
    p ← transform_two_discrete_ops s o
    q ← transform_client_ops p.server_op os
    ok (q.0, p.client_op ∷ q.1)

  -- `transform`, for a discrete server operation.
  unfoldable pub transform_discrete_server : D → Operation D → Result (D × Operation D)
  transform_discrete_server s (discrete c) = do
    p ← transform_two_discrete_ops s c
    ok (p.server_op, discrete p.client_op)
  transform_discrete_server s (compound cs) = do
    q ← transform_client_ops s cs
    ok (q.0, compound q.1)

  -- The loop of `transformServerCompoundOperation`.
  unfoldable pub transform_server_ops : List D → Operation D → Result (List D × Operation D)
  transform_server_ops [] c = ok ([], c)
  transform_server_ops (o ∷ os) c = do
    p ← transform_discrete_server o c
    q ← transform_server_ops os p.1
    ok (p.0 ∷ q.0, q.1)

  unfoldable pub transform : Operation D → Operation D → Result (OperationPair (Operation D))
  transform (compound s) c = do q ← transform_server_ops s c; ok (pair (compound q.0) q.1)
  transform (discrete s) c = do q ← transform_discrete_server s c; ok (pair (discrete q.0) q.1)
