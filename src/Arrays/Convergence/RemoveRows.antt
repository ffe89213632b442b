-- ===== src/Arrays/Convergence/RemoveRows.antt =====
-- A removal against a move: the `switch` statements of
-- src/main/model/ot/xform/array/ArrayRemoveMoveOTF.ts and ArrayMoveRemoveOTF.ts, row by row.
use convergence_client_javas.Base.{◌<◌, ◌≡◌, false, List, length, arith}
use convergence_client_javas.Range.{RangeIndexRelationship, before, start, within, end, after}
use convergence_client_javas.Range.Allen.{Place}
use convergence_client_javas.Operations.{Converges-swap}
use convergence_client_javas.Arrays.{
  ArrayRemoveOperation, ArrayMoveOperation, array_remove, array_reorder, apply_discrete_operation,
}
use convergence_client_javas.Arrays.Positions.{source_cases}
use convergence_client_javas.Arrays.Convergence.Lists.{skip_cases}
use convergence_client_javas.Arrays.Transform.AgainstMove.{
  remove_against_forward, remove_against_backward, remove_against_identity,
}
use convergence_client_javas.Arrays.Transform.OfMove.{
  forward_against_remove, backward_against_remove, identity_against_remove,
}
use convergence_client_javas.Arrays.Convergence.AgainstMove.{
  ArraysConverge, MoveFits, remove_move, remove_moved,
}

-- What the tactics know of places.
ruleset places_after = (arith, source_cases, skip_cases)

module _ {V : Type 0} (o : ArrayRemoveOperation) {m : ArrayMoveOperation} {xs : List V}
    (mf : MoveFits m xs) (o_live : o.no_op ≡ false) (o_in : o.index < length xs) where
  open mf use {m_live, m_from, m_to}

  pub remove_against_forward-Converges :
      (r : RangeIndexRelationship)
      → m.from_index < m.to_index
      → Place r m.from_index m.to_index o.index
      → ArraysConverge (remove_against_forward r o m) (array_remove o) (array_reorder m) xs
  unfolding remove_against_forward
  remove_against_forward-Converges before d h =
      remove_move mf o o_live o_in _ _ _ (omega arith) (omega arith) (omega arith)
        (λ k. omega places_after)
  remove_against_forward-Converges start d h =
      remove_moved mf o o_live o_in _ (omega arith) (λ k. omega places_after)
  remove_against_forward-Converges within d h =
      remove_move mf o o_live o_in _ _ _ (omega arith) (omega arith) (omega arith)
        (λ k. omega places_after)
  remove_against_forward-Converges end d h =
      remove_move mf o o_live o_in _ _ _ (omega arith) (omega arith) (omega arith)
        (λ k. omega places_after)
  remove_against_forward-Converges after d h =
      remove_move mf o o_live o_in _ _ _ (omega arith) (omega arith) (omega arith)
        (λ k. omega places_after)

  pub forward_against_remove-Converges :
      (r : RangeIndexRelationship)
      → m.from_index < m.to_index
      → Place r m.from_index m.to_index o.index
      → ArraysConverge (forward_against_remove r m o) (array_reorder m) (array_remove o) xs
  unfolding forward_against_remove remove_against_forward
  forward_against_remove-Converges before d h =
      Converges-swap apply_discrete_operation _ _ _ _ xs
        (remove_against_forward-Converges before d h)
  forward_against_remove-Converges start d h =
      Converges-swap apply_discrete_operation _ _ _ _ xs
        (remove_against_forward-Converges start d h)
  forward_against_remove-Converges within d h =
      Converges-swap apply_discrete_operation _ _ _ _ xs
        (remove_against_forward-Converges within d h)
  forward_against_remove-Converges end d h =
      Converges-swap apply_discrete_operation _ _ _ _ xs (remove_against_forward-Converges end d h)
  forward_against_remove-Converges after d h =
      Converges-swap apply_discrete_operation _ _ _ _ xs
        (remove_against_forward-Converges after d h)

  pub remove_against_backward-Converges :
      (r : RangeIndexRelationship)
      → m.to_index < m.from_index
      → Place r m.to_index m.from_index o.index
      → ArraysConverge (remove_against_backward r o m) (array_remove o) (array_reorder m) xs
  unfolding remove_against_backward
  remove_against_backward-Converges before d h =
      remove_move mf o o_live o_in _ _ _ (omega arith) (omega arith) (omega arith)
        (λ k. omega places_after)
  remove_against_backward-Converges start d h =
      remove_move mf o o_live o_in _ _ _ (omega arith) (omega arith) (omega arith)
        (λ k. omega places_after)
  remove_against_backward-Converges within d h =
      remove_move mf o o_live o_in _ _ _ (omega arith) (omega arith) (omega arith)
        (λ k. omega places_after)
  remove_against_backward-Converges end d h =
      remove_moved mf o o_live o_in _ (omega arith) (λ k. omega places_after)
  remove_against_backward-Converges after d h =
      remove_move mf o o_live o_in _ _ _ (omega arith) (omega arith) (omega arith)
        (λ k. omega places_after)

  pub backward_against_remove-Converges :
      (r : RangeIndexRelationship)
      → m.to_index < m.from_index
      → Place r m.to_index m.from_index o.index
      → ArraysConverge (backward_against_remove r m o) (array_reorder m) (array_remove o) xs
  unfolding backward_against_remove remove_against_backward
  backward_against_remove-Converges before d h =
      Converges-swap apply_discrete_operation _ _ _ _ xs
        (remove_against_backward-Converges before d h)
  backward_against_remove-Converges start d h =
      Converges-swap apply_discrete_operation _ _ _ _ xs
        (remove_against_backward-Converges start d h)
  backward_against_remove-Converges within d h =
      Converges-swap apply_discrete_operation _ _ _ _ xs
        (remove_against_backward-Converges within d h)
  backward_against_remove-Converges end d h =
      Converges-swap apply_discrete_operation _ _ _ _ xs (remove_against_backward-Converges end d h)
  backward_against_remove-Converges after d h =
      Converges-swap apply_discrete_operation _ _ _ _ xs
        (remove_against_backward-Converges after d h)

  pub remove_against_identity-Converges :
      (r : RangeIndexRelationship)
      → m.from_index ≡ m.to_index
      → Place r m.from_index m.to_index o.index
      → ArraysConverge (remove_against_identity r o m) (array_remove o) (array_reorder m) xs
  unfolding remove_against_identity
  remove_against_identity-Converges before d h =
      remove_move mf o o_live o_in _ _ _ (omega arith) (omega arith) (omega arith)
        (λ k. omega places_after)
  remove_against_identity-Converges start d h =
      remove_moved mf o o_live o_in _ (omega arith) (λ k. omega places_after)
  remove_against_identity-Converges within d h =
      remove_moved mf o o_live o_in _ (omega arith) (λ k. omega places_after)
  remove_against_identity-Converges end d h =
      remove_moved mf o o_live o_in _ (omega arith) (λ k. omega places_after)
  remove_against_identity-Converges after d h =
      remove_move mf o o_live o_in _ _ _ (omega arith) (omega arith) (omega arith)
        (λ k. omega places_after)

  pub identity_against_remove-Converges :
      (r : RangeIndexRelationship)
      → m.from_index ≡ m.to_index
      → Place r m.from_index m.to_index o.index
      → ArraysConverge (identity_against_remove r m o) (array_reorder m) (array_remove o) xs
  unfolding identity_against_remove remove_against_identity
  identity_against_remove-Converges before d h =
      Converges-swap apply_discrete_operation _ _ _ _ xs
        (remove_against_identity-Converges before d h)
  identity_against_remove-Converges start d h =
      Converges-swap apply_discrete_operation _ _ _ _ xs
        (remove_against_identity-Converges start d h)
  identity_against_remove-Converges within d h =
      Converges-swap apply_discrete_operation _ _ _ _ xs
        (remove_against_identity-Converges within d h)
  identity_against_remove-Converges end d h =
      Converges-swap apply_discrete_operation _ _ _ _ xs (remove_against_identity-Converges end d h)
  identity_against_remove-Converges after d h =
      Converges-swap apply_discrete_operation _ _ _ _ xs
        (remove_against_identity-Converges after d h)
