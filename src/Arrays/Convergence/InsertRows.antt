-- ===== src/Arrays/Convergence/InsertRows.antt =====
-- An insertion against a move: the `switch` statements of
-- src/main/model/ot/xform/array/ArrayInsertMoveOTF.ts and ArrayMoveInsertOTF.ts, row by row.
use convergence_client_javas.Base.{◌≤◌, ◌<◌, ◌≡◌, false, List, length, arith}
use convergence_client_javas.Range.{RangeIndexRelationship, before, start, within, end, after}
use convergence_client_javas.Range.Allen.{Place}
use convergence_client_javas.Operations.{Converges-swap}
use convergence_client_javas.Arrays.{
  ArrayInsertOperation, ArrayMoveOperation, array_insert, array_reorder, apply_discrete_operation,
}
use convergence_client_javas.Arrays.Positions.{source_cases}
use convergence_client_javas.Arrays.Convergence.Lists.{skip_cases}
use convergence_client_javas.Arrays.Transform.AgainstMove.{
  insert_against_forward, insert_against_backward, insert_against_identity,
}
use convergence_client_javas.Arrays.Transform.OfMove.{
  forward_against_insert, backward_against_insert, identity_against_insert,
}
use convergence_client_javas.Arrays.Convergence.AgainstMove.{ArraysConverge, MoveFits, insert_move}

-- What the tactics know of places.
ruleset places_after = (arith, source_cases, skip_cases)

module _ {V : Type 0} (o : ArrayInsertOperation V) {m : ArrayMoveOperation} {xs : List V}
    (mf : MoveFits m xs) (o_live : o.no_op ≡ false) (o_in : o.index ≤ length xs) where
  open mf use {m_live, m_from, m_to}

  pub insert_against_forward-Converges :
      (r : RangeIndexRelationship)
      → m.from_index < m.to_index
      → Place r m.from_index m.to_index o.index
      → ArraysConverge (insert_against_forward r o m) (array_insert o) (array_reorder m) xs
  unfolding insert_against_forward
  insert_against_forward-Converges before d h =
      insert_move mf o o_live o_in _ _ _ (omega arith) (omega arith) (omega arith)
        (λ k. omega places_after)
  insert_against_forward-Converges start d h =
      insert_move mf o o_live o_in _ _ _ (omega arith) (omega arith) (omega arith)
        (λ k. omega places_after)
  insert_against_forward-Converges within d h =
      insert_move mf o o_live o_in _ _ _ (omega arith) (omega arith) (omega arith)
        (λ k. omega places_after)
  insert_against_forward-Converges end d h =
      insert_move mf o o_live o_in _ _ _ (omega arith) (omega arith) (omega arith)
        (λ k. omega places_after)
  insert_against_forward-Converges after d h =
      insert_move mf o o_live o_in _ _ _ (omega arith) (omega arith) (omega arith)
        (λ k. omega places_after)

  pub forward_against_insert-Converges :
      (r : RangeIndexRelationship)
      → m.from_index < m.to_index
      → Place r m.from_index m.to_index o.index
      → ArraysConverge (forward_against_insert r m o) (array_reorder m) (array_insert o) xs
  unfolding forward_against_insert insert_against_forward
  forward_against_insert-Converges before d h =
      Converges-swap apply_discrete_operation _ _ _ _ xs
        (insert_against_forward-Converges before d h)
  forward_against_insert-Converges start d h =
      Converges-swap apply_discrete_operation _ _ _ _ xs
        (insert_against_forward-Converges start d h)
  forward_against_insert-Converges within d h =
      Converges-swap apply_discrete_operation _ _ _ _ xs
        (insert_against_forward-Converges within d h)
  forward_against_insert-Converges end d h =
      Converges-swap apply_discrete_operation _ _ _ _ xs (insert_against_forward-Converges end d h)
  forward_against_insert-Converges after d h =
      Converges-swap apply_discrete_operation _ _ _ _ xs
        (insert_against_forward-Converges after d h)

  pub insert_against_backward-Converges :
      (r : RangeIndexRelationship)
      → m.to_index < m.from_index
      → Place r m.to_index m.from_index o.index
      → ArraysConverge (insert_against_backward r o m) (array_insert o) (array_reorder m) xs
  unfolding insert_against_backward
  insert_against_backward-Converges before d h =
      insert_move mf o o_live o_in _ _ _ (omega arith) (omega arith) (omega arith)
        (λ k. omega places_after)
  insert_against_backward-Converges start d h =
      insert_move mf o o_live o_in _ _ _ (omega arith) (omega arith) (omega arith)
        (λ k. omega places_after)
  insert_against_backward-Converges within d h =
      insert_move mf o o_live o_in _ _ _ (omega arith) (omega arith) (omega arith)
        (λ k. omega places_after)
  insert_against_backward-Converges end d h =
      insert_move mf o o_live o_in _ _ _ (omega arith) (omega arith) (omega arith)
        (λ k. omega places_after)
  insert_against_backward-Converges after d h =
      insert_move mf o o_live o_in _ _ _ (omega arith) (omega arith) (omega arith)
        (λ k. omega places_after)

  pub backward_against_insert-Converges :
      (r : RangeIndexRelationship)
      → m.to_index < m.from_index
      → Place r m.to_index m.from_index o.index
      → ArraysConverge (backward_against_insert r m o) (array_reorder m) (array_insert o) xs
  unfolding backward_against_insert insert_against_backward
  backward_against_insert-Converges before d h =
      Converges-swap apply_discrete_operation _ _ _ _ xs
        (insert_against_backward-Converges before d h)
  backward_against_insert-Converges start d h =
      Converges-swap apply_discrete_operation _ _ _ _ xs
        (insert_against_backward-Converges start d h)
  backward_against_insert-Converges within d h =
      Converges-swap apply_discrete_operation _ _ _ _ xs
        (insert_against_backward-Converges within d h)
  backward_against_insert-Converges end d h =
      Converges-swap apply_discrete_operation _ _ _ _ xs (insert_against_backward-Converges end d h)
  backward_against_insert-Converges after d h =
      Converges-swap apply_discrete_operation _ _ _ _ xs
        (insert_against_backward-Converges after d h)

  pub insert_against_identity-Converges :
      (r : RangeIndexRelationship)
      → m.from_index ≡ m.to_index
      → Place r m.from_index m.to_index o.index
      → ArraysConverge (insert_against_identity r o m) (array_insert o) (array_reorder m) xs
  unfolding insert_against_identity
  insert_against_identity-Converges before d h =
      insert_move mf o o_live o_in _ _ _ (omega arith) (omega arith) (omega arith)
        (λ k. omega places_after)
  insert_against_identity-Converges start d h =
      insert_move mf o o_live o_in _ _ _ (omega arith) (omega arith) (omega arith)
        (λ k. omega places_after)
  insert_against_identity-Converges within d h =
      insert_move mf o o_live o_in _ _ _ (omega arith) (omega arith) (omega arith)
        (λ k. omega places_after)
  insert_against_identity-Converges end d h =
      insert_move mf o o_live o_in _ _ _ (omega arith) (omega arith) (omega arith)
        (λ k. omega places_after)
  insert_against_identity-Converges after d h =
      insert_move mf o o_live o_in _ _ _ (omega arith) (omega arith) (omega arith)
        (λ k. omega places_after)

  pub identity_against_insert-Converges :
      (r : RangeIndexRelationship)
      → m.from_index ≡ m.to_index
      → Place r m.from_index m.to_index o.index
      → ArraysConverge (identity_against_insert r m o) (array_reorder m) (array_insert o) xs
  unfolding identity_against_insert insert_against_identity
  identity_against_insert-Converges before d h =
      Converges-swap apply_discrete_operation _ _ _ _ xs
        (insert_against_identity-Converges before d h)
  identity_against_insert-Converges start d h =
      Converges-swap apply_discrete_operation _ _ _ _ xs
        (insert_against_identity-Converges start d h)
  identity_against_insert-Converges within d h =
      Converges-swap apply_discrete_operation _ _ _ _ xs
        (insert_against_identity-Converges within d h)
  identity_against_insert-Converges end d h =
      Converges-swap apply_discrete_operation _ _ _ _ xs (insert_against_identity-Converges end d h)
  identity_against_insert-Converges after d h =
      Converges-swap apply_discrete_operation _ _ _ _ xs
        (insert_against_identity-Converges after d h)
