-- ===== src/Arrays/Convergence/ReplaceRows.antt =====
-- A replacement against a move: the `switch` statements of
-- src/main/model/ot/xform/array/ArrayReplaceMoveOTF.ts and ArrayMoveReplaceOTF.ts, row by row.
use convergence_client_javas.Base.{◌<◌, ◌≡◌, false, List, length, arith}
use convergence_client_javas.Range.{RangeIndexRelationship, before, start, within, end, after}
use convergence_client_javas.Range.Allen.{Place}
use convergence_client_javas.Operations.{Converges-swap}
use convergence_client_javas.Arrays.{
  ArrayReplaceOperation, ArrayMoveOperation, array_set, array_reorder, apply_discrete_operation,
}
use convergence_client_javas.Arrays.Positions.{source_cases}
use convergence_client_javas.Arrays.Convergence.Lists.{skip_cases}
use convergence_client_javas.Arrays.Transform.AgainstMove.{
  replace_against_forward, replace_against_backward,
}
use convergence_client_javas.Arrays.Transform.OfMove.{
  forward_against_replace, backward_against_replace,
}
use convergence_client_javas.Arrays.Convergence.AgainstMove.{ArraysConverge, MoveFits, replace_move}

-- What the tactics know of places.
ruleset places_after = (arith, source_cases, skip_cases)

module _ {V : Type 0} (o : ArrayReplaceOperation V) {m : ArrayMoveOperation} {xs : List V}
    (mf : MoveFits m xs) (o_live : o.no_op ≡ false) (o_in : o.index < length xs) where
  open mf use {m_live, m_from, m_to}

  pub replace_against_forward-Converges :
      (r : RangeIndexRelationship)
      → m.from_index < m.to_index
      → Place r m.from_index m.to_index o.index
      → ArraysConverge (replace_against_forward r o m) (array_set o) (array_reorder m) xs
  unfolding replace_against_forward
  replace_against_forward-Converges before d h =
      replace_move mf o o_live o_in _ (omega arith) (omega places_after)
  replace_against_forward-Converges start d h =
      replace_move mf o o_live o_in _ (omega arith) (omega places_after)
  replace_against_forward-Converges within d h =
      replace_move mf o o_live o_in _ (omega arith) (omega places_after)
  replace_against_forward-Converges end d h =
      replace_move mf o o_live o_in _ (omega arith) (omega places_after)
  replace_against_forward-Converges after d h =
      replace_move mf o o_live o_in _ (omega arith) (omega places_after)

  pub forward_against_replace-Converges :
      (r : RangeIndexRelationship)
      → m.from_index < m.to_index
      → Place r m.from_index m.to_index o.index
      → ArraysConverge (forward_against_replace r m o) (array_reorder m) (array_set o) xs
  unfolding forward_against_replace replace_against_forward
  forward_against_replace-Converges before d h =
      Converges-swap apply_discrete_operation _ _ _ _ xs
        (replace_against_forward-Converges before d h)
  forward_against_replace-Converges start d h =
      Converges-swap apply_discrete_operation _ _ _ _ xs
        (replace_against_forward-Converges start d h)
  forward_against_replace-Converges within d h =
      Converges-swap apply_discrete_operation _ _ _ _ xs
        (replace_against_forward-Converges within d h)
  forward_against_replace-Converges end d h =
      Converges-swap apply_discrete_operation _ _ _ _ xs (replace_against_forward-Converges end d h)
  forward_against_replace-Converges after d h =
      Converges-swap apply_discrete_operation _ _ _ _ xs
        (replace_against_forward-Converges after d h)

  pub replace_against_backward-Converges :
      (r : RangeIndexRelationship)
      → m.to_index < m.from_index
      → Place r m.to_index m.from_index o.index
      → ArraysConverge (replace_against_backward r o m) (array_set o) (array_reorder m) xs
  unfolding replace_against_backward
  replace_against_backward-Converges before d h =
      replace_move mf o o_live o_in _ (omega arith) (omega places_after)
  replace_against_backward-Converges start d h =
      replace_move mf o o_live o_in _ (omega arith) (omega places_after)
  replace_against_backward-Converges within d h =
      replace_move mf o o_live o_in _ (omega arith) (omega places_after)
  replace_against_backward-Converges end d h =
      replace_move mf o o_live o_in _ (omega arith) (omega places_after)
  replace_against_backward-Converges after d h =
      replace_move mf o o_live o_in _ (omega arith) (omega places_after)

  pub backward_against_replace-Converges :
      (r : RangeIndexRelationship)
      → m.to_index < m.from_index
      → Place r m.to_index m.from_index o.index
      → ArraysConverge (backward_against_replace r m o) (array_reorder m) (array_set o) xs
  unfolding backward_against_replace replace_against_backward
  backward_against_replace-Converges before d h =
      Converges-swap apply_discrete_operation _ _ _ _ xs
        (replace_against_backward-Converges before d h)
  backward_against_replace-Converges start d h =
      Converges-swap apply_discrete_operation _ _ _ _ xs
        (replace_against_backward-Converges start d h)
  backward_against_replace-Converges within d h =
      Converges-swap apply_discrete_operation _ _ _ _ xs
        (replace_against_backward-Converges within d h)
  backward_against_replace-Converges end d h =
      Converges-swap apply_discrete_operation _ _ _ _ xs
        (replace_against_backward-Converges end d h)
  backward_against_replace-Converges after d h =
      Converges-swap apply_discrete_operation _ _ _ _ xs
        (replace_against_backward-Converges after d h)
