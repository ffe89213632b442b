-- ===== src/Arrays/Convergence/AgainstMoveOtf.antt =====
-- An insertion, a removal or a replacement against a move, in every direction of the move
-- (src/main/model/ot/xform/array/ArrayInsertMoveOTF.ts and its like).
use convergence_client_javas.Base.{◌≤◌, ◌<◌, ◌≡◌, false, List, length, arith}
use convergence_client_javas.Operations.{Converges-swap}
use convergence_client_javas.Arrays.{
  ArrayInsertOperation, ArrayRemoveOperation, ArrayReplaceOperation, ArrayMoveOperation,
  array_insert, array_remove, array_set, array_reorder, apply_discrete_operation,
}
use convergence_client_javas.Arrays.Positions.{source_cases}
use convergence_client_javas.Arrays.Move.{
  MoveDirection, forward, backward, identity, get_move_direction,
}
use convergence_client_javas.Arrays.Transform.AgainstMove.{
  insert_move_by, remove_move_by, replace_move_by, array_insert_move_otf, array_remove_move_otf,
  array_replace_move_otf,
}
use convergence_client_javas.Arrays.Transform.OfMove.{
  move_insert_by, move_remove_by, move_replace_by, array_move_insert_otf, array_move_remove_otf,
  array_move_replace_otf,
}
use convergence_client_javas.Arrays.Convergence.AgainstMove.{ArraysConverge, MoveFits, replace_move}
use convergence_client_javas.Arrays.Convergence.InsertRows.{
  insert_against_forward-Converges, insert_against_backward-Converges,
  insert_against_identity-Converges, forward_against_insert-Converges,
  backward_against_insert-Converges, identity_against_insert-Converges,
}
use convergence_client_javas.Arrays.Convergence.RemoveRows.{
  remove_against_forward-Converges, remove_against_backward-Converges,
  remove_against_identity-Converges, forward_against_remove-Converges,
  backward_against_remove-Converges, identity_against_remove-Converges,
}
use convergence_client_javas.Arrays.Convergence.ReplaceRows.{
  replace_against_forward-Converges, replace_against_backward-Converges,
  forward_against_replace-Converges, backward_against_replace-Converges,
}
use convergence_client_javas.Arrays.Convergence.Directions.{
  Directed, get_move_direction-Directed, range_index_relationship-Place,
}

module _ {V : Type 0} {m : ArrayMoveOperation} {xs : List V} (mf : MoveFits m xs) where
  module _ (o : ArrayInsertOperation V) (live : o.no_op ≡ false) (o_in : o.index ≤ length xs) where
    insert_move_by-Converges :
        (d : MoveDirection)
        → Directed d m
        → ArraysConverge (insert_move_by d o m) (array_insert o) (array_reorder m) xs
    unfolding insert_move_by
    insert_move_by-Converges forward h =
        insert_against_forward-Converges o mf live o_in _ h
          (range_index_relationship-Place forward m _ h)
    insert_move_by-Converges backward h =
        insert_against_backward-Converges o mf live o_in _ h
          (range_index_relationship-Place backward m _ h)
    insert_move_by-Converges identity h =
        insert_against_identity-Converges o mf live o_in _ h
          (range_index_relationship-Place identity m _ h)

    pub array_insert_move_otf-Converges :
        ArraysConverge (array_insert_move_otf o m) (array_insert o) (array_reorder m) xs
    unfolding array_insert_move_otf
    array_insert_move_otf-Converges =
        insert_move_by-Converges (get_move_direction m) (get_move_direction-Directed m)

    move_insert_by-Converges :
        (d : MoveDirection)
        → Directed d m
        → ArraysConverge (move_insert_by d m o) (array_reorder m) (array_insert o) xs
    unfolding move_insert_by
    move_insert_by-Converges forward h =
        forward_against_insert-Converges o mf live o_in _ h
          (range_index_relationship-Place forward m _ h)
    move_insert_by-Converges backward h =
        backward_against_insert-Converges o mf live o_in _ h
          (range_index_relationship-Place backward m _ h)
    move_insert_by-Converges identity h =
        identity_against_insert-Converges o mf live o_in _ h
          (range_index_relationship-Place identity m _ h)

    pub array_move_insert_otf-Converges :
        ArraysConverge (array_move_insert_otf m o) (array_reorder m) (array_insert o) xs
    unfolding array_move_insert_otf
    array_move_insert_otf-Converges =
        move_insert_by-Converges (get_move_direction m) (get_move_direction-Directed m)

  module _ (o : ArrayRemoveOperation) (live : o.no_op ≡ false) (o_in : o.index < length xs) where
    remove_move_by-Converges :
        (d : MoveDirection)
        → Directed d m
        → ArraysConverge (remove_move_by d o m) (array_remove o) (array_reorder m) xs
    unfolding remove_move_by
    remove_move_by-Converges forward h =
        remove_against_forward-Converges o mf live o_in _ h
          (range_index_relationship-Place forward m _ h)
    remove_move_by-Converges backward h =
        remove_against_backward-Converges o mf live o_in _ h
          (range_index_relationship-Place backward m _ h)
    remove_move_by-Converges identity h =
        remove_against_identity-Converges o mf live o_in _ h
          (range_index_relationship-Place identity m _ h)

    pub array_remove_move_otf-Converges :
        ArraysConverge (array_remove_move_otf o m) (array_remove o) (array_reorder m) xs
    unfolding array_remove_move_otf
    array_remove_move_otf-Converges =
        remove_move_by-Converges (get_move_direction m) (get_move_direction-Directed m)

    move_remove_by-Converges :
        (d : MoveDirection)
        → Directed d m
        → ArraysConverge (move_remove_by d m o) (array_reorder m) (array_remove o) xs
    unfolding move_remove_by
    move_remove_by-Converges forward h =
        forward_against_remove-Converges o mf live o_in _ h
          (range_index_relationship-Place forward m _ h)
    move_remove_by-Converges backward h =
        backward_against_remove-Converges o mf live o_in _ h
          (range_index_relationship-Place backward m _ h)
    move_remove_by-Converges identity h =
        identity_against_remove-Converges o mf live o_in _ h
          (range_index_relationship-Place identity m _ h)

    pub array_move_remove_otf-Converges :
        ArraysConverge (array_move_remove_otf m o) (array_reorder m) (array_remove o) xs
    unfolding array_move_remove_otf
    array_move_remove_otf-Converges =
        move_remove_by-Converges (get_move_direction m) (get_move_direction-Directed m)

  module _ (o : ArrayReplaceOperation V) (live : o.no_op ≡ false) (o_in : o.index < length xs) where
    replace_move_by-Converges :
        (d : MoveDirection)
        → Directed d m
        → ArraysConverge (replace_move_by d o m) (array_set o) (array_reorder m) xs
    unfolding replace_move_by
    replace_move_by-Converges forward h =
        replace_against_forward-Converges o mf live o_in _ h
          (range_index_relationship-Place forward m _ h)
    replace_move_by-Converges backward h =
        replace_against_backward-Converges o mf live o_in _ h
          (range_index_relationship-Place backward m _ h)
    replace_move_by-Converges identity h =
        replace_move mf o live o_in o.index o_in (omega (arith, source_cases))

    pub array_replace_move_otf-Converges :
        ArraysConverge (array_replace_move_otf o m) (array_set o) (array_reorder m) xs
    unfolding array_replace_move_otf
    array_replace_move_otf-Converges =
        replace_move_by-Converges (get_move_direction m) (get_move_direction-Directed m)

    move_replace_by-Converges :
        (d : MoveDirection)
        → Directed d m
        → ArraysConverge (move_replace_by d m o) (array_reorder m) (array_set o) xs
    unfolding move_replace_by
    move_replace_by-Converges forward h =
        forward_against_replace-Converges o mf live o_in _ h
          (range_index_relationship-Place forward m _ h)
    move_replace_by-Converges backward h =
        backward_against_replace-Converges o mf live o_in _ h
          (range_index_relationship-Place backward m _ h)
    move_replace_by-Converges identity h =
        Converges-swap apply_discrete_operation _ _ _ _ xs
          (replace_move mf o live o_in o.index o_in (omega (arith, source_cases)))

    pub array_move_replace_otf-Converges :
        ArraysConverge (array_move_replace_otf m o) (array_reorder m) (array_set o) xs
    unfolding array_move_replace_otf
    array_move_replace_otf-Converges =
        move_replace_by-Converges (get_move_direction m) (get_move_direction-Directed m)
