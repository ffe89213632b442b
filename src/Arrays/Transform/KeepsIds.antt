-- ===== src/Arrays/Transform/KeepsIds.antt =====
-- The functions that the registry holds for two array operations keep the ids of the nodes.
use convergence_client_javas.Base.{refl, arith, List}
use convergence_client_javas.Range.{RangeIndexRelationship}
use convergence_client_javas.Arrays.{
  DeepEquals, ArrayInsertOperation, ArrayRemoveOperation, ArrayReplaceOperation, ArrayOperation,
  array_insert, array_remove, array_set, array_reorder, array_value,
}
use convergence_client_javas.Arrays.Transform.Switches.{Move}
use convergence_client_javas.Arrays.Transform.AgainstMove.{
  insert_against_forward, insert_against_backward, insert_against_identity, insert_move_by,
  array_insert_move_otf, remove_against_forward, remove_against_backward, remove_against_identity,
  remove_move_by, array_remove_move_otf, replace_against_forward, replace_against_backward,
  replace_move_by, array_replace_move_otf,
}
use convergence_client_javas.Arrays.Transform.OfMove.{
  forward_against_insert, backward_against_insert, identity_against_insert, move_insert_by,
  array_move_insert_otf, forward_against_remove, backward_against_remove, identity_against_remove,
  move_remove_by, array_move_remove_otf, forward_against_replace, backward_against_replace,
  move_replace_by, array_move_replace_otf,
}
use convergence_client_javas.Arrays.Transform.Otf.{
  array_move_move_otf, array_insert_insert_otf, array_insert_remove_otf, array_insert_replace_otf,
  array_remove_insert_otf, array_remove_remove_otf, array_remove_replace_otf,
  array_replace_insert_otf, array_replace_remove_otf, array_replace_replace_otf, array_set_set_otf,
  array_other_set_otf, array_set_other_otf, array_otf,
}
use convergence_client_javas.Arrays.Move.{MoveDirection, forward, backward, identity}
use convergence_client_javas.Arrays.Transform.Ids.{
  array_operation_id, KeepsIds, move_move_by-MovesKeepIds,
}

module _ (V : Type 0) where
  insert_against_forward-KeepsIds :
      (r : RangeIndexRelationship) (s : ArrayInsertOperation V) (c : Move)
      → KeepsIds {V = V} (insert_against_forward r s c) s.id c.id
  unfolding insert_against_forward
  insert_against_forward-KeepsIds r s c = ground arith

  insert_against_backward-KeepsIds :
      (r : RangeIndexRelationship) (s : ArrayInsertOperation V) (c : Move)
      → KeepsIds {V = V} (insert_against_backward r s c) s.id c.id
  unfolding insert_against_backward
  insert_against_backward-KeepsIds r s c = ground arith

  insert_against_identity-KeepsIds :
      (r : RangeIndexRelationship) (s : ArrayInsertOperation V) (c : Move)
      → KeepsIds {V = V} (insert_against_identity r s c) s.id c.id
  unfolding insert_against_identity
  insert_against_identity-KeepsIds r s c = ground arith

  insert_move_by-KeepsIds :
      (d : MoveDirection) (s : ArrayInsertOperation V) (c : Move)
      → KeepsIds {V = V} (insert_move_by d s c) s.id c.id
  unfolding insert_move_by
  insert_move_by-KeepsIds forward s c = insert_against_forward-KeepsIds _ s c
  insert_move_by-KeepsIds backward s c = insert_against_backward-KeepsIds _ s c
  insert_move_by-KeepsIds identity s c = insert_against_identity-KeepsIds _ s c

  forward_against_insert-KeepsIds :
      (r : RangeIndexRelationship) (s : Move) (c : ArrayInsertOperation V)
      → KeepsIds {V = V} (forward_against_insert r s c) s.id c.id
  unfolding forward_against_insert
  forward_against_insert-KeepsIds r s c = ground arith

  backward_against_insert-KeepsIds :
      (r : RangeIndexRelationship) (s : Move) (c : ArrayInsertOperation V)
      → KeepsIds {V = V} (backward_against_insert r s c) s.id c.id
  unfolding backward_against_insert
  backward_against_insert-KeepsIds r s c = ground arith

  identity_against_insert-KeepsIds :
      (r : RangeIndexRelationship) (s : Move) (c : ArrayInsertOperation V)
      → KeepsIds {V = V} (identity_against_insert r s c) s.id c.id
  unfolding identity_against_insert
  identity_against_insert-KeepsIds r s c = ground arith

  move_insert_by-KeepsIds :
      (d : MoveDirection) (s : Move) (c : ArrayInsertOperation V)
      → KeepsIds {V = V} (move_insert_by d s c) s.id c.id
  unfolding move_insert_by
  move_insert_by-KeepsIds forward s c = forward_against_insert-KeepsIds _ s c
  move_insert_by-KeepsIds backward s c = backward_against_insert-KeepsIds _ s c
  move_insert_by-KeepsIds identity s c = identity_against_insert-KeepsIds _ s c

  remove_against_forward-KeepsIds :
      (r : RangeIndexRelationship) (s : ArrayRemoveOperation) (c : Move)
      → KeepsIds {V = V} (remove_against_forward r s c) s.id c.id
  unfolding remove_against_forward
  remove_against_forward-KeepsIds r s c = ground arith

  remove_against_backward-KeepsIds :
      (r : RangeIndexRelationship) (s : ArrayRemoveOperation) (c : Move)
      → KeepsIds {V = V} (remove_against_backward r s c) s.id c.id
  unfolding remove_against_backward
  remove_against_backward-KeepsIds r s c = ground arith

  remove_against_identity-KeepsIds :
      (r : RangeIndexRelationship) (s : ArrayRemoveOperation) (c : Move)
      → KeepsIds {V = V} (remove_against_identity r s c) s.id c.id
  unfolding remove_against_identity
  remove_against_identity-KeepsIds r s c = ground arith

  remove_move_by-KeepsIds :
      (d : MoveDirection) (s : ArrayRemoveOperation) (c : Move)
      → KeepsIds {V = V} (remove_move_by d s c) s.id c.id
  unfolding remove_move_by
  remove_move_by-KeepsIds forward s c = remove_against_forward-KeepsIds _ s c
  remove_move_by-KeepsIds backward s c = remove_against_backward-KeepsIds _ s c
  remove_move_by-KeepsIds identity s c = remove_against_identity-KeepsIds _ s c

  forward_against_remove-KeepsIds :
      (r : RangeIndexRelationship) (s : Move) (c : ArrayRemoveOperation)
      → KeepsIds {V = V} (forward_against_remove r s c) s.id c.id
  unfolding forward_against_remove
  forward_against_remove-KeepsIds r s c = ground arith

  backward_against_remove-KeepsIds :
      (r : RangeIndexRelationship) (s : Move) (c : ArrayRemoveOperation)
      → KeepsIds {V = V} (backward_against_remove r s c) s.id c.id
  unfolding backward_against_remove
  backward_against_remove-KeepsIds r s c = ground arith

  identity_against_remove-KeepsIds :
      (r : RangeIndexRelationship) (s : Move) (c : ArrayRemoveOperation)
      → KeepsIds {V = V} (identity_against_remove r s c) s.id c.id
  unfolding identity_against_remove
  identity_against_remove-KeepsIds r s c = ground arith

  move_remove_by-KeepsIds :
      (d : MoveDirection) (s : Move) (c : ArrayRemoveOperation)
      → KeepsIds {V = V} (move_remove_by d s c) s.id c.id
  unfolding move_remove_by
  move_remove_by-KeepsIds forward s c = forward_against_remove-KeepsIds _ s c
  move_remove_by-KeepsIds backward s c = backward_against_remove-KeepsIds _ s c
  move_remove_by-KeepsIds identity s c = identity_against_remove-KeepsIds _ s c

  replace_against_forward-KeepsIds :
      (r : RangeIndexRelationship) (s : ArrayReplaceOperation V) (c : Move)
      → KeepsIds {V = V} (replace_against_forward r s c) s.id c.id
  unfolding replace_against_forward
  replace_against_forward-KeepsIds r s c = ground arith

  replace_against_backward-KeepsIds :
      (r : RangeIndexRelationship) (s : ArrayReplaceOperation V) (c : Move)
      → KeepsIds {V = V} (replace_against_backward r s c) s.id c.id
  unfolding replace_against_backward
  replace_against_backward-KeepsIds r s c = ground arith

  replace_move_by-KeepsIds :
      (d : MoveDirection) (s : ArrayReplaceOperation V) (c : Move)
      → KeepsIds {V = V} (replace_move_by d s c) s.id c.id
  unfolding replace_move_by
  replace_move_by-KeepsIds forward s c = replace_against_forward-KeepsIds _ s c
  replace_move_by-KeepsIds backward s c = replace_against_backward-KeepsIds _ s c
  replace_move_by-KeepsIds identity s c = (refl, refl)

  forward_against_replace-KeepsIds :
      (r : RangeIndexRelationship) (s : Move) (c : ArrayReplaceOperation V)
      → KeepsIds {V = V} (forward_against_replace r s c) s.id c.id
  unfolding forward_against_replace
  forward_against_replace-KeepsIds r s c = ground arith

  backward_against_replace-KeepsIds :
      (r : RangeIndexRelationship) (s : Move) (c : ArrayReplaceOperation V)
      → KeepsIds {V = V} (backward_against_replace r s c) s.id c.id
  unfolding backward_against_replace
  backward_against_replace-KeepsIds r s c = ground arith

  move_replace_by-KeepsIds :
      (d : MoveDirection) (s : Move) (c : ArrayReplaceOperation V)
      → KeepsIds {V = V} (move_replace_by d s c) s.id c.id
  unfolding move_replace_by
  move_replace_by-KeepsIds forward s c = forward_against_replace-KeepsIds _ s c
  move_replace_by-KeepsIds backward s c = backward_against_replace-KeepsIds _ s c
  move_replace_by-KeepsIds identity s c = (refl, refl)

  module _ (d : DeepEquals V) (ds : DeepEquals (List V)) where
    pub array_otf-KeepsIds :
        (s c : ArrayOperation V)
        → KeepsIds (array_otf d ds s c) (array_operation_id s) (array_operation_id c)
    unfolding array_otf array_insert_insert_otf array_insert_remove_otf array_insert_replace_otf
        array_remove_insert_otf array_remove_remove_otf array_remove_replace_otf
        array_replace_insert_otf array_replace_remove_otf array_replace_replace_otf
        array_set_set_otf array_other_set_otf array_set_other_otf array_move_move_otf
        array_insert_move_otf array_remove_move_otf array_replace_move_otf array_move_insert_otf
        array_move_remove_otf array_move_replace_otf
    array_otf-KeepsIds (array_insert s) (array_insert c) = ground arith
    array_otf-KeepsIds (array_insert s) (array_remove c) = ground arith
    array_otf-KeepsIds (array_insert s) (array_set c) = ground arith
    array_otf-KeepsIds (array_insert s) (array_reorder c) = insert_move_by-KeepsIds _ s c
    array_otf-KeepsIds (array_insert s) (array_value c) = (refl, refl)
    array_otf-KeepsIds (array_remove s) (array_insert c) = ground arith
    array_otf-KeepsIds (array_remove s) (array_remove c) = ground arith
    array_otf-KeepsIds (array_remove s) (array_set c) = ground arith
    array_otf-KeepsIds (array_remove s) (array_reorder c) = remove_move_by-KeepsIds _ s c
    array_otf-KeepsIds (array_remove s) (array_value c) = (refl, refl)
    array_otf-KeepsIds (array_set s) (array_insert c) = ground arith
    array_otf-KeepsIds (array_set s) (array_remove c) = ground arith
    array_otf-KeepsIds (array_set s) (array_set c) = ground arith
    array_otf-KeepsIds (array_set s) (array_reorder c) = replace_move_by-KeepsIds _ s c
    array_otf-KeepsIds (array_set s) (array_value c) = (refl, refl)
    array_otf-KeepsIds (array_reorder s) (array_insert c) = move_insert_by-KeepsIds _ s c
    array_otf-KeepsIds (array_reorder s) (array_remove c) = move_remove_by-KeepsIds _ s c
    array_otf-KeepsIds (array_reorder s) (array_set c) = move_replace_by-KeepsIds _ s c
    array_otf-KeepsIds (array_reorder s) (array_reorder c) = move_move_by-MovesKeepIds _ _ s c
    array_otf-KeepsIds (array_reorder s) (array_value c) = (refl, refl)
    array_otf-KeepsIds (array_value s) (array_insert c) = (refl, refl)
    array_otf-KeepsIds (array_value s) (array_remove c) = (refl, refl)
    array_otf-KeepsIds (array_value s) (array_set c) = (refl, refl)
    array_otf-KeepsIds (array_value s) (array_reorder c) = (refl, refl)
    array_otf-KeepsIds (array_value s) (array_value c) = ground arith
