-- ===== src/Arrays/Transform/AgainstMove.antt =====
-- An insertion, a removal or a replacement of the server against a move of the client
-- (src/main/model/ot/xform/array/ArrayInsertMoveOTF.ts, ArrayRemoveMoveOTF.ts and
-- ArrayReplaceMoveOTF.ts).
--
-- Every subtraction below stands under a relationship that keeps its result at 0 or above.
use convergence_client_javas.Base.{◌+◌, ◌-◌, true}
use convergence_client_javas.Range.{RangeIndexRelationship, before, start, within, end, after}
use convergence_client_javas.Operations.{pair}
use convergence_client_javas.Arrays.{
  ArrayInsertOperation, ArrayRemoveOperation, ArrayReplaceOperation, array_insert, array_remove,
  array_set, array_reorder,
}
use convergence_client_javas.Arrays.Move.{
  MoveDirection, forward, backward, identity, get_move_direction, range_index_relationship,
}
use convergence_client_javas.Arrays.Transform.Switches.{Move, Pairs}

module _ {V : Type 0} where
  unfoldable pub insert_against_forward :
      RangeIndexRelationship → ArrayInsertOperation V → Move → Pairs V
  insert_against_forward before s c =
      pair (array_insert s)
        (array_reorder (record c { from_index = c.from_index + 1; to_index = c.to_index + 1 }))
  insert_against_forward start s c =
      pair (array_insert s)
        (array_reorder (record c { from_index = c.from_index + 1; to_index = c.to_index + 1 }))
  insert_against_forward within s c =
      pair (array_insert (record s { index = s.index - 1 }))
        (array_reorder (record c { to_index = c.to_index + 1 }))
  insert_against_forward end s c =
      pair (array_insert (record s { index = s.index - 1 }))
        (array_reorder (record c { to_index = c.to_index + 1 }))
  insert_against_forward after s c = pair (array_insert s) (array_reorder c)

  unfoldable pub insert_against_backward :
      RangeIndexRelationship → ArrayInsertOperation V → Move → Pairs V
  insert_against_backward before s c =
      pair (array_insert s)
        (array_reorder (record c { from_index = c.from_index + 1; to_index = c.to_index + 1 }))
  insert_against_backward start s c =
      pair (array_insert s)
        (array_reorder (record c { from_index = c.from_index + 1; to_index = c.to_index + 1 }))
  insert_against_backward within s c =
      pair (array_insert (record s { index = s.index + 1 }))
        (array_reorder (record c { from_index = c.from_index + 1 }))
  insert_against_backward end s c =
      pair (array_insert (record s { index = s.index + 1 }))
        (array_reorder (record c { from_index = c.from_index + 1 }))
  insert_against_backward after s c = pair (array_insert s) (array_reorder c)

  unfoldable pub insert_against_identity :
      RangeIndexRelationship → ArrayInsertOperation V → Move → Pairs V
  insert_against_identity before s c =
      pair (array_insert s)
        (array_reorder (record c { from_index = c.from_index + 1; to_index = c.to_index + 1 }))
  insert_against_identity start s c =
      pair (array_insert s)
        (array_reorder (record c { from_index = c.from_index + 1; to_index = c.to_index + 1 }))
  insert_against_identity within s c =
      pair (array_insert s)
        (array_reorder (record c { from_index = c.from_index + 1; to_index = c.to_index + 1 }))
  insert_against_identity end s c =
      pair (array_insert s)
        (array_reorder (record c { from_index = c.from_index + 1; to_index = c.to_index + 1 }))
  insert_against_identity after s c = pair (array_insert s) (array_reorder c)

  unfoldable pub remove_against_forward :
      RangeIndexRelationship → ArrayRemoveOperation → Move → Pairs V
  remove_against_forward before s c =
      pair (array_remove s)
        (array_reorder (record c { from_index = c.from_index - 1; to_index = c.to_index - 1 }))
  remove_against_forward start s c =
      pair (array_remove (record s { index = c.to_index }))
        (array_reorder (record c { no_op = true }))
  remove_against_forward within s c =
      pair (array_remove (record s { index = s.index - 1 }))
        (array_reorder (record c { to_index = c.to_index - 1 }))
  remove_against_forward end s c =
      pair (array_remove (record s { index = s.index - 1 }))
        (array_reorder (record c { to_index = c.to_index - 1 }))
  remove_against_forward after s c = pair (array_remove s) (array_reorder c)

  unfoldable pub remove_against_backward :
      RangeIndexRelationship → ArrayRemoveOperation → Move → Pairs V
  remove_against_backward before s c =
      pair (array_remove s)
        (array_reorder (record c { from_index = c.from_index - 1; to_index = c.to_index - 1 }))
  remove_against_backward start s c =
      pair (array_remove (record s { index = s.index + 1 }))
        (array_reorder (record c { from_index = c.from_index - 1 }))
  remove_against_backward within s c =
      pair (array_remove (record s { index = s.index + 1 }))
        (array_reorder (record c { from_index = c.from_index - 1 }))
  remove_against_backward end s c =
      pair (array_remove (record s { index = c.to_index }))
        (array_reorder (record c { no_op = true }))
  remove_against_backward after s c = pair (array_remove s) (array_reorder c)

  unfoldable pub remove_against_identity :
      RangeIndexRelationship → ArrayRemoveOperation → Move → Pairs V
  remove_against_identity before s c =
      pair (array_remove s)
        (array_reorder (record c { from_index = c.from_index - 1; to_index = c.to_index - 1 }))
  remove_against_identity start s c =
      pair (array_remove s) (array_reorder (record c { no_op = true }))
  remove_against_identity within s c =
      pair (array_remove s) (array_reorder (record c { no_op = true }))
  remove_against_identity end s c =
      pair (array_remove s) (array_reorder (record c { no_op = true }))
  remove_against_identity after s c = pair (array_remove s) (array_reorder c)

  unfoldable pub replace_against_forward :
      RangeIndexRelationship → ArrayReplaceOperation V → Move → Pairs V
  replace_against_forward before s c = pair (array_set s) (array_reorder c)
  replace_against_forward after s c = pair (array_set s) (array_reorder c)
  replace_against_forward start s c =
      pair (array_set (record s { index = c.to_index })) (array_reorder c)
  replace_against_forward within s c =
      pair (array_set (record s { index = s.index - 1 })) (array_reorder c)
  replace_against_forward end s c =
      pair (array_set (record s { index = s.index - 1 })) (array_reorder c)

  unfoldable pub replace_against_backward :
      RangeIndexRelationship → ArrayReplaceOperation V → Move → Pairs V
  replace_against_backward before s c = pair (array_set s) (array_reorder c)
  replace_against_backward after s c = pair (array_set s) (array_reorder c)
  replace_against_backward end s c =
      pair (array_set (record s { index = c.to_index })) (array_reorder c)
  replace_against_backward within s c =
      pair (array_set (record s { index = s.index + 1 })) (array_reorder c)
  replace_against_backward start s c =
      pair (array_set (record s { index = s.index + 1 })) (array_reorder c)

  unfoldable pub insert_move_by : MoveDirection → ArrayInsertOperation V → Move → Pairs V
  insert_move_by forward s c = insert_against_forward (range_index_relationship c s.index) s c
  insert_move_by backward s c = insert_against_backward (range_index_relationship c s.index) s c
  insert_move_by identity s c = insert_against_identity (range_index_relationship c s.index) s c

  unfoldable pub array_insert_move_otf : ArrayInsertOperation V → Move → Pairs V
  array_insert_move_otf s c = insert_move_by (get_move_direction c) s c

  unfoldable pub remove_move_by : MoveDirection → ArrayRemoveOperation → Move → Pairs V
  remove_move_by forward s c = remove_against_forward (range_index_relationship c s.index) s c
  remove_move_by backward s c = remove_against_backward (range_index_relationship c s.index) s c
  remove_move_by identity s c = remove_against_identity (range_index_relationship c s.index) s c

  unfoldable pub array_remove_move_otf : ArrayRemoveOperation → Move → Pairs V
  array_remove_move_otf s c = remove_move_by (get_move_direction c) s c

  unfoldable pub replace_move_by : MoveDirection → ArrayReplaceOperation V → Move → Pairs V
  replace_move_by forward s c = replace_against_forward (range_index_relationship c s.index) s c
  replace_move_by backward s c = replace_against_backward (range_index_relationship c s.index) s c
  replace_move_by identity s c = pair (array_set s) (array_reorder c)

  unfoldable pub array_replace_move_otf : ArrayReplaceOperation V → Move → Pairs V
  array_replace_move_otf s c = replace_move_by (get_move_direction c) s c
