-- ===== src/Arrays/Transform/OfMove.antt =====
-- A move of the server against an insertion, a removal or a replacement of the client
-- (src/main/model/ot/xform/array/ArrayMoveInsertOTF.ts, ArrayMoveRemoveOTF.ts and
-- ArrayMoveReplaceOTF.ts).
--
-- Every subtraction below stands under a relationship that keeps its result at 0 or above.
use convergence_client_javas.Base.{◌+◌, ◌-◌, true}
use convergence_client_javas.Range.{RangeIndexRelationship, before, start, within, end, after}
use convergence_client_javas.Operations.{pair}
use convergence_client_javas.Arrays.{
  ArrayInsertOperation, ArrayRemoveOperation, ArrayReplaceOperation, array_insert, array_remove,
  array_set, array_reorder,
}
use convergence_client_javas.Arrays.Move.{
  MoveDirection, forward, backward, identity, get_move_direction, range_index_relationship,
}
use convergence_client_javas.Arrays.Transform.Switches.{Move, Pairs}

module _ {V : Type 0} where
  unfoldable pub forward_against_insert :
      RangeIndexRelationship → Move → ArrayInsertOperation V → Pairs V
  forward_against_insert before s c =
      pair (array_reorder (record s { from_index = s.from_index + 1; to_index = s.to_index + 1 }))
        (array_insert c)
  forward_against_insert start s c =
      pair (array_reorder (record s { from_index = s.from_index + 1; to_index = s.to_index + 1 }))
        (array_insert c)
  forward_against_insert within s c =
      pair (array_reorder (record s { to_index = s.to_index + 1 }))
        (array_insert (record c { index = c.index - 1 }))
  forward_against_insert end s c =
      pair (array_reorder (record s { to_index = s.to_index + 1 }))
        (array_insert (record c { index = c.index - 1 }))
  forward_against_insert after s c = pair (array_reorder s) (array_insert c)

  unfoldable pub backward_against_insert :
      RangeIndexRelationship → Move → ArrayInsertOperation V → Pairs V
  backward_against_insert before s c =
      pair (array_reorder (record s { from_index = s.from_index + 1; to_index = s.to_index + 1 }))
        (array_insert c)
  backward_against_insert start s c =
      pair (array_reorder (record s { from_index = s.from_index + 1; to_index = s.to_index + 1 }))
        (array_insert c)
  backward_against_insert within s c =
      pair (array_reorder (record s { from_index = s.from_index + 1 }))
        (array_insert (record c { index = c.index + 1 }))
  backward_against_insert end s c =
      pair (array_reorder (record s { from_index = s.from_index + 1 }))
        (array_insert (record c { index = c.index + 1 }))
  backward_against_insert after s c = pair (array_reorder s) (array_insert c)

  unfoldable pub identity_against_insert :
      RangeIndexRelationship → Move → ArrayInsertOperation V → Pairs V
  identity_against_insert before s c =
      pair (array_reorder (record s { from_index = s.from_index + 1; to_index = s.to_index + 1 }))
        (array_insert c)
  identity_against_insert start s c =
      pair (array_reorder (record s { from_index = s.from_index + 1; to_index = s.to_index + 1 }))
        (array_insert c)
  identity_against_insert within s c =
      pair (array_reorder (record s { from_index = s.from_index + 1; to_index = s.to_index + 1 }))
        (array_insert c)
  identity_against_insert end s c =
      pair (array_reorder (record s { from_index = s.from_index + 1; to_index = s.to_index + 1 }))
        (array_insert c)
  identity_against_insert after s c = pair (array_reorder s) (array_insert c)

  unfoldable pub forward_against_remove :
      RangeIndexRelationship → Move → ArrayRemoveOperation → Pairs V
  forward_against_remove before s c =
      pair (array_reorder (record s { from_index = s.from_index - 1; to_index = s.to_index - 1 }))
        (array_remove c)
  forward_against_remove start s c =
      pair (array_reorder (record s { no_op = true }))
        (array_remove (record c { index = s.to_index }))
  forward_against_remove within s c =
      pair (array_reorder (record s { to_index = s.to_index - 1 }))
        (array_remove (record c { index = c.index - 1 }))
  forward_against_remove end s c =
      pair (array_reorder (record s { to_index = s.to_index - 1 }))
        (array_remove (record c { index = c.index - 1 }))
  forward_against_remove after s c = pair (array_reorder s) (array_remove c)

  unfoldable pub backward_against_remove :
      RangeIndexRelationship → Move → ArrayRemoveOperation → Pairs V
  backward_against_remove before s c =
      pair (array_reorder (record s { from_index = s.from_index - 1; to_index = s.to_index - 1 }))
        (array_remove c)
  backward_against_remove start s c =
      pair (array_reorder (record s { from_index = s.from_index - 1 }))
        (array_remove (record c { index = c.index + 1 }))
  backward_against_remove within s c =
      pair (array_reorder (record s { from_index = s.from_index - 1 }))
        (array_remove (record c { index = c.index + 1 }))
  backward_against_remove end s c =
      pair (array_reorder (record s { no_op = true }))
        (array_remove (record c { index = s.to_index }))
  backward_against_remove after s c = pair (array_reorder s) (array_remove c)

  unfoldable pub identity_against_remove :
      RangeIndexRelationship → Move → ArrayRemoveOperation → Pairs V
  identity_against_remove before s c =
      pair (array_reorder (record s { from_index = s.from_index - 1; to_index = s.to_index - 1 }))
        (array_remove c)
  identity_against_remove start s c =
      pair (array_reorder (record s { no_op = true })) (array_remove c)
  identity_against_remove within s c =
      pair (array_reorder (record s { no_op = true })) (array_remove c)
  identity_against_remove end s c =
      pair (array_reorder (record s { no_op = true })) (array_remove c)
  identity_against_remove after s c = pair (array_reorder s) (array_remove c)

  unfoldable pub forward_against_replace :
      RangeIndexRelationship → Move → ArrayReplaceOperation V → Pairs V
  forward_against_replace before s c = pair (array_reorder s) (array_set c)
  forward_against_replace after s c = pair (array_reorder s) (array_set c)
  forward_against_replace start s c =
      pair (array_reorder s) (array_set (record c { index = s.to_index }))
  forward_against_replace within s c =
      pair (array_reorder s) (array_set (record c { index = c.index - 1 }))
  forward_against_replace end s c =
      pair (array_reorder s) (array_set (record c { index = c.index - 1 }))

  unfoldable pub backward_against_replace :
      RangeIndexRelationship → Move → ArrayReplaceOperation V → Pairs V
  backward_against_replace before s c = pair (array_reorder s) (array_set c)
  backward_against_replace after s c = pair (array_reorder s) (array_set c)
  backward_against_replace end s c =
      pair (array_reorder s) (array_set (record c { index = s.to_index }))
  backward_against_replace within s c =
      pair (array_reorder s) (array_set (record c { index = c.index + 1 }))
  backward_against_replace start s c =
      pair (array_reorder s) (array_set (record c { index = c.index + 1 }))

  unfoldable pub move_insert_by : MoveDirection → Move → ArrayInsertOperation V → Pairs V
  move_insert_by forward s c = forward_against_insert (range_index_relationship s c.index) s c
  move_insert_by backward s c = backward_against_insert (range_index_relationship s c.index) s c
  move_insert_by identity s c = identity_against_insert (range_index_relationship s c.index) s c

  unfoldable pub array_move_insert_otf : Move → ArrayInsertOperation V → Pairs V
  array_move_insert_otf s c = move_insert_by (get_move_direction s) s c

  unfoldable pub move_remove_by : MoveDirection → Move → ArrayRemoveOperation → Pairs V
  move_remove_by forward s c = forward_against_remove (range_index_relationship s c.index) s c
  move_remove_by backward s c = backward_against_remove (range_index_relationship s c.index) s c
  move_remove_by identity s c = identity_against_remove (range_index_relationship s c.index) s c

  unfoldable pub array_move_remove_otf : Move → ArrayRemoveOperation → Pairs V
  array_move_remove_otf s c = move_remove_by (get_move_direction s) s c

  unfoldable pub move_replace_by : MoveDirection → Move → ArrayReplaceOperation V → Pairs V
  move_replace_by forward s c = forward_against_replace (range_index_relationship s c.index) s c
  move_replace_by backward s c = backward_against_replace (range_index_relationship s c.index) s c
  move_replace_by identity s c = pair (array_reorder s) (array_set c)

  unfoldable pub array_move_replace_otf : Move → ArrayReplaceOperation V → Pairs V
  array_move_replace_otf s c = move_replace_by (get_move_direction s) s c
