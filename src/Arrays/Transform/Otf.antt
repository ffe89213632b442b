-- ===== src/Arrays/Transform/Otf.antt =====
-- The array functions of src/main/model/ot/xform/array that compare two indices or none, the
-- dispatch of ArrayMoveMoveOTF.ts, and the functions that the registry holds for two array
-- operations.
use convergence_client_javas.Base.{◌+◌, ◌-◌, true, not, ltb, leb, ◌==◌, if◌then◌else◌, List}
use convergence_client_javas.Operations.{pair, map_pair}
use convergence_client_javas.Arrays.{
  DeepEquals, ArrayInsertOperation, ArrayRemoveOperation, ArrayReplaceOperation, ArraySetOperation,
  ArrayOperation, array_insert, array_remove, array_set, array_reorder, array_value,
}
use convergence_client_javas.Arrays.Move.{
  MoveDirection, forward, backward, identity, get_move_direction, range_index_relationship,
  get_range_relationship,
}
use convergence_client_javas.Arrays.Transform.Switches.{
  Move, Moves, Pairs, forward_forward, forward_backward, forward_identity, backward_forward,
  backward_backward, backward_identity, identity_forward, identity_backward,
}
use convergence_client_javas.Arrays.Transform.AgainstMove.{
  array_insert_move_otf, array_remove_move_otf, array_replace_move_otf,
}
use convergence_client_javas.Arrays.Transform.OfMove.{
  array_move_insert_otf, array_move_remove_otf, array_move_replace_otf,
}

-- The chain of tests of ArrayMoveMoveOTF, on the two directions.
unfoldable pub move_move_by : MoveDirection → MoveDirection → Move → Move → Moves
move_move_by forward forward s c = forward_forward (get_range_relationship s c) s c
move_move_by forward backward s c = forward_backward (get_range_relationship s c) s c
move_move_by forward identity s c = forward_identity (range_index_relationship s c.from_index) s c
move_move_by backward forward s c = backward_forward (get_range_relationship s c) s c
move_move_by backward backward s c = backward_backward (get_range_relationship s c) s c
move_move_by backward identity s c = backward_identity (range_index_relationship s c.from_index) s c
move_move_by identity forward s c = identity_forward (range_index_relationship c s.from_index) s c
move_move_by identity backward s c = identity_backward (range_index_relationship c s.from_index) s c
move_move_by identity identity s c = pair s c

unfoldable pub array_move_move_otf : Move → Move → Moves
array_move_move_otf s c = move_move_by (get_move_direction s) (get_move_direction c) s c

module _ {V : Type 0} where
  unfoldable pub array_insert_insert_otf : ArrayInsertOperation V → ArrayInsertOperation V → Pairs V
  array_insert_insert_otf s c =
      if leb s.index c.index
      then pair (array_insert s) (array_insert (record c { index = c.index + 1 }))
      else pair (array_insert (record s { index = s.index + 1 })) (array_insert c)

  unfoldable pub array_insert_remove_otf : ArrayInsertOperation V → ArrayRemoveOperation → Pairs V
  array_insert_remove_otf s c =
      if leb s.index c.index
      then pair (array_insert s) (array_remove (record c { index = c.index + 1 }))
      else pair (array_insert (record s { index = s.index - 1 })) (array_remove c)

  unfoldable pub array_insert_replace_otf :
      ArrayInsertOperation V → ArrayReplaceOperation V → Pairs V
  array_insert_replace_otf s c =
      if leb s.index c.index
      then pair (array_insert s) (array_set (record c { index = c.index + 1 }))
      else pair (array_insert s) (array_set c)

  unfoldable pub array_remove_insert_otf : ArrayRemoveOperation → ArrayInsertOperation V → Pairs V
  array_remove_insert_otf s c =
      if ltb s.index c.index
      then pair (array_remove s) (array_insert (record c { index = c.index - 1 }))
      else pair (array_remove (record s { index = s.index + 1 })) (array_insert c)

  unfoldable pub array_remove_remove_otf : ArrayRemoveOperation → ArrayRemoveOperation → Pairs V
  array_remove_remove_otf s c =
      if s.index == c.index
      then pair (array_remove (record s { no_op = true }))
          (array_remove (record c { no_op = true }))
      else if ltb s.index c.index
      then pair (array_remove s) (array_remove (record c { index = c.index - 1 }))
      else pair (array_remove (record s { index = s.index - 1 })) (array_remove c)

  -- `new ArrayInsertOperation(c.id, c.noOp, c.index, c.value)`.
  abbrev pub insert_of_replace : ArrayReplaceOperation V → ArrayInsertOperation V
  insert_of_replace o = record { id = o.id; no_op = o.no_op; index = o.index; value = o.value }

  unfoldable pub array_remove_replace_otf : ArrayRemoveOperation → ArrayReplaceOperation V → Pairs V
  array_remove_replace_otf s c =
      if ltb s.index c.index
      then pair (array_remove s) (array_set (record c { index = c.index - 1 }))
      else if s.index == c.index
      then pair (array_remove (record s { no_op = true })) (array_insert (insert_of_replace c))
      else pair (array_remove s) (array_set c)

  unfoldable pub array_replace_insert_otf :
      ArrayReplaceOperation V → ArrayInsertOperation V → Pairs V
  array_replace_insert_otf s c =
      if ltb s.index c.index
      then pair (array_set s) (array_insert c)
      else pair (array_set (record s { index = s.index + 1 })) (array_insert c)

  unfoldable pub array_replace_remove_otf : ArrayReplaceOperation V → ArrayRemoveOperation → Pairs V
  array_replace_remove_otf s c =
      if ltb s.index c.index
      then pair (array_set s) (array_remove c)
      else if s.index == c.index
      then pair (array_insert (insert_of_replace s)) (array_remove (record c { no_op = true }))
      else pair (array_set (record s { index = s.index - 1 })) (array_remove c)

  -- `copy({noOp: true})`.
  abbrev pub copy_no_op : ArrayOperation V → ArrayOperation V
  copy_no_op (array_insert o) = array_insert (record o { no_op = true })
  copy_no_op (array_remove o) = array_remove (record o { no_op = true })
  copy_no_op (array_set o) = array_set (record o { no_op = true })
  copy_no_op (array_reorder o) = array_reorder (record o { no_op = true })
  copy_no_op (array_value o) = array_value (record o { no_op = true })

  -- ArrayInsertSetOTF, ArrayRemoveSetOTF, ArrayReplaceSetOTF and ArrayMoveSetOTF.
  unfoldable pub array_other_set_otf : ArrayOperation V → ArraySetOperation V → Pairs V
  array_other_set_otf s c = pair (copy_no_op s) (array_value c)

  -- ArraySetInsertOTF, ArraySetRemoveOTF, ArraySetReplaceOTF and ArraySetMoveOTF.
  unfoldable pub array_set_other_otf : ArraySetOperation V → ArrayOperation V → Pairs V
  array_set_other_otf s c = pair (array_value s) (copy_no_op c)

  -- The comparison of two replacements, and of two values of the whole array; the latter is made on
  -- arrays of data values.
  module _ (d : DeepEquals V) (ds : DeepEquals (List V)) where
    unfoldable pub array_replace_replace_otf :
        ArrayReplaceOperation V → ArrayReplaceOperation V → Pairs V
    array_replace_replace_otf s c =
        if not (s.index == c.index)
        then pair (array_set s) (array_set c)
        else if not (d.deep_equals s.value c.value)
        then pair (array_set s) (array_set (record c { no_op = true }))
        else pair (array_set (record s { no_op = true })) (array_set (record c { no_op = true }))

    unfoldable pub array_set_set_otf : ArraySetOperation V → ArraySetOperation V → Pairs V
    array_set_set_otf s c =
        if not (ds.deep_equals s.value c.value)
        then pair (array_value s) (array_value (record c { no_op = true }))
        else pair (array_value (record s { no_op = true }))
            (array_value (record c { no_op = true }))

    -- The functions that the registry holds for two array operations.
    unfoldable pub array_otf : ArrayOperation V → ArrayOperation V → Pairs V
    array_otf (array_insert s) (array_insert c) = array_insert_insert_otf s c
    array_otf (array_insert s) (array_remove c) = array_insert_remove_otf s c
    array_otf (array_insert s) (array_set c) = array_insert_replace_otf s c
    array_otf (array_insert s) (array_reorder c) = array_insert_move_otf s c
    array_otf (array_remove s) (array_insert c) = array_remove_insert_otf s c
    array_otf (array_remove s) (array_remove c) = array_remove_remove_otf s c
    array_otf (array_remove s) (array_set c) = array_remove_replace_otf s c
    array_otf (array_remove s) (array_reorder c) = array_remove_move_otf s c
    array_otf (array_set s) (array_insert c) = array_replace_insert_otf s c
    array_otf (array_set s) (array_remove c) = array_replace_remove_otf s c
    array_otf (array_set s) (array_set c) = array_replace_replace_otf s c
    array_otf (array_set s) (array_reorder c) = array_replace_move_otf s c
    array_otf (array_reorder s) (array_insert c) = array_move_insert_otf s c
    array_otf (array_reorder s) (array_remove c) = array_move_remove_otf s c
    array_otf (array_reorder s) (array_set c) = array_move_replace_otf s c
    array_otf (array_reorder s) (array_reorder c) = map_pair array_reorder (array_move_move_otf s c)
    array_otf (array_value s) (array_value c) = array_set_set_otf s c
    array_otf (array_value s) (array_insert c) = array_set_other_otf s (array_insert c)
    array_otf (array_value s) (array_remove c) = array_set_other_otf s (array_remove c)
    array_otf (array_value s) (array_set c) = array_set_other_otf s (array_set c)
    array_otf (array_value s) (array_reorder c) = array_set_other_otf s (array_reorder c)
    array_otf (array_insert s) (array_value c) = array_other_set_otf (array_insert s) c
    array_otf (array_remove s) (array_value c) = array_other_set_otf (array_remove s) c
    array_otf (array_set s) (array_value c) = array_other_set_otf (array_set s) c
    array_otf (array_reorder s) (array_value c) = array_other_set_otf (array_reorder s) c
