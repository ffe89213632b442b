-- ===== src/Arrays/Transform/Ids.antt =====
-- The functions for two array operations keep the id of the node that each operation is for.
use Prim.Native.String.{String}
use convergence_client_javas.Base.{◌≡◌, refl, arith}
use convergence_client_javas.Range.{RangeRangeRelationship, RangeIndexRelationship}
use convergence_client_javas.Arrays.{
  ArrayOperation, array_insert, array_remove, array_set, array_reorder, array_value,
}
use convergence_client_javas.Arrays.Transform.Switches.{
  Move, Moves, Pairs, forward_forward, forward_backward, forward_identity, backward_forward,
  backward_backward, backward_identity, identity_forward, identity_backward,
}
use convergence_client_javas.Arrays.Transform.Otf.{move_move_by}
use convergence_client_javas.Arrays.Move.{MoveDirection, forward, backward, identity}

module _ {V : Type 0} where
  abbrev pub array_operation_id : ArrayOperation V → String
  array_operation_id (array_insert o) = o.id
  array_operation_id (array_remove o) = o.id
  array_operation_id (array_set o) = o.id
  array_operation_id (array_reorder o) = o.id
  array_operation_id (array_value o) = o.id

  -- The pair is for the nodes of these two ids.
  abbrev pub KeepsIds : Pairs V → String → String → Type 0
  KeepsIds p i j = (array_operation_id p.server_op ≡ i) × (array_operation_id p.client_op ≡ j)

abbrev pub MovesKeepIds : Moves → Move → Move → Type 0
MovesKeepIds p s c = (p.server_op.id ≡ s.id) × (p.client_op.id ≡ c.id)

forward_forward-MovesKeepIds :
    (r : RangeRangeRelationship) (s c : Move) → MovesKeepIds (forward_forward r s c) s c
unfolding forward_forward
forward_forward-MovesKeepIds r s c = ground arith

forward_backward-MovesKeepIds :
    (r : RangeRangeRelationship) (s c : Move) → MovesKeepIds (forward_backward r s c) s c
unfolding forward_backward
forward_backward-MovesKeepIds r s c = ground arith

forward_identity-MovesKeepIds :
    (r : RangeIndexRelationship) (s c : Move) → MovesKeepIds (forward_identity r s c) s c
unfolding forward_identity
forward_identity-MovesKeepIds r s c = ground arith

backward_forward-MovesKeepIds :
    (r : RangeRangeRelationship) (s c : Move) → MovesKeepIds (backward_forward r s c) s c
unfolding backward_forward
backward_forward-MovesKeepIds r s c = ground arith

backward_backward-MovesKeepIds :
    (r : RangeRangeRelationship) (s c : Move) → MovesKeepIds (backward_backward r s c) s c
unfolding backward_backward
backward_backward-MovesKeepIds r s c = ground arith

backward_identity-MovesKeepIds :
    (r : RangeIndexRelationship) (s c : Move) → MovesKeepIds (backward_identity r s c) s c
unfolding backward_identity
backward_identity-MovesKeepIds r s c = ground arith

identity_forward-MovesKeepIds :
    (r : RangeIndexRelationship) (s c : Move) → MovesKeepIds (identity_forward r s c) s c
unfolding identity_forward
identity_forward-MovesKeepIds r s c = ground arith

identity_backward-MovesKeepIds :
    (r : RangeIndexRelationship) (s c : Move) → MovesKeepIds (identity_backward r s c) s c
unfolding identity_backward
identity_backward-MovesKeepIds r s c = ground arith

pub move_move_by-MovesKeepIds :
    (d e : MoveDirection) (s c : Move) → MovesKeepIds (move_move_by d e s c) s c
unfolding move_move_by
move_move_by-MovesKeepIds forward forward s c = forward_forward-MovesKeepIds _ s c
move_move_by-MovesKeepIds forward backward s c = forward_backward-MovesKeepIds _ s c
move_move_by-MovesKeepIds forward identity s c = forward_identity-MovesKeepIds _ s c
move_move_by-MovesKeepIds backward forward s c = backward_forward-MovesKeepIds _ s c
move_move_by-MovesKeepIds backward backward s c = backward_backward-MovesKeepIds _ s c
move_move_by-MovesKeepIds backward identity s c = backward_identity-MovesKeepIds _ s c
move_move_by-MovesKeepIds identity forward s c = identity_forward-MovesKeepIds _ s c
move_move_by-MovesKeepIds identity backward s c = identity_backward-MovesKeepIds _ s c
move_move_by-MovesKeepIds identity identity s c = (refl, refl)
