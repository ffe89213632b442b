-- ===== src/Arrays/Move.antt =====
-- ArrayMoveHelper (src/main/model/ot/xform/array/ArrayMoveHelper.ts).
use convergence_client_javas.Base.{ℕ, min, max, Bool, ◌&&◌, ltb, ◌==◌, if◌then◌else◌}
use convergence_client_javas.Range.{
  RangeIndexRelationship, RangeRangeRelationship, get_range_index_relationship,
  get_range_range_relationship,
}
use convergence_client_javas.Arrays.{ArrayMoveOperation}

pub data MoveDirection : Type 0 where
  forward backward identity : MoveDirection

unfoldable pub is_forward_move : ArrayMoveOperation → Bool
is_forward_move op = ltb op.from_index op.to_index

unfoldable pub is_backward_move_move : ArrayMoveOperation → Bool
is_backward_move_move op = ltb op.to_index op.from_index

unfoldable pub is_identity_move : ArrayMoveOperation → Bool
is_identity_move op = op.from_index == op.to_index

unfoldable pub get_move_direction : ArrayMoveOperation → MoveDirection
unfolding is_forward_move is_backward_move_move
get_move_direction op =
    if is_forward_move op then forward else if is_backward_move_move op then backward else identity

abbrev pub get_range_min : ArrayMoveOperation → ℕ
get_range_min op = min op.from_index op.to_index

abbrev pub get_range_max : ArrayMoveOperation → ℕ
get_range_max op = max op.from_index op.to_index

unfoldable pub index_before_range : ArrayMoveOperation → ℕ → Bool
index_before_range op index = ltb index (get_range_min op)

unfoldable pub index_after_range : ArrayMoveOperation → ℕ → Bool
index_after_range op index = ltb (get_range_max op) index

unfoldable pub index_within_range : ArrayMoveOperation → ℕ → Bool
index_within_range op index = ltb (get_range_min op) index && ltb index (get_range_max op)

unfoldable pub range_index_relationship : ArrayMoveOperation → ℕ → RangeIndexRelationship
range_index_relationship op index =
    get_range_index_relationship (get_range_min op) (get_range_max op) index

unfoldable pub get_range_relationship :
    ArrayMoveOperation → ArrayMoveOperation → RangeRangeRelationship
get_range_relationship op1 op2 =
    get_range_range_relationship (get_range_min op1) (get_range_max op1) (get_range_min op2)
      (get_range_max op2)
