-- ===== src/Arrays/Convergence/Directions.antt =====
-- The chains of tests on the direction of a move (ArrayMoveHelper.getMoveDirection and the `if`
-- chains of src/main/model/ot/xform/array): which row of which `switch` statement is taken.
use convergence_client_javas.Base.{ℕ, ◌≤◌, ◌<◌, ◌≡◌, List, arith, min, max}
use convergence_client_javas.Range.Allen.{
  Allen, Place, get_range_index_relationship-Place, get_range_range_relationship-Allen,
}
use convergence_client_javas.Arrays.{ArrayMoveOperation}
use convergence_client_javas.Arrays.Positions.{places}
use convergence_client_javas.Arrays.Move.{
  MoveDirection, forward, backward, identity, is_forward_move, is_backward_move_move,
  get_move_direction, range_index_relationship, get_range_relationship,
}
use convergence_client_javas.Arrays.Transform.Otf.{move_move_by, array_move_move_otf}
use convergence_client_javas.Arrays.Convergence.Moves.{MoveInput, MovesConverge, both_move}
use convergence_client_javas.Arrays.Convergence.MoveRows.{
  forward_forward-Converges, forward_backward-Converges, backward_forward-Converges,
  backward_backward-Converges,
}
use convergence_client_javas.Arrays.Convergence.IdentityRows.{
  forward_identity-Converges, backward_identity-Converges, identity_forward-Converges,
  identity_backward-Converges,
}

-- What a direction says of the two indices.
abbrev pub Directed : MoveDirection → ArrayMoveOperation → Type 0
Directed forward m = m.from_index < m.to_index
Directed backward m = m.to_index < m.from_index
Directed identity m = m.from_index ≡ m.to_index

-- The least and the greatest index of a move.
abbrev pub lowest : MoveDirection → ArrayMoveOperation → ℕ
lowest forward m = m.from_index
lowest backward m = m.to_index
lowest identity m = m.from_index

abbrev pub highest : MoveDirection → ArrayMoveOperation → ℕ
highest forward m = m.to_index
highest backward m = m.from_index
highest identity m = m.to_index

min-lowest :
    (d : MoveDirection) (m : ArrayMoveOperation)
    → Directed d m
    → min m.from_index m.to_index ≡ lowest d m
min-lowest forward m h = omega arith
min-lowest backward m h = omega arith
min-lowest identity m h = omega arith

max-highest :
    (d : MoveDirection) (m : ArrayMoveOperation)
    → Directed d m
    → max m.from_index m.to_index ≡ highest d m
max-highest forward m h = omega arith
max-highest backward m h = omega arith
max-highest identity m h = omega arith

pub get_move_direction-Directed : (m : ArrayMoveOperation) → Directed (get_move_direction m) m
unfolding get_move_direction is_forward_move is_backward_move_move
get_move_direction-Directed m = ground arith

pub range_index_relationship-Place :
    (d : MoveDirection) (m : ArrayMoveOperation) (i : ℕ)
    → Directed d m
    → Place (range_index_relationship m i) (lowest d m) (highest d m) i
unfolding range_index_relationship
range_index_relationship-Place d m i h =
    rw (min-lowest d m h, max-highest d m h)
      (get_range_index_relationship-Place (lowest d m) (highest d m) i (in_order d h))
  where
    in_order : (d : MoveDirection) → Directed d m → lowest d m ≤ highest d m
    in_order forward h = omega arith
    in_order backward h = omega arith
    in_order identity h = omega arith

get_range_relationship-Allen :
    (d e : MoveDirection) (s c : ArrayMoveOperation)
    → Directed d s
    → Directed e c
    → lowest d s < highest d s
    → lowest e c < highest e c
    → Allen (get_range_relationship s c) (lowest d s) (highest d s) (lowest e c) (highest e c)
unfolding get_range_relationship
get_range_relationship-Allen d e s c hs hc rs rc =
    rw (min-lowest d s hs, max-highest d s hs, min-lowest e c hc, max-highest e c hc)
      (get_range_range_relationship-Allen (lowest d s) (highest d s) (lowest e c) (highest e c) rs
        rc)

module _ {V : Type 0} {s c : ArrayMoveOperation} {xs : List V} (inp : MoveInput s c xs) where
  open inp use {s_live, c_live, s_from, s_to, c_from, c_to}

  move_move_by-Converges :
      (d e : MoveDirection)
      → Directed d s
      → Directed e c
      → MovesConverge (move_move_by d e s c) s c xs
  unfolding move_move_by
  move_move_by-Converges forward forward ds dc =
      forward_forward-Converges inp _ ds dc
        (get_range_relationship-Allen forward forward s c ds dc ds dc)
  move_move_by-Converges forward backward ds dc =
      forward_backward-Converges inp _ ds dc
        (get_range_relationship-Allen forward backward s c ds dc ds dc)
  move_move_by-Converges forward identity ds dc =
      forward_identity-Converges inp _ ds dc (range_index_relationship-Place forward s _ ds)
  move_move_by-Converges backward forward ds dc =
      backward_forward-Converges inp _ ds dc
        (get_range_relationship-Allen backward forward s c ds dc ds dc)
  move_move_by-Converges backward backward ds dc =
      backward_backward-Converges inp _ ds dc
        (get_range_relationship-Allen backward backward s c ds dc ds dc)
  move_move_by-Converges backward identity ds dc =
      backward_identity-Converges inp _ ds dc (range_index_relationship-Place backward s _ ds)
  move_move_by-Converges identity forward ds dc =
      identity_forward-Converges inp _ dc ds (range_index_relationship-Place forward c _ dc)
  move_move_by-Converges identity backward ds dc =
      identity_backward-Converges inp _ dc ds (range_index_relationship-Place backward c _ dc)
  move_move_by-Converges identity identity ds dc =
      both_move inp s c s_live c_live s_from s_to c_from c_to (λ k. omega places)

  pub array_move_move_otf-Converges : MovesConverge (array_move_move_otf s c) s c xs
  unfolding array_move_move_otf
  array_move_move_otf-Converges =
      move_move_by-Converges (get_move_direction s) (get_move_direction c)
        (get_move_direction-Directed s) (get_move_direction-Directed c)
