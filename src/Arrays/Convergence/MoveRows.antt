-- ===== src/Arrays/Convergence/MoveRows.antt =====
-- Two moves: the `switch` statements of ArrayMoveMoveOTF.ts, row by row.
use convergence_client_javas.Base.{◌<◌, refl, List, arith}
use convergence_client_javas.Range.{
  RangeRangeRelationship, precedes, preceded_by, meets, met_by, overlaps, overlapped_by, starts,
  started_by, contains, contained_by, finishes, finished_by, equal_to,
}
use convergence_client_javas.Range.Allen.{Allen}
use convergence_client_javas.Arrays.{ArrayMoveOperation}
use convergence_client_javas.Arrays.Positions.{places}
use convergence_client_javas.Arrays.Transform.Switches.{
  forward_forward, forward_backward, backward_forward, backward_backward,
}
use convergence_client_javas.Arrays.Convergence.Moves.{
  MoveInput, MovesConverge, both_move, server_moves, none_moves,
}

module _ {V : Type 0} {s c : ArrayMoveOperation} {xs : List V} (inp : MoveInput s c xs) where
  open inp use {s_live, c_live, s_from, s_to, c_from, c_to}

  pub forward_forward-Converges :
      (r : RangeRangeRelationship)
      → s.from_index < s.to_index
      → c.from_index < c.to_index
      → Allen r s.from_index s.to_index c.from_index c.to_index
      → MovesConverge (forward_forward r s c) s c xs
  unfolding forward_forward
  forward_forward-Converges precedes sd cd h =
      both_move inp _ _ s_live c_live (omega arith) (omega arith) (omega arith) (omega arith)
        (λ k. omega places)
  forward_forward-Converges preceded_by sd cd h =
      both_move inp _ _ s_live c_live (omega arith) (omega arith) (omega arith) (omega arith)
        (λ k. omega places)
  forward_forward-Converges meets sd cd h =
      both_move inp _ _ s_live c_live (omega arith) (omega arith) (omega arith) (omega arith)
        (λ k. omega places)
  forward_forward-Converges met_by sd cd h =
      both_move inp _ _ s_live c_live (omega arith) (omega arith) (omega arith) (omega arith)
        (λ k. omega places)
  forward_forward-Converges overlaps sd cd h =
      both_move inp _ _ s_live c_live (omega arith) (omega arith) (omega arith) (omega arith)
        (λ k. omega places)
  forward_forward-Converges overlapped_by sd cd h =
      both_move inp _ _ s_live c_live (omega arith) (omega arith) (omega arith) (omega arith)
        (λ k. omega places)
  forward_forward-Converges starts sd cd h =
      server_moves inp _ _ s_live refl (omega arith) (omega arith) (λ k. omega places)
  forward_forward-Converges started_by sd cd h =
      server_moves inp _ _ s_live refl (omega arith) (omega arith) (λ k. omega places)
  forward_forward-Converges contains sd cd h =
      both_move inp _ _ s_live c_live (omega arith) (omega arith) (omega arith) (omega arith)
        (λ k. omega places)
  forward_forward-Converges contained_by sd cd h =
      both_move inp _ _ s_live c_live (omega arith) (omega arith) (omega arith) (omega arith)
        (λ k. omega places)
  forward_forward-Converges finishes sd cd h =
      both_move inp _ _ s_live c_live (omega arith) (omega arith) (omega arith) (omega arith)
        (λ k. omega places)
  forward_forward-Converges finished_by sd cd h =
      both_move inp _ _ s_live c_live (omega arith) (omega arith) (omega arith) (omega arith)
        (λ k. omega places)
  forward_forward-Converges equal_to sd cd h = none_moves inp _ _ refl refl (λ k. omega places)

  pub forward_backward-Converges :
      (r : RangeRangeRelationship)
      → s.from_index < s.to_index
      → c.to_index < c.from_index
      → Allen r s.from_index s.to_index c.to_index c.from_index
      → MovesConverge (forward_backward r s c) s c xs
  unfolding forward_backward
  forward_backward-Converges precedes sd cd h =
      both_move inp _ _ s_live c_live (omega arith) (omega arith) (omega arith) (omega arith)
        (λ k. omega places)
  forward_backward-Converges preceded_by sd cd h =
      both_move inp _ _ s_live c_live (omega arith) (omega arith) (omega arith) (omega arith)
        (λ k. omega places)
  forward_backward-Converges meets sd cd h =
      both_move inp _ _ s_live c_live (omega arith) (omega arith) (omega arith) (omega arith)
        (λ k. omega places)
  forward_backward-Converges met_by sd cd h =
      server_moves inp _ _ s_live refl (omega arith) (omega arith) (λ k. omega places)
  forward_backward-Converges overlaps sd cd h =
      both_move inp _ _ s_live c_live (omega arith) (omega arith) (omega arith) (omega arith)
        (λ k. omega places)
  forward_backward-Converges overlapped_by sd cd h =
      both_move inp _ _ s_live c_live (omega arith) (omega arith) (omega arith) (omega arith)
        (λ k. omega places)
  forward_backward-Converges starts sd cd h =
      both_move inp _ _ s_live c_live (omega arith) (omega arith) (omega arith) (omega arith)
        (λ k. omega places)
  forward_backward-Converges started_by sd cd h =
      both_move inp _ _ s_live c_live (omega arith) (omega arith) (omega arith) (omega arith)
        (λ k. omega places)
  forward_backward-Converges contains sd cd h =
      both_move inp _ _ s_live c_live (omega arith) (omega arith) (omega arith) (omega arith)
        (λ k. omega places)
  forward_backward-Converges contained_by sd cd h =
      both_move inp _ _ s_live c_live (omega arith) (omega arith) (omega arith) (omega arith)
        (λ k. omega places)
  forward_backward-Converges finishes sd cd h =
      both_move inp _ _ s_live c_live (omega arith) (omega arith) (omega arith) (omega arith)
        (λ k. omega places)
  forward_backward-Converges finished_by sd cd h =
      both_move inp _ _ s_live c_live (omega arith) (omega arith) (omega arith) (omega arith)
        (λ k. omega places)
  forward_backward-Converges equal_to sd cd h =
      both_move inp _ _ s_live c_live (omega arith) (omega arith) (omega arith) (omega arith)
        (λ k. omega places)

  pub backward_forward-Converges :
      (r : RangeRangeRelationship)
      → s.to_index < s.from_index
      → c.from_index < c.to_index
      → Allen r s.to_index s.from_index c.from_index c.to_index
      → MovesConverge (backward_forward r s c) s c xs
  unfolding backward_forward
  backward_forward-Converges precedes sd cd h =
      both_move inp _ _ s_live c_live (omega arith) (omega arith) (omega arith) (omega arith)
        (λ k. omega places)
  backward_forward-Converges preceded_by sd cd h =
      both_move inp _ _ s_live c_live (omega arith) (omega arith) (omega arith) (omega arith)
        (λ k. omega places)
  backward_forward-Converges meets sd cd h =
      server_moves inp _ _ s_live refl (omega arith) (omega arith) (λ k. omega places)
  backward_forward-Converges met_by sd cd h =
      both_move inp _ _ s_live c_live (omega arith) (omega arith) (omega arith) (omega arith)
        (λ k. omega places)
  backward_forward-Converges overlaps sd cd h =
      both_move inp _ _ s_live c_live (omega arith) (omega arith) (omega arith) (omega arith)
        (λ k. omega places)
  backward_forward-Converges overlapped_by sd cd h =
      both_move inp _ _ s_live c_live (omega arith) (omega arith) (omega arith) (omega arith)
        (λ k. omega places)
  backward_forward-Converges starts sd cd h =
      both_move inp _ _ s_live c_live (omega arith) (omega arith) (omega arith) (omega arith)
        (λ k. omega places)
  backward_forward-Converges started_by sd cd h =
      both_move inp _ _ s_live c_live (omega arith) (omega arith) (omega arith) (omega arith)
        (λ k. omega places)
  backward_forward-Converges contains sd cd h =
      both_move inp _ _ s_live c_live (omega arith) (omega arith) (omega arith) (omega arith)
        (λ k. omega places)
  backward_forward-Converges contained_by sd cd h =
      both_move inp _ _ s_live c_live (omega arith) (omega arith) (omega arith) (omega arith)
        (λ k. omega places)
  backward_forward-Converges finishes sd cd h =
      both_move inp _ _ s_live c_live (omega arith) (omega arith) (omega arith) (omega arith)
        (λ k. omega places)
  backward_forward-Converges finished_by sd cd h =
      both_move inp _ _ s_live c_live (omega arith) (omega arith) (omega arith) (omega arith)
        (λ k. omega places)
  backward_forward-Converges equal_to sd cd h =
      both_move inp _ _ s_live c_live (omega arith) (omega arith) (omega arith) (omega arith)
        (λ k. omega places)

  pub backward_backward-Converges :
      (r : RangeRangeRelationship)
      → s.to_index < s.from_index
      → c.to_index < c.from_index
      → Allen r s.to_index s.from_index c.to_index c.from_index
      → MovesConverge (backward_backward r s c) s c xs
  unfolding backward_backward
  backward_backward-Converges precedes sd cd h =
      both_move inp _ _ s_live c_live (omega arith) (omega arith) (omega arith) (omega arith)
        (λ k. omega places)
  backward_backward-Converges preceded_by sd cd h =
      both_move inp _ _ s_live c_live (omega arith) (omega arith) (omega arith) (omega arith)
        (λ k. omega places)
  backward_backward-Converges meets sd cd h =
      both_move inp _ _ s_live c_live (omega arith) (omega arith) (omega arith) (omega arith)
        (λ k. omega places)
  backward_backward-Converges met_by sd cd h =
      both_move inp _ _ s_live c_live (omega arith) (omega arith) (omega arith) (omega arith)
        (λ k. omega places)
  backward_backward-Converges overlaps sd cd h =
      both_move inp _ _ s_live c_live (omega arith) (omega arith) (omega arith) (omega arith)
        (λ k. omega places)
  backward_backward-Converges overlapped_by sd cd h =
      both_move inp _ _ s_live c_live (omega arith) (omega arith) (omega arith) (omega arith)
        (λ k. omega places)
  backward_backward-Converges starts sd cd h =
      both_move inp _ _ s_live c_live (omega arith) (omega arith) (omega arith) (omega arith)
        (λ k. omega places)
  backward_backward-Converges started_by sd cd h =
      both_move inp _ _ s_live c_live (omega arith) (omega arith) (omega arith) (omega arith)
        (λ k. omega places)
  backward_backward-Converges contains sd cd h =
      both_move inp _ _ s_live c_live (omega arith) (omega arith) (omega arith) (omega arith)
        (λ k. omega places)
  backward_backward-Converges contained_by sd cd h =
      both_move inp _ _ s_live c_live (omega arith) (omega arith) (omega arith) (omega arith)
        (λ k. omega places)
  backward_backward-Converges finishes sd cd h =
      server_moves inp _ _ s_live refl (omega arith) (omega arith) (λ k. omega places)
  backward_backward-Converges finished_by sd cd h =
      server_moves inp _ _ s_live refl (omega arith) (omega arith) (λ k. omega places)
  backward_backward-Converges equal_to sd cd h = none_moves inp _ _ refl refl (λ k. omega places)
