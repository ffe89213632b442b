-- ===== src/Arrays/Convergence/IdentityRows.antt =====
-- Two moves of which one moves nothing: the `switch` statements of ArrayMoveMoveOTF.ts for those,
-- row by row.
use convergence_client_javas.Base.{◌<◌, ◌≡◌, List, arith}
use convergence_client_javas.Range.{RangeIndexRelationship, before, start, within, end, after}
use convergence_client_javas.Range.Allen.{Place}
use convergence_client_javas.Arrays.{ArrayMoveOperation}
use convergence_client_javas.Arrays.Positions.{places}
use convergence_client_javas.Arrays.Transform.Switches.{
  forward_identity, backward_identity, identity_forward, identity_backward,
}
use convergence_client_javas.Arrays.Convergence.Moves.{MoveInput, MovesConverge, both_move}

module _ {V : Type 0} {s c : ArrayMoveOperation} {xs : List V} (inp : MoveInput s c xs) where
  open inp use {s_live, c_live, s_from, s_to, c_from, c_to}

  pub forward_identity-Converges :
      (r : RangeIndexRelationship)
      → s.from_index < s.to_index
      → c.from_index ≡ c.to_index
      → Place r s.from_index s.to_index c.from_index
      → MovesConverge (forward_identity r s c) s c xs
  unfolding forward_identity
  forward_identity-Converges before d i h =
      both_move inp _ _ s_live c_live (omega arith) (omega arith) (omega arith) (omega arith)
        (λ k. omega places)
  forward_identity-Converges after d i h =
      both_move inp _ _ s_live c_live (omega arith) (omega arith) (omega arith) (omega arith)
        (λ k. omega places)
  forward_identity-Converges start d i h =
      both_move inp _ _ s_live c_live (omega arith) (omega arith) (omega arith) (omega arith)
        (λ k. omega places)
  forward_identity-Converges within d i h =
      both_move inp _ _ s_live c_live (omega arith) (omega arith) (omega arith) (omega arith)
        (λ k. omega places)
  forward_identity-Converges end d i h =
      both_move inp _ _ s_live c_live (omega arith) (omega arith) (omega arith) (omega arith)
        (λ k. omega places)

  pub backward_identity-Converges :
      (r : RangeIndexRelationship)
      → s.to_index < s.from_index
      → c.from_index ≡ c.to_index
      → Place r s.to_index s.from_index c.from_index
      → MovesConverge (backward_identity r s c) s c xs
  unfolding backward_identity
  backward_identity-Converges before d i h =
      both_move inp _ _ s_live c_live (omega arith) (omega arith) (omega arith) (omega arith)
        (λ k. omega places)
  backward_identity-Converges after d i h =
      both_move inp _ _ s_live c_live (omega arith) (omega arith) (omega arith) (omega arith)
        (λ k. omega places)
  backward_identity-Converges start d i h =
      both_move inp _ _ s_live c_live (omega arith) (omega arith) (omega arith) (omega arith)
        (λ k. omega places)
  backward_identity-Converges within d i h =
      both_move inp _ _ s_live c_live (omega arith) (omega arith) (omega arith) (omega arith)
        (λ k. omega places)
  backward_identity-Converges end d i h =
      both_move inp _ _ s_live c_live (omega arith) (omega arith) (omega arith) (omega arith)
        (λ k. omega places)

  pub identity_forward-Converges :
      (r : RangeIndexRelationship)
      → c.from_index < c.to_index
      → s.from_index ≡ s.to_index
      → Place r c.from_index c.to_index s.from_index
      → MovesConverge (identity_forward r s c) s c xs
  unfolding identity_forward
  identity_forward-Converges before d i h =
      both_move inp _ _ s_live c_live (omega arith) (omega arith) (omega arith) (omega arith)
        (λ k. omega places)
  identity_forward-Converges after d i h =
      both_move inp _ _ s_live c_live (omega arith) (omega arith) (omega arith) (omega arith)
        (λ k. omega places)
  identity_forward-Converges start d i h =
      both_move inp _ _ s_live c_live (omega arith) (omega arith) (omega arith) (omega arith)
        (λ k. omega places)
  identity_forward-Converges within d i h =
      both_move inp _ _ s_live c_live (omega arith) (omega arith) (omega arith) (omega arith)
        (λ k. omega places)
  identity_forward-Converges end d i h =
      both_move inp _ _ s_live c_live (omega arith) (omega arith) (omega arith) (omega arith)
        (λ k. omega places)

  pub identity_backward-Converges :
      (r : RangeIndexRelationship)
      → c.to_index < c.from_index
      → s.from_index ≡ s.to_index
      → Place r c.to_index c.from_index s.from_index
      → MovesConverge (identity_backward r s c) s c xs
  unfolding identity_backward
  identity_backward-Converges before d i h =
      both_move inp _ _ s_live c_live (omega arith) (omega arith) (omega arith) (omega arith)
        (λ k. omega places)
  identity_backward-Converges after d i h =
      both_move inp _ _ s_live c_live (omega arith) (omega arith) (omega arith) (omega arith)
        (λ k. omega places)
  identity_backward-Converges start d i h =
      both_move inp _ _ s_live c_live (omega arith) (omega arith) (omega arith) (omega arith)
        (λ k. omega places)
  identity_backward-Converges within d i h =
      both_move inp _ _ s_live c_live (omega arith) (omega arith) (omega arith) (omega arith)
        (λ k. omega places)
  identity_backward-Converges end d i h =
      both_move inp _ _ s_live c_live (omega arith) (omega arith) (omega arith) (omega arith)
        (λ k. omega places)
