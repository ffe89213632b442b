-- ===== src/Arrays/Convergence/Moves.antt =====
-- Both sites end with one list: what a pair of moves needs for that.
use convergence_client_javas.Base.{
  ℕ, ◌<◌, ◌≡◌, true, false, List, length, ok, get_elem?, eq_of_get_elem?, arith,
}
use convergence_client_javas.Operations.{pair, map_pair, Converges}
use convergence_client_javas.Arrays.{
  ArrayMoveOperation, array_reorder, reorder, apply_reorder, handle_model_operation_event,
  apply_discrete_operation,
}
use convergence_client_javas.Arrays.Positions.{source, get_elem?-reorder, length-reorder}
use convergence_client_javas.Arrays.Transform.Switches.{Moves}

module _ {V : Type 0} where
  abbrev pub MovesConverge : Moves → ArrayMoveOperation → ArrayMoveOperation → List V → Type 0
  MovesConverge p s c xs =
      Converges apply_discrete_operation (map_pair array_reorder p) (array_reorder s)
        (array_reorder c) xs

  abbrev pub move : ArrayMoveOperation → List V → List V
  move o xs = reorder xs o.from_index o.to_index

  pub apply_move-live :
      (o : ArrayMoveOperation) (xs : List V)
      → o.no_op ≡ false
      → o.from_index < length xs
      → o.to_index < length xs
      → apply_discrete_operation (array_reorder o) xs ≡ ok (move o xs)
  unfolding apply_discrete_operation handle_model_operation_event apply_reorder
  apply_move-live o xs live f t = rw live (ground arith)

  pub apply_move-no_op :
      (o : ArrayMoveOperation) (xs : List V)
      → o.no_op ≡ true
      → apply_discrete_operation (array_reorder o) xs ≡ ok xs
  unfolding apply_discrete_operation
  apply_move-no_op o xs e = rw e

-- Two moves that are applied, within the bounds of the list.
pub record MoveInput {V : Type 0} (s c : ArrayMoveOperation) (xs : List V) : Type 0 where
  pub s_live : s.no_op ≡ false
  pub c_live : c.no_op ≡ false
  pub s_from : s.from_index < length xs
  pub s_to : s.to_index < length xs
  pub c_from : c.from_index < length xs
  pub c_to : c.to_index < length xs

abbrev pub place : ArrayMoveOperation → ℕ → ℕ
place o k = source o.from_index o.to_index k

module _ {V : Type 0} {s c : ArrayMoveOperation} {xs : List V} (inp : MoveInput s c xs) where
  open inp use {s_live, c_live, s_from, s_to, c_from, c_to}

  get_elem?-move :
      (o : ArrayMoveOperation) (ys : List V) (k : ℕ)
      → o.from_index < length ys
      → o.to_index < length ys
      → get_elem? (move o ys) k ≡ get_elem? ys (place o k)
  get_elem?-move o ys k f t = get_elem?-reorder ys o.from_index o.to_index f t k

  after_s : length (move s xs) ≡ length xs
  after_s = length-reorder xs s.from_index s.to_index s_from s_to

  after_c : length (move c xs) ≡ length xs
  after_c = length-reorder xs c.from_index c.to_index c_from c_to

  module _ (s' c' : ArrayMoveOperation) where
    pub both_move :
        s'.no_op ≡ false
        → c'.no_op ≡ false
        → s'.from_index < length xs
        → s'.to_index < length xs
        → c'.from_index < length xs
        → c'.to_index < length xs
        → ((k : ℕ) → place s (place c' k) ≡ place c (place s' k))
        → MovesConverge (pair s' c') s c xs
    both_move s_on c_on sf st cf ct e = (
      move c' (move s xs),
      rw (apply_move-live s xs s_live s_from s_to)
          (apply_move-live c' (move s xs) c_on (omega (arith, after_s)) (omega (arith, after_s))),
      rw (apply_move-live c xs c_live c_from c_to, same)
          (apply_move-live s' (move c xs) s_on (omega (arith, after_c)) (omega (arith, after_c))),
    )
      where
        same : move c' (move s xs) ≡ move s' (move c xs)
        same = eq_of_get_elem? _ _ λ k. rw (
          get_elem?-move c' (move s xs) k (omega (arith, after_s)) (omega (arith, after_s)),
          get_elem?-move s xs (place c' k) s_from s_to,
          e k,
          get_elem?-move s' (move c xs) k (omega (arith, after_c)) (omega (arith, after_c)),
          get_elem?-move c xs (place s' k) c_from c_to,
        )

    pub server_moves :
        s'.no_op ≡ false
        → c'.no_op ≡ true
        → s'.from_index < length xs
        → s'.to_index < length xs
        → ((k : ℕ) → place s k ≡ place c (place s' k))
        → MovesConverge (pair s' c') s c xs
    server_moves s_on c_off sf st e = (
      move s xs,
      rw (apply_move-live s xs s_live s_from s_to) (apply_move-no_op c' (move s xs) c_off),
      rw (apply_move-live c xs c_live c_from c_to, same)
          (apply_move-live s' (move c xs) s_on (omega (arith, after_c)) (omega (arith, after_c))),
    )
      where
        same : move s xs ≡ move s' (move c xs)
        same = eq_of_get_elem? _ _ λ k. rw (
          get_elem?-move s xs k s_from s_to,
          e k,
          get_elem?-move s' (move c xs) k (omega (arith, after_c)) (omega (arith, after_c)),
          get_elem?-move c xs (place s' k) c_from c_to,
        )

    pub none_moves :
        s'.no_op ≡ true
        → c'.no_op ≡ true
        → ((k : ℕ) → place s k ≡ place c k)
        → MovesConverge (pair s' c') s c xs
    none_moves s_off c_off e = (
      move s xs,
      rw (apply_move-live s xs s_live s_from s_to) (apply_move-no_op c' (move s xs) c_off),
      rw (apply_move-live c xs c_live c_from c_to, same) (apply_move-no_op s' (move c xs) s_off),
    )
      where
        same : move s xs ≡ move c xs
        same =
            eq_of_get_elem? _ _
              λ k. rw (get_elem?-move s xs k s_from s_to, e k, get_elem?-move c xs k c_from c_to)
