-- ===== src/Arrays/Convergence/AgainstMove.antt =====
-- An insertion, a removal or a replacement against a move: the applications that succeed, and what
-- a pair needs so that both sites end with one list.
use convergence_client_javas.Base.{
  ℕ, ◌+◌, ◌≤◌, ◌<◌, ◌≡◌, refl, true, false, List, length, ok, arith,
}
use convergence_client_javas.Operations.{pair, Converges, Converges-by}
use convergence_client_javas.Arrays.{
  ArrayInsertOperation, ArrayRemoveOperation, ArrayReplaceOperation, ArrayMoveOperation,
  ArrayOperation, array_insert, array_remove, array_set, array_reorder, is_no_op, apply_insert,
  apply_remove, apply_set, handle_model_operation_event, apply_discrete_operation,
}
use convergence_client_javas.Arrays.Positions.{source, length-reorder}
use convergence_client_javas.Arrays.Transform.Switches.{Pairs}
use convergence_client_javas.Arrays.Convergence.Moves.{
  move, place, apply_move-live, apply_move-no_op,
}
use convergence_client_javas.Arrays.Convergence.Lists.{
  inserted, removed, replaced, skip, length-inserted, length-removed, length-replaced,
  inserted-reorder, removed-reorder, removed-moved, replaced-reorder,
}

module _ {V : Type 0} where
  abbrev pub ArraysConverge : Pairs V → ArrayOperation V → ArrayOperation V → List V → Type 0
  ArraysConverge = Converges apply_discrete_operation

  pub apply_insert-live :
      (o : ArrayInsertOperation V) (xs : List V)
      → o.no_op ≡ false
      → o.index ≤ length xs
      → apply_discrete_operation (array_insert o) xs ≡ ok (inserted xs o.index o.value)
  unfolding apply_discrete_operation handle_model_operation_event apply_insert
  apply_insert-live o xs live h = rw live (ground arith)

  pub apply_remove-live :
      (o : ArrayRemoveOperation) (xs : List V)
      → o.no_op ≡ false
      → o.index < length xs
      → apply_discrete_operation (array_remove o) xs ≡ ok (removed xs o.index)
  unfolding apply_discrete_operation handle_model_operation_event apply_remove
  apply_remove-live o xs live h = rw live (ground arith)

  pub apply_set-live :
      (o : ArrayReplaceOperation V) (xs : List V)
      → o.no_op ≡ false
      → o.index < length xs
      → apply_discrete_operation (array_set o) xs ≡ ok (replaced xs o.index o.value)
  unfolding apply_discrete_operation handle_model_operation_event apply_set
  apply_set-live o xs live h = rw live (ground arith)

  pub apply-no_op :
      (o : ArrayOperation V) (xs : List V)
      → is_no_op o ≡ true
      → apply_discrete_operation o xs ≡ ok xs
  unfolding apply_discrete_operation
  apply-no_op o xs e = rw e

-- A move that is applied, within the bounds.
pub record MoveFits {V : Type 0} (m : ArrayMoveOperation) (xs : List V) : Type 0 where
  pub m_live : m.no_op ≡ false
  pub m_from : m.from_index < length xs
  pub m_to : m.to_index < length xs

module _ {V : Type 0} {m : ArrayMoveOperation} {xs : List V} (mf : MoveFits m xs) where
  open mf use {m_live, m_from, m_to}

  moved : length (move m xs) ≡ length xs
  moved = length-reorder xs m.from_index m.to_index m_from m_to

  pub insert_move :
      (o : ArrayInsertOperation V)
      → o.no_op ≡ false
      → o.index ≤ length xs
      → (i' f' t' : ℕ) → i' ≤ length xs
      → f' ≤ length xs
      → t' ≤ length xs
      → ((k : ℕ)
          → source 0 o.index (source f' t' k)
            ≡ source (m.from_index + 1) (m.to_index + 1) (source 0 i' k))
      → ArraysConverge
          (pair
            (array_insert (record o { index = i' }))
            (array_reorder (record m { from_index = f'; to_index = t' })))
          (array_insert o)
          (array_reorder m)
          xs
  insert_move o o_live o_in i' f' t' hi hf ht e =
      Converges-by apply_discrete_operation _ _ _ _ xs _ _ _ _ (apply_insert-live o xs o_live o_in)
        (apply_move-live (record m { from_index = f'; to_index = t' }) _ m_live
          (omega (arith, length-inserted xs o.index o.value o_in))
          (omega (arith, length-inserted xs o.index o.value o_in)))
        (apply_move-live m xs m_live m_from m_to)
        (apply_insert-live (record o { index = i' }) _ o_live (omega (arith, moved)))
        (inserted-reorder xs m.from_index m.to_index m_from m_to o.index o.value i' f' t' o_in hi hf
          ht e)

  module _ (o : ArrayRemoveOperation) (o_live : o.no_op ≡ false) (o_in : o.index < length xs) where
    pub remove_move :
        (i' f' t' : ℕ)
        → i' < length xs
        → f' + 1 < length xs
        → t' + 1 < length xs
        → ((k : ℕ) → skip o.index (source f' t' k) ≡ place m (skip i' k))
        → ArraysConverge
            (pair
              (array_remove (record o { index = i' }))
              (array_reorder (record m { from_index = f'; to_index = t' })))
            (array_remove o)
            (array_reorder m)
            xs
    remove_move i' f' t' hi hf ht e =
        Converges-by apply_discrete_operation _ _ _ _ xs _ _ _ _
          (apply_remove-live o xs o_live o_in)
          (apply_move-live (record m { from_index = f'; to_index = t' }) _ m_live
            (omega (arith, length-removed xs o.index o_in))
            (omega (arith, length-removed xs o.index o_in)))
          (apply_move-live m xs m_live m_from m_to)
          (apply_remove-live (record o { index = i' }) _ o_live (omega (arith, moved)))
          (removed-reorder xs m.from_index m.to_index m_from m_to o.index i' f' t' o_in hi hf ht e)

    -- The removal takes away what was moved.
    pub remove_moved :
        (i' : ℕ)
        → i' < length xs
        → ((k : ℕ) → skip o.index k ≡ place m (skip i' k))
        → ArraysConverge
            (pair
              (array_remove (record o { index = i' }))
              (array_reorder (record m { no_op = true })))
            (array_remove o)
            (array_reorder m)
            xs
    remove_moved i' hi e =
        Converges-by apply_discrete_operation _ _ _ _ xs _ _ _ _
          (apply_remove-live o xs o_live o_in) (apply_move-no_op (record m { no_op = true }) _ refl)
          (apply_move-live m xs m_live m_from m_to)
          (apply_remove-live (record o { index = i' }) _ o_live (omega (arith, moved)))
          (removed-moved xs m.from_index m.to_index m_from m_to o.index i' o_in hi e)

  pub replace_move :
      (o : ArrayReplaceOperation V)
      → o.no_op ≡ false
      → o.index < length xs
      → (i' : ℕ) → i' < length xs
      → place m i' ≡ o.index
      → ArraysConverge
          (pair (array_set (record o { index = i' })) (array_reorder m))
          (array_set o)
          (array_reorder m)
          xs
  replace_move o o_live o_in i' hi e =
      Converges-by apply_discrete_operation _ _ _ _ xs _ _ _ _ (apply_set-live o xs o_live o_in)
        (apply_move-live m _ m_live (omega (arith, length-replaced xs o.index o.value o_in))
          (omega (arith, length-replaced xs o.index o.value o_in)))
        (apply_move-live m xs m_live m_from m_to)
        (apply_set-live (record o { index = i' }) _ o_live (omega (arith, moved)))
        (replaced-reorder xs m.from_index m.to_index m_from m_to o.index o.value i' o_in hi e)
