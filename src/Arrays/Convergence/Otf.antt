-- ===== src/Arrays/Convergence/Otf.antt =====
-- The functions that the registry holds for two array operations
-- (src/main/model/ot/xform/TransformationFunctionRegistry.ts), all pairs together.
use convergence_client_javas.Base.{
  ◌≤◌, ◌<◌, ◌≡◌, refl, inl, inr, true, false, Bool-cases, List, length, ok,
}
use convergence_client_javas.Operations.{Converges, Converges-by, Converges-swap}
use convergence_client_javas.Arrays.{
  DeepEquals, ArraySetOperation, ArrayOperation, is_no_op, array_insert, array_remove, array_set,
  array_reorder, array_value, reorder, handle_model_operation_event, apply_discrete_operation,
}
use convergence_client_javas.Arrays.Transform.Otf.{
  array_otf, array_set_set_otf, array_other_set_otf, array_set_other_otf, copy_no_op,
}
use convergence_client_javas.Arrays.Convergence.Moves.{apply_move-live}
use convergence_client_javas.Arrays.Convergence.Lists.{inserted, removed, replaced}
use convergence_client_javas.Arrays.Convergence.AgainstMove.{
  ArraysConverge, apply_insert-live, apply_remove-live, apply_set-live, apply-no_op,
}
use convergence_client_javas.Arrays.Convergence.Indices.{
  array_insert_insert_otf-Converges, array_insert_remove_otf-Converges,
  array_insert_replace_otf-Converges, array_remove_insert_otf-Converges,
  array_remove_remove_otf-Converges, array_remove_replace_otf-Converges,
  array_replace_insert_otf-Converges, array_replace_remove_otf-Converges,
  array_replace_replace_otf-Converges,
}
use convergence_client_javas.Arrays.Convergence.Directions.{array_move_move_otf-Converges}
use convergence_client_javas.Arrays.Convergence.AgainstMoveOtf.{
  array_insert_move_otf-Converges, array_remove_move_otf-Converges,
  array_replace_move_otf-Converges, array_move_insert_otf-Converges,
  array_move_remove_otf-Converges, array_move_replace_otf-Converges,
}

module _ {V : Type 0} where
  -- The indices of an operation lie in the array.
  abbrev pub FitsArray : ArrayOperation V → List V → Type 0
  FitsArray (array_insert o) xs = o.index ≤ length xs
  FitsArray (array_remove o) xs = o.index < length xs
  FitsArray (array_set o) xs = o.index < length xs
  FitsArray (array_reorder o) xs = (o.from_index < length xs) × (o.to_index < length xs)
  FitsArray (array_value o) xs = Unit {0}

  apply_value-live :
      (o : ArraySetOperation V) (xs : List V)
      → o.no_op ≡ false
      → apply_discrete_operation (array_value o) xs ≡ ok o.value
  unfolding apply_discrete_operation handle_model_operation_event
  apply_value-live o xs live = rw live refl

  apply_live :
      (o : ArrayOperation V) (xs : List V)
      → is_no_op o ≡ false
      → FitsArray o xs
      → (ys : List V) × (apply_discrete_operation o xs ≡ ok ys)
  apply_live (array_insert o) xs live h =
      (inserted xs o.index o.value, apply_insert-live o xs live h)
  apply_live (array_remove o) xs live h = (removed xs o.index, apply_remove-live o xs live h)
  apply_live (array_set o) xs live h = (replaced xs o.index o.value, apply_set-live o xs live h)
  apply_live (array_reorder o) xs live h =
      (reorder xs o.from_index o.to_index, apply_move-live o xs live h.0 h.1)
  apply_live (array_value o) xs live h = (o.value, apply_value-live o xs live)

  is_no_op-copy_no_op : (o : ArrayOperation V) → is_no_op (copy_no_op o) ≡ true
  is_no_op-copy_no_op (array_insert o) = refl
  is_no_op-copy_no_op (array_remove o) = refl
  is_no_op-copy_no_op (array_set o) = refl
  is_no_op-copy_no_op (array_reorder o) = refl
  is_no_op-copy_no_op (array_value o) = refl

  module _ (s : ArraySetOperation V) (c : ArrayOperation V) (xs : List V) (s_live : s.no_op ≡ false)
      (c_live : is_no_op c ≡ false) (c_in : FitsArray c xs) where
    array_set_other_otf-Converges : ArraysConverge (array_set_other_otf s c) (array_value s) c xs
    unfolding array_set_other_otf
    array_set_other_otf-Converges =
        Converges-by apply_discrete_operation _ _ _ _ xs _ _ _ _ (apply_value-live s xs s_live)
          (apply-no_op (copy_no_op c) s.value (is_no_op-copy_no_op c))
          (apply_live c xs c_live c_in).1 (apply_value-live s _ s_live) refl

    array_other_set_otf-Converges : ArraysConverge (array_other_set_otf c s) c (array_value s) xs
    unfolding array_other_set_otf array_set_other_otf
    array_other_set_otf-Converges =
        Converges-swap apply_discrete_operation _ _ _ _ xs array_set_other_otf-Converges

  module _ (d : DeepEquals V) (ds : DeepEquals (List V)) where
    array_set_set_otf-Converges :
        (s c : ArraySetOperation V) (xs : List V)
        → s.no_op ≡ false
        → c.no_op ≡ false
        → ArraysConverge (array_set_set_otf d ds s c) (array_value s) (array_value c) xs
    unfolding array_set_set_otf
    array_set_set_otf-Converges s c xs s_live c_live =
        elim (Bool-cases (ds.deep_equals s.value c.value)) [
          | inl e ↦ rw e (
              Converges-by apply_discrete_operation _ _ _ _ xs _ _ _ _
                (apply_value-live s xs s_live)
                (apply-no_op (array_value (record c { no_op = true })) s.value refl)
                (apply_value-live c xs c_live)
                (apply-no_op (array_value (record s { no_op = true })) c.value refl)
                (ds.deep_equals-eq s.value c.value e))
          | inr e ↦ rw e (
              Converges-by apply_discrete_operation _ _ _ _ xs _ _ _ _
                (apply_value-live s xs s_live)
                (apply-no_op (array_value (record c { no_op = true })) s.value refl)
                (apply_value-live c xs c_live) (apply_value-live s c.value s_live) refl)
        ]

-- For two array operations whose indices lie in the array, of which neither is a no-op, the
-- function that the registry holds for their two types gives a pair with which both sites end with
-- one array, and none of the four applications throws.
pub array_otf-Converges :
    {V : Type 0} (d : DeepEquals V) (ds : DeepEquals (List V)) (s c : ArrayOperation V)
    (xs : List V)
    → is_no_op s ≡ false
    → is_no_op c ≡ false
    → FitsArray s xs
    → FitsArray c xs
    → Converges apply_discrete_operation (array_otf d ds s c) s c xs
unfolding array_otf
array_otf-Converges d ds (array_insert s) (array_insert c) xs sl cl si ci =
    array_insert_insert_otf-Converges s c xs sl cl si ci
array_otf-Converges d ds (array_insert s) (array_remove c) xs sl cl si ci =
    array_insert_remove_otf-Converges s c xs sl cl si ci
array_otf-Converges d ds (array_insert s) (array_set c) xs sl cl si ci =
    array_insert_replace_otf-Converges s c xs sl cl si ci
array_otf-Converges d ds (array_insert s) (array_reorder c) xs sl cl si ci =
    array_insert_move_otf-Converges (record { m_live = cl; m_from = ci.0; m_to = ci.1 }) s sl si
array_otf-Converges d ds (array_remove s) (array_insert c) xs sl cl si ci =
    array_remove_insert_otf-Converges s c xs sl cl si ci
array_otf-Converges d ds (array_remove s) (array_remove c) xs sl cl si ci =
    array_remove_remove_otf-Converges s c xs sl cl si ci
array_otf-Converges d ds (array_remove s) (array_set c) xs sl cl si ci =
    array_remove_replace_otf-Converges s c xs sl cl si ci
array_otf-Converges d ds (array_remove s) (array_reorder c) xs sl cl si ci =
    array_remove_move_otf-Converges (record { m_live = cl; m_from = ci.0; m_to = ci.1 }) s sl si
array_otf-Converges d ds (array_set s) (array_insert c) xs sl cl si ci =
    array_replace_insert_otf-Converges s c xs sl cl si ci
array_otf-Converges d ds (array_set s) (array_remove c) xs sl cl si ci =
    array_replace_remove_otf-Converges s c xs sl cl si ci
array_otf-Converges d ds (array_set s) (array_set c) xs sl cl si ci =
    array_replace_replace_otf-Converges d ds s c xs sl cl si ci
array_otf-Converges d ds (array_set s) (array_reorder c) xs sl cl si ci =
    array_replace_move_otf-Converges (record { m_live = cl; m_from = ci.0; m_to = ci.1 }) s sl si
array_otf-Converges d ds (array_reorder s) (array_insert c) xs sl cl si ci =
    array_move_insert_otf-Converges (record { m_live = sl; m_from = si.0; m_to = si.1 }) c cl ci
array_otf-Converges d ds (array_reorder s) (array_remove c) xs sl cl si ci =
    array_move_remove_otf-Converges (record { m_live = sl; m_from = si.0; m_to = si.1 }) c cl ci
array_otf-Converges d ds (array_reorder s) (array_set c) xs sl cl si ci =
    array_move_replace_otf-Converges (record { m_live = sl; m_from = si.0; m_to = si.1 }) c cl ci
array_otf-Converges d ds (array_reorder s) (array_reorder c) xs sl cl si ci =
    array_move_move_otf-Converges
      (record { s_live = sl; c_live = cl; s_from = si.0; s_to = si.1; c_from = ci.0; c_to = ci.1 })
array_otf-Converges d ds (array_value s) (array_value c) xs sl cl si ci =
    array_set_set_otf-Converges d ds s c xs sl cl
array_otf-Converges d ds (array_value s) (array_insert c) xs sl cl si ci =
    array_set_other_otf-Converges s (array_insert c) xs sl cl ci
array_otf-Converges d ds (array_value s) (array_remove c) xs sl cl si ci =
    array_set_other_otf-Converges s (array_remove c) xs sl cl ci
array_otf-Converges d ds (array_value s) (array_set c) xs sl cl si ci =
    array_set_other_otf-Converges s (array_set c) xs sl cl ci
array_otf-Converges d ds (array_value s) (array_reorder c) xs sl cl si ci =
    array_set_other_otf-Converges s (array_reorder c) xs sl cl ci
array_otf-Converges d ds (array_insert s) (array_value c) xs sl cl si ci =
    array_other_set_otf-Converges c (array_insert s) xs cl sl si
array_otf-Converges d ds (array_remove s) (array_value c) xs sl cl si ci =
    array_other_set_otf-Converges c (array_remove s) xs cl sl si
array_otf-Converges d ds (array_set s) (array_value c) xs sl cl si ci =
    array_other_set_otf-Converges c (array_set s) xs cl sl si
array_otf-Converges d ds (array_reorder s) (array_value c) xs sl cl si ci =
    array_other_set_otf-Converges c (array_reorder s) xs cl sl si
