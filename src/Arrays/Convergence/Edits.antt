-- ===== src/Arrays/Convergence/Edits.antt =====
-- Insertions, removals and replacements as edits of one list: what two of them need so that both
-- sites end with one list.
use convergence_client_javas.Base.{
  ℕ, ◌+◌, ◌≤◌, ◌<◌, ◌≡◌, sym, ap, subst, true, false, List, [], ◌∷◌, length, ok, arith, splice,
  length-splice,
}
use convergence_client_javas.Base.Splice.{splice_disjoint, splice_contained}
use convergence_client_javas.Operations.{pair, Converges-by, Converges-swap}
use convergence_client_javas.Arrays.{
  ArrayInsertOperation, ArrayRemoveOperation, ArrayReplaceOperation, ArrayOperation, is_no_op,
  array_insert, array_remove, array_set, apply_discrete_operation,
}
use convergence_client_javas.Arrays.Convergence.AgainstMove.{
  ArraysConverge, apply_insert-live, apply_remove-live, apply_set-live, apply-no_op,
}

-- An operation that edits `n` entries at `i`.
pub record IsEdit {V : Type 0} (o : ArrayOperation V) (i n : ℕ) (items : List V) : Type 0 where
  pub applies :
      (xs : List V) → i + n ≤ length xs → apply_discrete_operation o xs ≡ ok (splice xs i n items)

module _ {V : Type 0} where
  pub insert-IsEdit :
      (o : ArrayInsertOperation V)
      → o.no_op ≡ false
      → IsEdit (array_insert o) o.index 0 (o.value ∷ [])
  insert-IsEdit o live = record { applies = λ xs h. apply_insert-live o xs live (omega arith) }

  pub remove-IsEdit :
      (o : ArrayRemoveOperation) → o.no_op ≡ false → IsEdit {V = V} (array_remove o) o.index 1 []
  remove-IsEdit o live = record { applies = λ xs h. apply_remove-live o xs live (omega arith) }

  pub replace-IsEdit :
      (o : ArrayReplaceOperation V)
      → o.no_op ≡ false
      → IsEdit (array_set o) o.index 1 (o.value ∷ [])
  replace-IsEdit o live = record { applies = λ xs h. apply_set-live o xs live (omega arith) }

  -- Two edits of which the first ends at or before the second: the second is shifted.
  pub edits_apart :
      (xs : List V) {s c c' : ArrayOperation V} {i n j m j' : ℕ} {a b : List V}
      → IsEdit s i n a
      → IsEdit c j m b
      → IsEdit c' j' m b
      → i + n ≤ j
      → j + m ≤ length xs
      → j' + n ≡ j + length a
      → ArraysConverge (pair s c') s c xs
  edits_apart xs {i = i} {n} {j} {m} {j'} {a} {b} es ec ec' h fits e =
      Converges-by apply_discrete_operation _ _ _ _ xs _ _ _ _ (es.applies xs (omega arith))
        (ec'.applies (splice xs i n a) (omega (arith, length-splice xs i n a (omega arith))))
        (ec.applies xs fits)
        (es.applies (splice xs j m b) (omega (arith, length-splice xs j m b fits)))
        (splice_disjoint xs a b i n j m j' h fits e)

  -- The same with the server's operation behind the client's.
  pub edits_apart_behind :
      (xs : List V) {s c s' : ArrayOperation V} {i n j m j' : ℕ} {a b : List V}
      → IsEdit c i n a
      → IsEdit s j m b
      → IsEdit s' j' m b
      → i + n ≤ j
      → j + m ≤ length xs
      → j' + n ≡ j + length a
      → ArraysConverge (pair s' c) s c xs
  edits_apart_behind xs ec es es' h fits e =
      Converges-swap apply_discrete_operation _ _ _ _ xs (edits_apart xs ec es es' h fits e)

  -- Two edits of one entry, of which the server's wins.
  pub edits_server :
      (xs : List V) (c' : ArrayOperation V) {s c s' : ArrayOperation V} {i m : ℕ} {a b : List V}
      → IsEdit s i 1 a
      → IsEdit c i 1 b
      → IsEdit s' i m a
      → is_no_op c' ≡ true
      → length b ≡ m
      → i < length xs
      → ArraysConverge (pair s' c') s c xs
  edits_server xs c' {i = i} {m} {a} {b} es ec es' off l h =
      Converges-by apply_discrete_operation _ _ _ _ xs _ _ _ _ (es.applies xs (omega arith))
        (apply-no_op c' (splice xs i 1 a) off) (ec.applies xs (omega arith))
        (es'.applies (splice xs i 1 b) (omega (arith, length-splice xs i 1 b (omega arith))))
        (sym (
          splice_contained xs a b i 1 i 1 m (omega arith) (omega arith) (omega arith)
            (omega arith)))

  -- Two edits of one entry that are the same.
  pub edits_same :
      (xs : List V) (s' c' : ArrayOperation V) {s c : ArrayOperation V} {i : ℕ} {a b : List V}
      → IsEdit s i 1 a
      → IsEdit c i 1 b
      → is_no_op s' ≡ true
      → is_no_op c' ≡ true
      → a ≡ b
      → i < length xs
      → ArraysConverge (pair s' c') s c xs
  edits_same xs s' c' {i = i} {a} {b} es ec s_off c_off e h =
      Converges-by apply_discrete_operation _ _ _ _ xs _ _ _ _ (es.applies xs (omega arith))
        (apply-no_op c' (splice xs i 1 a) c_off) (ec.applies xs (omega arith))
        (apply-no_op s' (splice xs i 1 b) s_off) (ap (splice xs i 1) e)

  pub IsEdit-at :
      {o : ArrayOperation V} {i j n : ℕ} {a : List V} → i ≡ j → IsEdit o i n a → IsEdit o j n a
  IsEdit-at {o} {n = n} {a} e h = subst (λ k. IsEdit o k n a) e h
