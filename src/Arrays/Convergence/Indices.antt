-- ===== src/Arrays/Convergence/Indices.antt =====
-- Insertions, removals and replacements against one another: the functions that compare two indices.
use convergence_client_javas.Base.{
  ◌+◌, ◌-◌, ◌≤◌, ◌<◌, ◌≡◌, refl, sym, ap, inl, inr, false, Bool-cases, List, [], ◌∷◌, length, arith,
  leb-cases, ltb-cases, ==-cases,
}
use convergence_client_javas.Operations.{Converges-swap}
use convergence_client_javas.Arrays.{
  DeepEquals, ArrayInsertOperation, ArrayRemoveOperation, ArrayReplaceOperation, array_insert,
  array_remove, array_set, apply_discrete_operation,
}
use convergence_client_javas.Arrays.Transform.Otf.{
  array_insert_insert_otf, array_insert_remove_otf, array_insert_replace_otf,
  array_remove_insert_otf, array_remove_remove_otf, array_remove_replace_otf,
  array_replace_insert_otf, array_replace_remove_otf, array_replace_replace_otf, insert_of_replace,
}
use convergence_client_javas.Arrays.Convergence.AgainstMove.{ArraysConverge}
use convergence_client_javas.Arrays.Convergence.Edits.{
  insert-IsEdit, remove-IsEdit, replace-IsEdit, edits_apart, edits_apart_behind, edits_server,
  edits_same, IsEdit-at,
}

module _ {V : Type 0} (s : ArrayInsertOperation V) (c : ArrayInsertOperation V) (xs : List V)
    (s_live : s.no_op ≡ false) (c_live : c.no_op ≡ false) (s_in : s.index ≤ length xs)
    (c_in : c.index ≤ length xs) where
  pub array_insert_insert_otf-Converges :
      ArraysConverge (array_insert_insert_otf s c) (array_insert s) (array_insert c) xs
  unfolding array_insert_insert_otf
  array_insert_insert_otf-Converges = elim (leb-cases s.index c.index) [
    | inl (t, h) ↦ rw t (
        edits_apart xs (insert-IsEdit s s_live) (insert-IsEdit c c_live)
          (insert-IsEdit (record c { index = c.index + 1 }) c_live) (omega arith) (omega arith)
          (omega arith))
    | inr (t, h) ↦ rw t (
        edits_apart_behind xs (insert-IsEdit c c_live) (insert-IsEdit s s_live)
          (insert-IsEdit (record s { index = s.index + 1 }) s_live) (omega arith) (omega arith)
          (omega arith))
  ]

module _ {V : Type 0} (s : ArrayInsertOperation V) (c : ArrayRemoveOperation) (xs : List V)
    (s_live : s.no_op ≡ false) (c_live : c.no_op ≡ false) (s_in : s.index ≤ length xs)
    (c_in : c.index < length xs) where
  pub array_insert_remove_otf-Converges :
      ArraysConverge (array_insert_remove_otf s c) (array_insert s) (array_remove c) xs
  unfolding array_insert_remove_otf
  array_insert_remove_otf-Converges = elim (leb-cases s.index c.index) [
    | inl (t, h) ↦ rw t (
        edits_apart xs (insert-IsEdit s s_live) (remove-IsEdit c c_live)
          (remove-IsEdit (record c { index = c.index + 1 }) c_live) (omega arith) (omega arith)
          (omega arith))
    | inr (t, h) ↦ rw t (
        edits_apart_behind xs (remove-IsEdit c c_live) (insert-IsEdit s s_live)
          (insert-IsEdit (record s { index = s.index - 1 }) s_live) (omega arith) (omega arith)
          (omega arith))
  ]

module _ {V : Type 0} (s : ArrayInsertOperation V) (c : ArrayReplaceOperation V) (xs : List V)
    (s_live : s.no_op ≡ false) (c_live : c.no_op ≡ false) (s_in : s.index ≤ length xs)
    (c_in : c.index < length xs) where
  pub array_insert_replace_otf-Converges :
      ArraysConverge (array_insert_replace_otf s c) (array_insert s) (array_set c) xs
  unfolding array_insert_replace_otf
  array_insert_replace_otf-Converges = elim (leb-cases s.index c.index) [
    | inl (t, h) ↦ rw t (
        edits_apart xs (insert-IsEdit s s_live) (replace-IsEdit c c_live)
          (replace-IsEdit (record c { index = c.index + 1 }) c_live) (omega arith) (omega arith)
          (omega arith))
    | inr (t, h) ↦ rw t (
        edits_apart_behind xs (replace-IsEdit c c_live) (insert-IsEdit s s_live)
          (insert-IsEdit s s_live) (omega arith) (omega arith) (omega arith))
  ]

module _ {V : Type 0} (s : ArrayRemoveOperation) (c : ArrayInsertOperation V) (xs : List V)
    (s_live : s.no_op ≡ false) (c_live : c.no_op ≡ false) (s_in : s.index < length xs)
    (c_in : c.index ≤ length xs) where
  pub array_remove_insert_otf-Converges :
      ArraysConverge (array_remove_insert_otf s c) (array_remove s) (array_insert c) xs
  unfolding array_remove_insert_otf
  array_remove_insert_otf-Converges = elim (ltb-cases s.index c.index) [
    | inl (t, h) ↦ rw t (
        edits_apart xs (remove-IsEdit s s_live) (insert-IsEdit c c_live)
          (insert-IsEdit (record c { index = c.index - 1 }) c_live) (omega arith) (omega arith)
          (omega arith))
    | inr (t, h) ↦ rw t (
        edits_apart_behind xs (insert-IsEdit c c_live) (remove-IsEdit s s_live)
          (remove-IsEdit (record s { index = s.index + 1 }) s_live) (omega arith) (omega arith)
          (omega arith))
  ]

module _ {V : Type 0} (s : ArrayReplaceOperation V) (c : ArrayInsertOperation V) (xs : List V)
    (s_live : s.no_op ≡ false) (c_live : c.no_op ≡ false) (s_in : s.index < length xs)
    (c_in : c.index ≤ length xs) where
  pub array_replace_insert_otf-Converges :
      ArraysConverge (array_replace_insert_otf s c) (array_set s) (array_insert c) xs
  unfolding array_replace_insert_otf
  array_replace_insert_otf-Converges = elim (ltb-cases s.index c.index) [
    | inl (t, h) ↦ rw t (
        edits_apart xs (replace-IsEdit s s_live) (insert-IsEdit c c_live) (insert-IsEdit c c_live)
          (omega arith) (omega arith) (omega arith))
    | inr (t, h) ↦ rw t (
        edits_apart_behind xs (insert-IsEdit c c_live) (replace-IsEdit s s_live)
          (replace-IsEdit (record s { index = s.index + 1 }) s_live) (omega arith) (omega arith)
          (omega arith))
  ]

module _ {V : Type 0} (s : ArrayRemoveOperation) (c : ArrayRemoveOperation) (xs : List V)
    (s_live : s.no_op ≡ false) (c_live : c.no_op ≡ false) (s_in : s.index < length xs)
    (c_in : c.index < length xs) where
  pub array_remove_remove_otf-Converges :
      ArraysConverge (array_remove_remove_otf s c) (array_remove s) (array_remove c) xs
  unfolding array_remove_remove_otf
  array_remove_remove_otf-Converges = elim (==-cases s.index c.index) [
    | inl (t, e) ↦ rw t (
        edits_same xs _ _ (remove-IsEdit s s_live) (IsEdit-at (sym e) (remove-IsEdit c c_live)) refl
          refl refl s_in)
    | inr (t, n) ↦ elim (ltb-cases s.index c.index) [
      | inl (u, h) ↦
          rw (t, u)
            (edits_apart xs (remove-IsEdit s s_live) (remove-IsEdit c c_live)
              (remove-IsEdit (record c { index = c.index - 1 }) c_live) (omega arith) (omega arith)
              (omega arith))
      | inr (u, h) ↦
          rw (t, u)
            (edits_apart_behind xs (remove-IsEdit c c_live) (remove-IsEdit s s_live)
              (remove-IsEdit (record s { index = s.index - 1 }) s_live) (omega arith) (omega arith)
              (omega arith))
    ]
  ]

module _ {V : Type 0} (s : ArrayRemoveOperation) (c : ArrayReplaceOperation V) (xs : List V)
    (s_live : s.no_op ≡ false) (c_live : c.no_op ≡ false) (s_in : s.index < length xs)
    (c_in : c.index < length xs) where
  pub array_remove_replace_otf-Converges :
      ArraysConverge (array_remove_replace_otf s c) (array_remove s) (array_set c) xs
  unfolding array_remove_replace_otf
  array_remove_replace_otf-Converges = elim (ltb-cases s.index c.index) [
    | inl (t, h) ↦ rw t (
        edits_apart xs (remove-IsEdit s s_live) (replace-IsEdit c c_live)
          (replace-IsEdit (record c { index = c.index - 1 }) c_live) (omega arith) (omega arith)
          (omega arith))
    | inr (t, h) ↦ elim (==-cases s.index c.index) [
      | inl (u, e) ↦
          rw (t, u)
            (Converges-swap apply_discrete_operation _ _ _ _ xs (
              edits_server xs _ (replace-IsEdit c c_live) (IsEdit-at e (remove-IsEdit s s_live))
                (insert-IsEdit (insert_of_replace c) c_live) refl refl c_in))
      | inr (u, n) ↦
          rw (t, u)
            (edits_apart_behind xs (replace-IsEdit c c_live) (remove-IsEdit s s_live)
              (remove-IsEdit s s_live) (omega arith) (omega arith) (omega arith))
    ]
  ]

module _ {V : Type 0} (s : ArrayReplaceOperation V) (c : ArrayRemoveOperation) (xs : List V)
    (s_live : s.no_op ≡ false) (c_live : c.no_op ≡ false) (s_in : s.index < length xs)
    (c_in : c.index < length xs) where
  pub array_replace_remove_otf-Converges :
      ArraysConverge (array_replace_remove_otf s c) (array_set s) (array_remove c) xs
  unfolding array_replace_remove_otf
  array_replace_remove_otf-Converges = elim (ltb-cases s.index c.index) [
    | inl (t, h) ↦ rw t (
        edits_apart xs (replace-IsEdit s s_live) (remove-IsEdit c c_live) (remove-IsEdit c c_live)
          (omega arith) (omega arith) (omega arith))
    | inr (t, h) ↦ elim (==-cases s.index c.index) [
      | inl (u, e) ↦
          rw (t, u)
            (edits_server xs _ (replace-IsEdit s s_live)
              (IsEdit-at (sym e) (remove-IsEdit c c_live))
              (insert-IsEdit (insert_of_replace s) s_live) refl refl s_in)
      | inr (u, n) ↦
          rw (t, u)
            (edits_apart_behind xs (remove-IsEdit c c_live) (replace-IsEdit s s_live)
              (replace-IsEdit (record s { index = s.index - 1 }) s_live) (omega arith) (omega arith)
              (omega arith))
    ]
  ]

module _ {V : Type 0} (d : DeepEquals V) (ds : DeepEquals (List V)) (s c : ArrayReplaceOperation V)
    (xs : List V) (s_live : s.no_op ≡ false) (c_live : c.no_op ≡ false) (s_in : s.index < length xs)
    (c_in : c.index < length xs) where
  pub array_replace_replace_otf-Converges :
      ArraysConverge (array_replace_replace_otf d ds s c) (array_set s) (array_set c) xs
  unfolding array_replace_replace_otf
  array_replace_replace_otf-Converges = elim (==-cases s.index c.index) [
    | inl (t, e) ↦ elim (Bool-cases (d.deep_equals s.value c.value)) [
      | inl u ↦
          rw (t, u)
            (edits_same xs _ _ (replace-IsEdit s s_live)
              (IsEdit-at (sym e) (replace-IsEdit c c_live)) refl refl
              (ap (λ v. v ∷ []) (d.deep_equals-eq s.value c.value u)) s_in)
      | inr u ↦
          rw (t, u)
            (edits_server xs _ (replace-IsEdit s s_live)
              (IsEdit-at (sym e) (replace-IsEdit c c_live)) (replace-IsEdit s s_live) refl refl
              s_in)
    ]
    | inr (t, n) ↦ elim (ltb-cases s.index c.index) [
      | inl (u, h) ↦ rw t (
          edits_apart xs (replace-IsEdit s s_live) (replace-IsEdit c c_live)
            (replace-IsEdit c c_live) (omega arith) (omega arith) (omega arith))
      | inr (u, h) ↦ rw t (
          edits_apart_behind xs (replace-IsEdit c c_live) (replace-IsEdit s s_live)
            (replace-IsEdit s s_live) (omega arith) (omega arith) (omega arith))
    ]
  ]
