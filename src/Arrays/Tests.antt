-- ===== src/Arrays/Tests.antt =====
-- Runs of the array operations, and the theorem at concrete inputs.
use convergence_client_javas.Base.{
  ℕ, ◌≡◌, refl, false, List, [], ◌∷◌, throws, index_out_of_bounds, ◌==◌, ==_iff, same_text,
  same_text-eq, splice, arith,
}
use convergence_client_javas.Operations.{Converges}
use convergence_client_javas.Arrays.{
  DeepEquals, ArrayOperation, array_remove, array_reorder, reorder, apply_reorder,
  apply_discrete_operation,
}
use convergence_client_javas.Arrays.Transform.Otf.{array_otf}
use convergence_client_javas.Arrays.Convergence.Otf.{array_otf-Converges}

abbrev numbers_equal : DeepEquals ℕ
numbers_equal = record { deep_equals = λ x y. x == y; deep_equals-eq = λ x y e. (==_iff x y).0 e }

abbrev arrays_equal : DeepEquals (List ℕ)
arrays_equal = record { deep_equals = same_text; deep_equals-eq = same_text-eq }

abbrev five : List ℕ
five = 10 ∷ 11 ∷ 12 ∷ 13 ∷ 14 ∷ []

abbrev moving : ℕ → ℕ → ArrayOperation ℕ
moving i j = array_reorder (record { id = "vid"; no_op = false; from_index = i; to_index = j })

abbrev removing : ℕ → ArrayOperation ℕ
removing i = array_remove (record { id = "vid"; no_op = false; index = i })

move_forward : reorder five 1 3 ≡ 10 ∷ 12 ∷ 13 ∷ 11 ∷ 14 ∷ []
unfolding reorder splice
move_forward = refl

move_outside : apply_reorder five 1 5 ≡ throws index_out_of_bounds
unfolding apply_reorder
move_outside = refl

-- The server moves entry 1 to index 3, the client entry 4 to index 2.
array_otf-Converges_example :
    Converges apply_discrete_operation
      (array_otf numbers_equal arrays_equal (moving 1 3) (moving 4 2))
      (moving 1 3)
      (moving 4 2)
      five
array_otf-Converges_example =
    array_otf-Converges numbers_equal arrays_equal (moving 1 3) (moving 4 2) five refl refl
      (omega arith, omega arith) (omega arith, omega arith)
