-- ===== src/Paths/Tests.antt =====
-- Comparisons of paths at concrete paths, and the theorems at them.
use convergence_client_javas.Base.{◌≡◌, ◌↔◌, refl, true, [], ◌∷◌, ◌++◌, arith}
use convergence_client_javas.Paths.{
  PathElement, PathToNode, key, index, same_element, is_child_of, is_descendant_of, are_siblings,
}
use convergence_client_javas.Paths.Order.{is_child_of-true_iff, is_descendant_of-true_iff}
use convergence_client_javas.Paths.Siblings.{are_siblings_ignores_parents}

abbrev second_item : PathToNode
second_item = key "items" ∷ index 1 ∷ []

abbrev third_line : PathToNode
third_line = key "lines" ∷ index 2 ∷ []

is_child_of-true_iff_example :
    (is_child_of second_item (key "items" ∷ []) ≡ true)
    ↔ ((e : PathElement) × (second_item ≡ (key "items" ∷ []) ++ e ∷ []))
is_child_of-true_iff_example = is_child_of-true_iff second_item (key "items" ∷ [])

is_descendant_of-true_iff_example :
    (is_descendant_of second_item [] ≡ true)
    ↔ ((e : PathElement) × (below : PathToNode) × (second_item ≡ [] ++ e ∷ below))
is_descendant_of-true_iff_example = is_descendant_of-true_iff second_item []

-- The parents of the two paths differ.
are_siblings_ignores_parents_example : are_siblings second_item third_line ≡ true
unfolding same_element
are_siblings_ignores_parents_example =
    are_siblings_ignores_parents second_item third_line refl (omega arith) refl
