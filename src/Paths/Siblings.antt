-- ===== src/Paths/Siblings.antt =====
-- `areSiblings` (src/main/model/ot/util/PathComparator.ts).
use convergence_client_javas.Base.{
  ℕ, suc, ◌+◌, ◌-◌, ◌<◌, ◌≡◌, refl, ap, ◌∙◌, true, false, ◌||◌, Bool, some, [], ◌∷◌, length,
  get_elem?, ◌==◌, ==_iff, ==-cases, inl, inr, arith,
}
use convergence_client_javas.Paths.{PathToNode, same_elements, every_sibling, are_siblings}
use convergence_client_javas.Paths.Order.{same_element_refl}

or_true : (b : Bool) → (b || true) ≡ true
or_true true = refl
or_true false = refl

every_sibling_self :
    (p1 p : PathToNode) (last i : ℕ)
    → ((j : ℕ) → get_elem? p1 (i + j) ≡ get_elem? p j)
    → every_sibling p1 last i p ≡ true
unfolding every_sibling
every_sibling_self p1 [] last i h = refl
every_sibling_self p1 (e ∷ p) last i h =
    let here : get_elem? p1 i ≡ some e = ap (get_elem? p1) (omega arith) ∙ h 0 in
    let there : (j : ℕ) → get_elem? p1 (suc i + j) ≡ get_elem? p j =
      λ j. ap (get_elem? p1) (omega arith) ∙ h (suc j) in
    rw (here, same_element_refl e, or_true (i == last)) (every_sibling_self p1 p last (suc i) there)

-- Two paths of one positive length with different last elements are siblings for the code, whatever
-- their elements before the last are.
pub are_siblings_ignores_parents :
    (p1 p2 : PathToNode)
    → length p1 ≡ length p2
    → 0 < length p1
    → same_elements (get_elem? p1 (length p1 - 1)) (get_elem? p2 (length p2 - 1)) ≡ false
    → are_siblings p1 p2 ≡ true
unfolding are_siblings
are_siblings_ignores_parents p1 p2 n z d = elim (==-cases (length p1) 0) [
  | inl (t, e) ↦ absurd (omega arith)
  | inr (t, e) ↦
      rw ((==_iff (length p1) (length p2)).1 n, t, d)
        (every_sibling_self p1 p1 (length p2 - 1) 0 (λ j. ap (get_elem? p1) (omega arith)))
]
