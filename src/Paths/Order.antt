-- ===== src/Paths/Order.antt =====
-- Equality, children and descendants of paths (src/main/model/ot/util/PathComparator.ts).
use text.Mathlib.TextEquality.{eq_iff}
use convergence_client_javas.Base.{
  Bool, ◌+◌, ◌<◌, ◌≡◌, ◌↔◌, refl, sym, ap, ◌∙◌, inl, inr, true, false, true≢false, ◌&&◌, leb-cases,
  Bool-cases, [], ◌∷◌, ◌++◌, length, length-append, ◌==◌, ==_iff, arith,
}
use convergence_client_javas.Paths.{
  PathElement, key, index, PathToNode, same_element, every_equal, is_child_of, is_descendant_of,
}

same_element_eq : (e f : PathElement) → same_element e f ≡ true → e ≡ f
unfolding same_element
same_element_eq (key a) (key b) h = ap key ((eq_iff a b).0 h)
same_element_eq (index a) (index b) h = ap index ((==_iff a b).0 h)
same_element_eq (key a) (index b) h = cc
same_element_eq (index a) (key b) h = cc

pub same_element_refl : (e : PathElement) → same_element e e ≡ true
unfolding same_element
same_element_refl (key a) = (eq_iff a a).1 refl
same_element_refl (index a) = (==_iff a a).1 refl

both_true : (a b : Bool) → (a && b) ≡ true → (a ≡ true) × (b ≡ true)
both_true true true h = (refl, refl)
both_true true false h = cc
both_true false b h = cc

every_equal_prefix :
    (p q : PathToNode) → every_equal p q ≡ true → (rest : PathToNode) × (q ≡ p ++ rest)
unfolding every_equal
every_equal_prefix [] q h = (q, refl)
every_equal_prefix (e ∷ p) [] h = absurd cc
every_equal_prefix (e ∷ p) (f ∷ q) h =
    let b = both_true (same_element e f) (every_equal p q) h in
    let r = every_equal_prefix p q b.1 in (r.0, rw (sym (same_element_eq e f b.0), r.1) refl)

every_equal_append : (p rest : PathToNode) → every_equal p (p ++ rest) ≡ true
unfolding every_equal
every_equal_append [] rest = refl
every_equal_append (e ∷ p) rest = rw (same_element_refl e) (every_equal_append p rest)

one_element :
    (p1 p2 rest : PathToNode)
    → length p1 ≡ length p2 + 1
    → p1 ≡ p2 ++ rest
    → (e : PathElement) × (p1 ≡ p2 ++ e ∷ [])
one_element p1 p2 [] n h =
    let m : length p1 ≡ length p2 + 0 = ap length h ∙ length-append p2 [] in absurd (omega arith)
one_element p1 p2 (e ∷ []) n h = (e, h)
one_element p1 p2 (e ∷ f ∷ rest) n h =
    let m : length p1 ≡ length p2 + (length rest + 2) =
      ap length h ∙ (length-append p2 (e ∷ f ∷ rest) ∙ omega arith) in
    absurd (omega arith)

some_elements :
    (p1 p2 rest : PathToNode)
    → length p2 < length p1
    → p1 ≡ p2 ++ rest
    → (e : PathElement) × (below : PathToNode) × (p1 ≡ p2 ++ e ∷ below)
some_elements p1 p2 [] n h =
    let m : length p1 ≡ length p2 + 0 = ap length h ∙ length-append p2 [] in absurd (omega arith)
some_elements p1 p2 (e ∷ rest) n h = (e, rest, h)

is_child_of-true :
    (p1 p2 : PathToNode) → is_child_of p1 p2 ≡ true → (e : PathElement) × (p1 ≡ p2 ++ e ∷ [])
unfolding is_child_of
is_child_of-true p1 p2 h = elim (Bool-cases (length p1 == length p2 + 1)) [
  | inl t ↦
      let step : is_child_of p1 p2 ≡ every_equal p2 p1 = rw t refl in
      let r = every_equal_prefix p2 p1 (sym step ∙ h) in
      one_element p1 p2 r.0 ((==_iff (length p1) (length p2 + 1)).0 t) r.1
  | inr t ↦ let step : is_child_of p1 p2 ≡ false = rw t refl in absurd (true≢false (sym h ∙ step))
]

child_true : (p2 : PathToNode) (e : PathElement) → is_child_of (p2 ++ e ∷ []) p2 ≡ true
unfolding is_child_of
child_true p2 e =
    rw (length-append p2 (e ∷ []), (==_iff (length p2 + 1) (length p2 + 1)).1 refl)
      (every_equal_append p2 (e ∷ []))

-- The first path is a child of the second just where it is the second with one element more.
pub is_child_of-true_iff :
    (p1 p2 : PathToNode) → (is_child_of p1 p2 ≡ true) ↔ ((e : PathElement) × (p1 ≡ p2 ++ e ∷ []))
is_child_of-true_iff p1 p2 = (is_child_of-true p1 p2, λ r. rw r.1 (child_true p2 r.0))

is_descendant_of-true :
    (p1 p2 : PathToNode)
    → is_descendant_of p1 p2 ≡ true
    → (e : PathElement) × (below : PathToNode) × (p1 ≡ p2 ++ e ∷ below)
unfolding is_descendant_of
is_descendant_of-true p1 p2 h = elim (leb-cases (length p1) (length p2)) [
  | inl (t, n) ↦
      let step : is_descendant_of p1 p2 ≡ false = rw t refl in absurd (true≢false (sym h ∙ step))
  | inr (t, n) ↦
      let step : is_descendant_of p1 p2 ≡ every_equal p2 p1 = rw t refl in
      let r = every_equal_prefix p2 p1 (sym step ∙ h) in some_elements p1 p2 r.0 n r.1
]

descendant_true :
    (p2 : PathToNode) (e : PathElement) (below : PathToNode)
    → is_descendant_of (p2 ++ e ∷ below) p2 ≡ true
unfolding is_descendant_of
descendant_true p2 e below = elim (leb-cases (length (p2 ++ e ∷ below)) (length p2)) [
  | inl (t, n) ↦
      let m : length (p2 ++ e ∷ below) ≡ length p2 + (length below + 1) =
        length-append p2 (e ∷ below) ∙ omega arith in
      absurd (omega arith)
  | inr (t, n) ↦ rw t (every_equal_append p2 (e ∷ below))
]

-- The first path is a descendant of the second just where it is the second with one element or
-- more after it.
pub is_descendant_of-true_iff :
    (p1 p2 : PathToNode)
    → (is_descendant_of p1 p2 ≡ true)
      ↔ ((e : PathElement) × (below : PathToNode) × (p1 ≡ p2 ++ e ∷ below))
is_descendant_of-true_iff p1 p2 =
    (is_descendant_of-true p1 p2, λ r. rw r.2 (descendant_true p2 r.0 r.1))
