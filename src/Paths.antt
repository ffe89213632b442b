-- ===== src/Paths.antt =====
-- PathComparator (src/main/model/ot/util/PathComparator.ts): the comparisons of two paths in a model.
-- An element of a path is a key or an index.
pub mod Order
pub mod Siblings
pub mod Tests
use Prim.Native.String.{String}
use text.Mathlib.Text.{◌==◌ as same_string}
use convergence_client_javas.Base.{
  ℕ, zero, suc, ◌+◌, ◌-◌, Bool, true, false, not, ◌&&◌, ◌||◌, Option, none, some, List, [], ◌∷◌,
  length, get_elem?, leb, ◌==◌, if◌then◌else◌,
}

pub data PathElement : Type 0 where
  key : String → PathElement
  index : ℕ → PathElement

abbrev pub PathToNode : Type 0
PathToNode = List PathElement

-- `===` of two elements.
unfoldable pub same_element : PathElement → PathElement → Bool
same_element (key a) (key b) = same_string a b
same_element (index a) (index b) = a == b
same_element (key a) (index b) = false
same_element (index a) (key b) = false

-- `p.every((element, index) => element === q[index])`; past the end of `q` stands undefined.
unfoldable pub every_equal : PathToNode → PathToNode → Bool
every_equal [] q = true
every_equal (e ∷ p) [] = false
every_equal (e ∷ p) (f ∷ q) = same_element e f && every_equal p q

unfoldable pub are_equal : PathToNode → PathToNode → Bool
are_equal p1 p2 = (length p1 == length p2) && every_equal p1 p2

unfoldable pub is_child_of : PathToNode → PathToNode → Bool
is_child_of p1 p2 = if not (length p1 == length p2 + 1) then false else every_equal p2 p1

unfoldable pub is_parent_of : PathToNode → PathToNode → Bool
is_parent_of p1 p2 = is_child_of p2 p1

unfoldable pub is_descendant_of : PathToNode → PathToNode → Bool
is_descendant_of p1 p2 = if leb (length p1) (length p2) then false else every_equal p2 p1

unfoldable pub is_ancestor_of : PathToNode → PathToNode → Bool
is_ancestor_of p1 p2 = is_descendant_of p2 p1

-- `element === q[index]`, and `p[i] === q[j]`.
abbrev pub is_element : PathElement → Option PathElement → Bool
is_element e none = false
is_element e (some f) = same_element e f

abbrev pub same_elements : Option PathElement → Option PathElement → Bool
same_elements none none = true
same_elements none (some f) = false
same_elements (some e) f = is_element e f

-- The `every` of `areSiblings`, from an index on: the elements compared are those of `p1` itself.
unfoldable pub every_sibling : PathToNode → ℕ → ℕ → PathToNode → Bool
every_sibling p1 last i [] = true
every_sibling p1 last i (e ∷ p) =
    ((i == last) || is_element e (get_elem? p1 i)) && every_sibling p1 last (suc i) p

unfoldable pub are_siblings : PathToNode → PathToNode → Bool
are_siblings p1 p2 =
    if not (length p1 == length p2)
    then false
    else if length p1 == 0
    then false
    else if same_elements (get_elem? p1 (length p1 - 1)) (get_elem? p2 (length p2 - 1))
    then false
    else every_sibling p1 (length p2 - 1) 0 p1
