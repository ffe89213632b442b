-- ===== src/Objects/Tests.antt =====
-- The theorems on objects at concrete inputs.
use Prim.Native.String.{String}
use text.Mathlib.Text.{◌==◌ as same_string}
use text.Mathlib.TextEquality.{eq_iff}
use convergence_client_javas.Base.{
  ℕ, ◌≡◌, refl, sym, ◌∙◌, inl, inr, Bool-cases, if◌then◌else◌, Bool, true, false, true≢false, none,
  List, [], ◌∷◌, ◌==◌, ==_iff, ok, ap,
}
use convergence_client_javas.Transformer.{transform_two_discrete_ops}
use convergence_client_javas.Transformer.Meets.{Transforms}
use convergence_client_javas.Nodes.{apply_to_nodes}
use convergence_client_javas.Objects.{Children, object_kind, apply_set, apply_set_value}
use convergence_client_javas.Objects.Transform.{StrictEquals, PropertiesEqual, object_registry}
use convergence_client_javas.Objects.Convergence.Meets.{object_registry-Transforms}
use convergence_client_javas.Objects.Local.{call_remove, call, receive, call-received}

abbrev numbers_strictly : StrictEquals ℕ
numbers_strictly = record {
  strict_equals = λ x y. x == y;
  strict_equals-eq = λ x y e. (==_iff x y).0 e;
}

-- Entry lists that are the same, in the same order.
unfoldable pub same_entries : List (String × ℕ) → List (String × ℕ) → Bool
same_entries [] [] = true
same_entries [] (y ∷ ys) = false
same_entries (x ∷ xs) [] = false
same_entries (x ∷ xs) (y ∷ ys) =
    if same_string x.0 y.0 then (if x.1 == y.1 then same_entries xs ys else false) else false

pub same_entries-eq : (xs ys : List (String × ℕ)) → same_entries xs ys ≡ true → xs ≡ ys
unfolding same_entries
same_entries-eq [] [] h = refl
same_entries-eq [] (y ∷ ys) h = cc
same_entries-eq (x ∷ xs) [] h = cc
same_entries-eq (x ∷ xs) (y ∷ ys) h = elim (Bool-cases (same_string x.0 y.0)) [
  | inl e ↦ elim (Bool-cases (x.1 == y.1)) [
    | inl f ↦
        let step : same_entries (x ∷ xs) (y ∷ ys) ≡ same_entries xs ys = rw (e, f) refl in
        let rest : xs ≡ ys = same_entries-eq xs ys (sym step ∙ h) in
        let key : x.0 ≡ y.0 = (eq_iff x.0 y.0).0 e in
        let value : x.1 ≡ y.1 = (==_iff x.1 y.1).0 f in λ i. (key i, value i) ∷ rest i
    | inr f ↦
        let step : same_entries (x ∷ xs) (y ∷ ys) ≡ false = rw (e, f) refl in
        absurd (true≢false (sym h ∙ step))
  ]
  | inr e ↦
      let step : same_entries (x ∷ xs) (y ∷ ys) ≡ false = rw e refl in
      absurd (true≢false (sym h ∙ step))
]

abbrev properties_equal : PropertiesEqual ℕ
properties_equal = record {
  deep_equals = same_entries;
  deep_equals-eq = λ x y e. ap apply_set_value (same_entries-eq x y e);
}

object_registry-Transforms_example :
    Transforms
      (apply_to_nodes object_kind)
      (transform_two_discrete_ops (object_registry numbers_strictly properties_equal))
object_registry-Transforms_example = object_registry-Transforms numbers_strictly properties_equal

abbrev named : Children ℕ
named = apply_set "name" 7 (λ key. none)

call-received_example :
    receive (call "person" (call_remove "name") named).1 named
    ≡ ok (call "person" (call_remove "name") named).0
call-received_example = call-received "person" (call_remove "name") named
