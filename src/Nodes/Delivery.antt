-- ===== src/Nodes/Delivery.antt =====
-- What an operation does to a model of several nodes (src/main/model/internal/Model.ts).
use Prim.Native.String.{String}
use text.Mathlib.Text.{◌==◌ as same_string}
use text.Mathlib.TextEquality.{eq_iff}
use convergence_client_javas.Base.{
  ◌≡◌, refl, sym, ap, ◌∙◌, inl, inr, true, false, true≢false, Bool-cases, Option, none, some, ok,
  throws, no_node, ok≢throws, returned, ok-injective,
}
use convergence_client_javas.Nodes.{NodeKind, Nodes, put, deliver, apply_to_nodes, apply_at_node}

same_string_refl : (i : String) → same_string i i ≡ true
same_string_refl i = (eq_iff i i).1 refl

module _ {N : Type 0} where
  put_twice : (m : Nodes N) (i : String) (a b : N) → put (put m i a) i b ≡ put m i b
  unfolding put
  put_twice m i a b = λ k. λ j. both j k
    where
      both : (j : String) → put (put m i a) i b j ≡ put m i b j
      both j = elim (Bool-cases (same_string i j)) [ inl e ↦ rw e refl | inr e ↦ rw e refl ]

  put_same : (m : Nodes N) (i : String) (a : N) → put m i a i ≡ some a
  unfolding put
  put_same m i a = rw (same_string_refl i) refl

  pub put_other : (m : Nodes N) (i j : String) (a : N) → same_string i j ≡ false → put m i a j ≡ m j
  unfolding put
  put_other m i j a h = rw h refl

  pub put_swap :
      (m : Nodes N) (i j : String) (a b : N)
      → same_string i j ≡ false
      → put (put m i a) j b ≡ put (put m j b) i a
  unfolding put
  put_swap m i j a b h = λ k. λ o. each o k
    where
      each : (o : String) → put (put m i a) j b o ≡ put (put m j b) i a o
      each o = elim (Bool-cases (same_string i o)) [
        | inl e ↦ elim (Bool-cases (same_string j o)) [
          | inl f ↦
              let eq : i ≡ j = (eq_iff i o).0 e ∙ sym ((eq_iff j o).0 f) in
              absurd (true≢false (sym ((eq_iff i j).1 eq) ∙ h))
          | inr f ↦ rw (e, f) refl
        ]
        | inr e ↦ elim (Bool-cases (same_string j o)) [
          | inl f ↦ rw (e, f) refl
          | inr f ↦ rw (e, f) refl
        ]
      ]

module _ {D N : Type 0} (kind : NodeKind D N) where
  pub live_at_node :
      (o : D) (x y : N)
      → kind.is_no_op o ≡ false
      → kind.handle o x ≡ ok y
      → apply_at_node kind o x ≡ ok y
  unfolding apply_at_node
  live_at_node o x y e h = rw e h

  pub silent_at_node : (o : D) (x : N) → kind.is_no_op o ≡ true → apply_at_node kind o x ≡ ok x
  unfolding apply_at_node
  silent_at_node o x e = rw e refl

  -- An operation at a node that is there.
  pub apply_at :
      (o : D) (m : Nodes N) (i : String) (ys z : N)
      → kind.operation_id o ≡ i
      → apply_at_node kind o ys ≡ ok z
      → apply_to_nodes kind o (put m i ys) ≡ ok (put m i z)
  unfolding apply_to_nodes deliver apply_at_node
  apply_at o m i ys z n h = elim (Bool-cases (kind.is_no_op o)) [
    | inl e ↦
        let step : apply_at_node kind o ys ≡ ok ys = rw e refl in
        rw (e, ok-injective (sym step ∙ h)) refl
    | inr e ↦
        let step : apply_at_node kind o ys ≡ kind.handle o ys = rw e refl in
        rw (e, n, put_same m i ys, sym step ∙ h) (ap ok (rw (n, put_twice m i ys z) refl))
  ]

  pub apply_missing :
      (o : D) (m : Nodes N) (i : String)
      → kind.operation_id o ≡ i
      → m i ≡ none
      → kind.tolerant ≡ true
      → apply_to_nodes kind o m ≡ ok m
  unfolding apply_to_nodes deliver
  apply_missing o m i n h t = elim (Bool-cases (kind.is_no_op o)) [
    | inl e ↦ rw e refl
    | inr e ↦ rw (e, n, h, t) refl
  ]

  pub apply_found :
      (o : D) (m : Nodes N) (xs ys : N)
      → kind.is_no_op o ≡ false
      → m (kind.operation_id o) ≡ some xs
      → kind.handle o xs ≡ ok ys
      → apply_to_nodes kind o m ≡ ok (put m (kind.operation_id o) ys)
  unfolding apply_to_nodes deliver
  apply_found o m xs ys live f h = rw (live, f, h) refl

-- What a delivered operation did: nothing at a node that is not there, or a change of the node.
pub data Delivered {D N : Type 0} (kind : NodeKind D N) (o : D) (m : Nodes N) (a : Nodes N)
    : Type 0 where
  missing : m (kind.operation_id o) ≡ none → kind.tolerant ≡ true → m ≡ a → Delivered kind o m a
  changed :
      (xs ys : N)
      → m (kind.operation_id o) ≡ some xs
      → kind.handle o xs ≡ ok ys
      → put m (kind.operation_id o) ys ≡ a
      → Delivered kind o m a

module _ {D N : Type 0} (kind : NodeKind D N) (o : D) (m a : Nodes N) where
  deliver-Delivered :
      (found : Option (N))
      → m (kind.operation_id o) ≡ found
      → deliver kind o m found ≡ ok a
      → Delivered kind o m a
  unfolding deliver
  deliver-Delivered none f h = elim (Bool-cases kind.tolerant) [
    | inl t ↦
        let step : deliver kind o m none ≡ ok m = rw t refl in
        missing f t (ok-injective (sym step ∙ h))
    | inr t ↦
        let step : deliver kind o m none ≡ throws no_node = rw t refl in
        absurd (ok≢throws (sym h ∙ step))
  ]
  deliver-Delivered (some xs) f h =
      let r = returned (kind.handle o xs) (λ ys. ok (put m (kind.operation_id o) ys)) a h in
      changed xs r.value f r.first (ok-injective r.rest)

  pub live-Delivered :
      kind.is_no_op o ≡ false → apply_to_nodes kind o m ≡ ok a → Delivered kind o m a
  unfolding apply_to_nodes
  live-Delivered e h =
      let step : apply_to_nodes kind o m ≡ deliver kind o m (m (kind.operation_id o)) = rw e refl in
      deliver-Delivered (m (kind.operation_id o)) refl (sym step ∙ h)
