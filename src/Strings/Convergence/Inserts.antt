-- ===== src/Strings/Convergence/Inserts.antt =====
-- An insertion against any splice: the functions of StringSpliceSpliceOTF.ts that compare an index.
use convergence_client_javas.Base.{◌+◌, ◌≡◌, inl, inr, length, arith, leb-cases, ltb-cases}
use convergence_client_javas.Operations.{Converges}
use convergence_client_javas.Strings.{Text, StringSpliceOperation}
use convergence_client_javas.Strings.Transform.{
  transform_insert_insert, transform_insert_remove, transform_insert_splice,
  transform_remove_insert, transform_splice_insert,
}
use convergence_client_javas.Strings.Convergence.{apply_op, Input}
use convergence_client_javas.Strings.Convergence.Moves.{s_before_c, c_before_s, s_in_c, c_in_s}

module _ {s c : StringSpliceOperation} {str : Text} (inp : Input s c str) where
  pub insert_insert-Converges :
      s.delete_count ≡ 0
      → c.delete_count ≡ 0
      → Converges apply_op (transform_insert_insert s c) s c str
  unfolding transform_insert_insert
  insert_insert-Converges hs hc = elim (leb-cases s.index c.index) [
    | inl (t, h) ↦ rw t (s_before_c inp _ (omega arith) (omega arith))
    | inr (t, h) ↦ rw t (c_before_s inp _ (omega arith) (omega arith))
  ]

  pub insert_remove-Converges :
      s.delete_count ≡ 0
      → length c.insert_value ≡ 0
      → Converges apply_op (transform_insert_remove s c) s c str
  unfolding transform_insert_remove
  insert_remove-Converges hs hc = elim (leb-cases s.index c.index) [
    | inl (t, h) ↦ rw t (s_before_c inp _ (omega arith) (omega arith))
    | inr (t, h) ↦ elim (leb-cases (c.index + c.delete_count) s.index) [
      | inl (u, k) ↦ rw (t, u) (c_before_s inp _ k (omega arith))
      | inr (u, k) ↦ rw (t, u) (s_in_c inp _ (omega arith) (omega arith) (omega arith))
    ]
  ]

  pub insert_splice-Converges :
      s.delete_count ≡ 0 → Converges apply_op (transform_insert_splice s c) s c str
  unfolding transform_insert_splice
  insert_splice-Converges hs = elim (leb-cases s.index c.index) [
    | inl (t, h) ↦ rw t (s_before_c inp _ (omega arith) (omega arith))
    | inr (t, h) ↦ elim (ltb-cases s.index (c.index + c.delete_count)) [
      | inl (u, k) ↦ rw (t, u) (s_in_c inp _ (omega arith) (omega arith) (omega arith))
      | inr (u, k) ↦ rw (t, u) (c_before_s inp _ k (omega arith))
    ]
  ]

  pub remove_insert-Converges :
      length s.insert_value ≡ 0
      → c.delete_count ≡ 0
      → Converges apply_op (transform_remove_insert s c) s c str
  unfolding transform_remove_insert
  remove_insert-Converges hs hc = elim (leb-cases c.index s.index) [
    | inl (t, h) ↦ rw t (c_before_s inp _ (omega arith) (omega arith))
    | inr (t, h) ↦ elim (leb-cases (s.index + s.delete_count) c.index) [
      | inl (u, k) ↦ rw (t, u) (s_before_c inp _ k (omega arith))
      | inr (u, k) ↦ rw (t, u) (c_in_s inp _ (omega arith) (omega arith) (omega arith))
    ]
  ]

  pub splice_insert-Converges :
      c.delete_count ≡ 0 → Converges apply_op (transform_splice_insert s c) s c str
  unfolding transform_splice_insert
  splice_insert-Converges hc = elim (leb-cases c.index s.index) [
    | inl (t, h) ↦ rw t (c_before_s inp _ (omega arith) (omega arith))
    | inr (t, h) ↦ elim (ltb-cases c.index (s.index + s.delete_count)) [
      | inl (u, k) ↦ rw (t, u) (c_in_s inp _ (omega arith) (omega arith) (omega arith))
      | inr (u, k) ↦ rw (t, u) (s_before_c inp _ k (omega arith))
    ]
  ]
