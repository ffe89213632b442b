-- ===== src/Nodes/Meets.antt =====
-- Functions that meet at one node meet on a model of any number of nodes: they fill what the
-- transformer (src/main/model/ot/xform/OperationTransformer.ts) asks of a registry.
use text.Mathlib.Text.{◌==◌ as same_string}
use text.Mathlib.TextEquality.{eq_iff}
use convergence_client_javas.Base.{
  ◌≡◌, ◌⊎◌, ok-injective, refl, sym, subst, ◌∙◌, inl, inr, true, Bool-cases, ok,
}
use convergence_client_javas.Operations.{pair}
use convergence_client_javas.Transformer.{transform_two_discrete_ops}
use convergence_client_javas.Transformer.Meets.{Meets, Transforms}
use convergence_client_javas.Nodes.{NodeKind, Nodes, apply_to_nodes, node_registry}
use convergence_client_javas.Nodes.Delivery.{live-Delivered}
use convergence_client_javas.Nodes.Pairs.{
  Functions, FunctionsMeet, no_op_applied, one_node, two_nodes,
}

module _ {D N : Type 0} (kind : NodeKind D N) where
  idle_pair :
      (s c : D) (x a b : Nodes N)
      → apply_to_nodes kind s x ≡ ok a
      → apply_to_nodes kind c x ≡ ok b
      → (kind.is_no_op s ≡ true) ⊎ (kind.is_no_op c ≡ true)
      → Meets (apply_to_nodes kind) (ok (pair s c)) a b
  idle_pair s c x a b hs hc (inl e) =
      let same : x ≡ a = ok-injective (sym (no_op_applied kind s x e) ∙ hs) in
      record {
        server_op = s;
        client_op = c;
        meeting = b;
        transformed = refl;
        client_applied = subst (λ q. apply_to_nodes kind c q ≡ ok b) same hc;
        server_applied = no_op_applied kind s b e;
      }
  idle_pair s c x a b hs hc (inr e) =
      let same : x ≡ b = ok-injective (sym (no_op_applied kind c x e) ∙ hc) in
      record {
        server_op = s;
        client_op = c;
        meeting = a;
        transformed = refl;
        client_applied = no_op_applied kind c a e;
        server_applied = subst (λ q. apply_to_nodes kind s q ≡ ok a) same hs;
      }

  module _ (functions : Functions D) (law : FunctionsMeet kind functions) where
    node_registry-Meets :
        (s c : D) (x a b : Nodes N)
        → apply_to_nodes kind s x ≡ ok a
        → apply_to_nodes kind c x ≡ ok b
        → Meets
            (apply_to_nodes kind)
            (transform_two_discrete_ops (node_registry kind functions) s c)
            a
            b
    unfolding transform_two_discrete_ops
    node_registry-Meets s c x a b hs hc = elim (Bool-cases (kind.is_no_op s)) [
      | inl e ↦ rw e (idle_pair s c x a b hs hc (inl e))
      | inr e ↦ elim (Bool-cases (kind.is_no_op c)) [
        | inl f ↦ rw (e, f) (idle_pair s c x a b hs hc (inr f))
        | inr f ↦ elim (Bool-cases (same_string (kind.operation_id s) (kind.operation_id c))) [
          | inl i ↦
              rw (e, f, i)
                (one_node kind functions law s c x a b e f
                  ((eq_iff (kind.operation_id s) (kind.operation_id c)).0 i)
                  (live-Delivered kind s x a e hs) (live-Delivered kind c x b f hc))
          | inr i ↦
              rw (e, f, i)
                (two_nodes kind s c x a b e f hs hc i (live-Delivered kind s x a e hs)
                  (live-Delivered kind c x b f hc))
        ]
      ]
    ]

    -- When the functions of a registry meet at one node, then on a model of any number of nodes any
    -- two operations that can be applied to it are transformed to a pair with which both sites
    -- meet, those at different nodes and no-ops included.
    pub node_registry-Transforms :
        Transforms (apply_to_nodes kind) (transform_two_discrete_ops (node_registry kind functions))
    node_registry-Transforms = record { meets = node_registry-Meets }
