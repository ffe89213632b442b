-- ===== src/Arrays/Model/Meets.antt =====
-- The functions for arrays fill what the transformer
-- (src/main/model/ot/xform/OperationTransformer.ts) asks of a registry, on a model of any number of
-- arrays.
use convergence_client_javas.Base.{◌≡◌, refl, subst, false, List, ok, ◌>>=◌, arith}
use convergence_client_javas.Transformer.{
  transform_two_discrete_ops, transform_identical_path_operations,
}
use convergence_client_javas.Transformer.Meets.{Transforms}
use convergence_client_javas.Nodes.{apply_at_node}
use convergence_client_javas.Nodes.Pairs.{Returns, NodeMeets, FunctionsMeet}
use convergence_client_javas.Nodes.Meets.{node_registry-Transforms}
use convergence_client_javas.Arrays.{
  DeepEquals, ArrayOperation, array_insert, array_remove, array_set, array_reorder, array_value,
  is_no_op, handle_model_operation_event, apply_discrete_operation, apply_insert, apply_set,
  apply_remove, apply_reorder,
}
use convergence_client_javas.Arrays.Transform.Ids.{array_operation_id}
use convergence_client_javas.Arrays.Transform.KeepsIds.{array_otf-KeepsIds}
use convergence_client_javas.Arrays.Transform.Otf.{array_otf}
use convergence_client_javas.Arrays.Convergence.Otf.{FitsArray, array_otf-Converges}
use convergence_client_javas.Arrays.Model.{
  array_kind, apply_to_model, array_functions, array_registry,
}

module _ {V : Type 0} where
  -- An operation that returned was within the array's bounds.
  pub handled-FitsArray :
      (o : ArrayOperation V) (xs ys : List V)
      → handle_model_operation_event o xs ≡ ok ys
      → FitsArray o xs
  unfolding handle_model_operation_event apply_insert apply_set apply_remove apply_reorder
  handled-FitsArray (array_insert o) xs ys h = ground arith
  handled-FitsArray (array_remove o) xs ys h = ground arith
  handled-FitsArray (array_set o) xs ys h = ground arith
  handled-FitsArray (array_reorder o) xs ys h = ground arith
  handled-FitsArray (array_value o) xs ys h = tt

  -- At one node the two forms of `_applyDiscreteOperation` are one.
  discrete_at_node :
      (o : ArrayOperation V) (xs ys : List V)
      → apply_discrete_operation o xs ≡ ok ys
      → apply_at_node array_kind o xs ≡ ok ys
  unfolding apply_at_node apply_discrete_operation
  discrete_at_node o xs ys h = h

  handled :
      (o : ArrayOperation V) (xs ys : List V)
      → is_no_op o ≡ false
      → handle_model_operation_event o xs ≡ ok ys
      → apply_discrete_operation o xs ≡ ok ys
  unfolding apply_discrete_operation
  handled o xs ys live h = rw live h

  module _ (d : DeepEquals V) (ds : DeepEquals (List V)) where
    unfoldable array_otf-Returns :
        (s c : ArrayOperation V) → Returns array_kind (array_functions d ds) s c
    unfolding transform_identical_path_operations
    array_otf-Returns s c =
        let ids = array_otf-KeepsIds V d ds s c in
        record {
          server_op = (array_otf d ds s c).server_op;
          client_op = (array_otf d ds s c).client_op;
          transformed = refl;
          server_id = ids.0;
          client_id = ids.1;
        }

    array_otf-NodeMeets :
        (s c : ArrayOperation V) (xs ya yb : List V)
        → is_no_op s ≡ false
        → is_no_op c ≡ false
        → array_operation_id s ≡ array_operation_id c
        → handle_model_operation_event s xs ≡ ok ya
        → handle_model_operation_event c xs ≡ ok yb
        → NodeMeets array_kind (array_functions d ds) s c ya yb
    unfolding array_otf-Returns
    array_otf-NodeMeets s c xs ya yb s_live c_live same hs hc =
        let m =
          array_otf-Converges d ds s c xs s_live c_live (handled-FitsArray s xs ya hs)
            (handled-FitsArray c xs yb hc) in
        let at_server : apply_discrete_operation (array_otf d ds s c).client_op ya ≡ ok m.0 =
          subst (λ q. (q >>= apply_discrete_operation (array_otf d ds s c).client_op) ≡ ok m.0)
            (handled s xs ya s_live hs) m.1 in
        let at_client : apply_discrete_operation (array_otf d ds s c).server_op yb ≡ ok m.0 =
          subst (λ q. (q >>= apply_discrete_operation (array_otf d ds s c).server_op) ≡ ok m.0)
            (handled c xs yb c_live hc) m.2 in
        record {
          returns = array_otf-Returns s c;
          meeting = m.0;
          client_applied = discrete_at_node (array_otf d ds s c).client_op ya m.0 at_server;
          server_applied = discrete_at_node (array_otf d ds s c).server_op yb m.0 at_client;
        }

    pub array_functions-Meet : FunctionsMeet array_kind (array_functions d ds)
    array_functions-Meet = record {
      meets = array_otf-NodeMeets;
      left_out = λ t s c same. array_otf-Returns s c;
    }

    -- On a model of any number of arrays, any two array operations that can be applied to it are
    -- transformed to a pair with which both sites meet, those at different nodes, at a node that is
    -- not there and no-ops included.
    pub array_registry-Transforms :
        Transforms apply_to_model (transform_two_discrete_ops (array_registry d ds))
    array_registry-Transforms =
        node_registry-Transforms array_kind (array_functions d ds) array_functions-Meet
