-- ===== src/Nodes/Pairs.antt =====
-- Two operations at one node of a model, and at two nodes: where both sites meet.
use Prim.Native.String.{String}
use text.Mathlib.Text.{◌==◌ as same_string}
use text.Mathlib.TextEquality.{eq_iff}
use convergence_client_javas.Base.{
  ◌≡◌, refl, sym, ap, subst, ◌∙◌, inl, inr, true, false, true≢false, Bool-cases, Option, none, some,
  some-injective, Result, ok,
}
use convergence_client_javas.Operations.{OperationPair, pair}
use convergence_client_javas.Transformer.{transform_identical_path_operations}
use convergence_client_javas.Transformer.Meets.{Meets}
use convergence_client_javas.Nodes.{
  NodeKind, Nodes, put, apply_to_nodes, apply_at_node, node_registry,
}
use convergence_client_javas.Nodes.Delivery.{
  put_other, put_swap, apply_at, apply_missing, apply_found, Delivered, missing, changed,
}

pub same_string_swap : (i j : String) → same_string i j ≡ false → same_string j i ≡ false
same_string_swap i j h = elim (Bool-cases (same_string j i)) [
  | inl e ↦ absurd (true≢false (sym ((eq_iff i j).1 (sym ((eq_iff j i).0 e))) ∙ h))
  | inr e ↦ e
]

abbrev pub Functions : Type 0 → Type 0
Functions D = D → D → Option (D → D → Result (OperationPair D))

-- The function for `s` and `c` returned a pair for the same nodes.
pub record Returns {D N : Type 0} (kind : NodeKind D N) (functions : Functions D) (s c : D)
    : Type 0 where
  pub server_op : D
  pub client_op : D
  pub transformed :
      transform_identical_path_operations (node_registry kind functions) s c
      ≡ ok (pair server_op client_op)
  pub server_id : kind.operation_id server_op ≡ kind.operation_id s
  pub client_id : kind.operation_id client_op ≡ kind.operation_id c

-- And from the nodes `a` and `b` the two operations of the pair lead to one node.
pub record NodeMeets {D N : Type 0} (kind : NodeKind D N) (functions : Functions D) (s c : D)
    (a b : N) : Type 0 where
  pub returns : Returns kind functions s c
  pub meeting : N
  pub client_applied : apply_at_node kind returns.client_op a ≡ ok meeting
  pub server_applied : apply_at_node kind returns.server_op b ≡ ok meeting

-- The same of what one function returned.
pub record Meet {D N : Type 0} (kind : NodeKind D N) (s c : D) (a b : N)
    (r : Result (OperationPair D)) : Type 0 where
  pub server_op : D
  pub client_op : D
  pub returned : r ≡ ok (pair server_op client_op)
  pub server_id : kind.operation_id server_op ≡ kind.operation_id s
  pub client_id : kind.operation_id client_op ≡ kind.operation_id c
  pub meeting : N
  pub client_applied : apply_at_node kind client_op a ≡ ok meeting
  pub server_applied : apply_at_node kind server_op b ≡ ok meeting

pub Meet-NodeMeets :
    {D N : Type 0} (kind : NodeKind D N) (functions : Functions D) (s c : D) (a b : N)
    → Meet kind s c a b (transform_identical_path_operations (node_registry kind functions) s c)
    → NodeMeets kind functions s c a b
Meet-NodeMeets kind functions s c a b m = record {
  returns = record {
    server_op = m.server_op;
    client_op = m.client_op;
    transformed = m.returned;
    server_id = m.server_id;
    client_id = m.client_id;
  };
  meeting = m.meeting;
  client_applied = m.client_applied;
  server_applied = m.server_applied;
}

-- What the functions of a registry do at one node: two operations, neither a no-op, that the node
-- they are for allows meet; and where operations for other nodes are left out, those return too.
pub record FunctionsMeet {D N : Type 0} (kind : NodeKind D N) (functions : Functions D)
    : Type 0 where
  pub meets :
      (s c : D) (n a b : N)
      → kind.is_no_op s ≡ false
      → kind.is_no_op c ≡ false
      → kind.operation_id s ≡ kind.operation_id c
      → kind.handle s n ≡ ok a
      → kind.handle c n ≡ ok b
      → NodeMeets kind functions s c a b
  pub left_out :
      kind.tolerant ≡ true
      → (s c : D) → kind.operation_id s ≡ kind.operation_id c
      → Returns kind functions s c

module _ {D N : Type 0} (kind : NodeKind D N) where
  pub no_op_applied :
      (o : D) (m : Nodes N) → kind.is_no_op o ≡ true → apply_to_nodes kind o m ≡ ok m
  unfolding apply_to_nodes
  no_op_applied o m e = rw e refl

  -- Two operations at one node.
  module _ (functions : Functions D) (law : FunctionsMeet kind functions) (s c : D)
      (x a b : Nodes N) (s_live : kind.is_no_op s ≡ false) (c_live : kind.is_no_op c ≡ false)
      (same : kind.operation_id s ≡ kind.operation_id c) where
    pub one_node :
        Delivered kind s x a
        → Delivered kind c x b
        → Meets
            (apply_to_nodes kind)
            (transform_identical_path_operations (node_registry kind functions) s c)
            a
            b
    one_node (missing f t e) (missing g u k) =
        let r = law.left_out t s c same in
        record {
          server_op = r.server_op;
          client_op = r.client_op;
          meeting = x;
          transformed = r.transformed;
          client_applied =
              subst (λ q. apply_to_nodes kind r.client_op q ≡ ok x) e
                (apply_missing kind _ x (kind.operation_id c) r.client_id g t);
          server_applied =
              subst (λ q. apply_to_nodes kind r.server_op q ≡ ok x) k
                (apply_missing kind _ x (kind.operation_id s) r.server_id f t);
        }
    one_node (missing f t e) (changed n m g h k) =
        let bad : none ≡ some n = sym f ∙ (ap x same ∙ g) in absurd cc
    one_node (changed n m f h e) (missing g t k) =
        let bad : none ≡ some n = sym g ∙ (ap x (sym same) ∙ f) in absurd cc
    one_node (changed n na f hs e) (changed l nb g hc k) =
        let eq : l ≡ n = some-injective (sym g ∙ (ap x (sym same) ∙ f)) in
        let m =
          law.meets s c n na nb s_live c_live same hs
            (subst (λ q. kind.handle c q ≡ ok nb) eq hc) in
        let r = m.returns in
        record {
          server_op = r.server_op;
          client_op = r.client_op;
          meeting = put x (kind.operation_id s) m.meeting;
          transformed = r.transformed;
          client_applied =
              subst
                (λ q.
                  apply_to_nodes kind r.client_op q ≡ ok (put x (kind.operation_id s) m.meeting))
                e
                (apply_at kind _ x (kind.operation_id s) na m.meeting (r.client_id ∙ sym same)
                  m.client_applied);
          server_applied =
              subst
                (λ q.
                  apply_to_nodes kind r.server_op q ≡ ok (put x (kind.operation_id s) m.meeting))
                (ap (λ i. put x i nb) same ∙ k)
                (apply_at kind _ x (kind.operation_id s) nb m.meeting r.server_id m.server_applied);
        }

  -- Two operations at different nodes.
  module _ (s c : D) (x a b : Nodes N) (s_live : kind.is_no_op s ≡ false)
      (c_live : kind.is_no_op c ≡ false) (hs : apply_to_nodes kind s x ≡ ok a)
      (hc : apply_to_nodes kind c x ≡ ok b)
      (other : same_string (kind.operation_id s) (kind.operation_id c) ≡ false) where
    pub two_nodes :
        Delivered kind s x a
        → Delivered kind c x b
        → Meets (apply_to_nodes kind) (ok (pair s c)) a b
    two_nodes (missing f _ e) (missing g t k) = record {
      server_op = s;
      client_op = c;
      meeting = b;
      transformed = refl;
      client_applied = subst (λ q. apply_to_nodes kind c q ≡ ok b) e hc;
      server_applied =
          subst (λ q. apply_to_nodes kind s q ≡ ok q) k (apply_missing kind s x _ refl f t);
    }
    two_nodes (missing f t e) (changed xs yb g h k) = record {
      server_op = s;
      client_op = c;
      meeting = b;
      transformed = refl;
      client_applied = subst (λ q. apply_to_nodes kind c q ≡ ok b) e hc;
      server_applied =
          subst (λ q. apply_to_nodes kind s q ≡ ok q) k
            (apply_missing kind s (put x (kind.operation_id c) yb) _ refl
              (put_other x (kind.operation_id c) (kind.operation_id s) yb
                  (same_string_swap _ _ other)
                ∙ f)
              t);
    }
    two_nodes (changed xs ya f h e) (missing g t k) = record {
      server_op = s;
      client_op = c;
      meeting = a;
      transformed = refl;
      client_applied =
          subst (λ q. apply_to_nodes kind c q ≡ ok q) e
            (apply_missing kind c (put x (kind.operation_id s) ya) _ refl
              (put_other x (kind.operation_id s) (kind.operation_id c) ya other ∙ g) t);
      server_applied = subst (λ q. apply_to_nodes kind s q ≡ ok a) k hs;
    }
    two_nodes (changed xs ya f h e) (changed zs yb g l k) = record {
      server_op = s;
      client_op = c;
      meeting = put (put x (kind.operation_id s) ya) (kind.operation_id c) yb;
      transformed = refl;
      client_applied =
          subst
            (λ q.
              apply_to_nodes kind c q
              ≡ ok (put (put x (kind.operation_id s) ya) (kind.operation_id c) yb))
            e
            (apply_found kind c _ zs yb c_live
              (put_other x (kind.operation_id s) (kind.operation_id c) ya other ∙ g) l);
      server_applied =
          subst
            (λ q.
              apply_to_nodes kind s q
              ≡ ok (put (put x (kind.operation_id s) ya) (kind.operation_id c) yb))
            k
            (apply_found kind s _ xs ya s_live
                (put_other x (kind.operation_id c) (kind.operation_id s) yb
                    (same_string_swap _ _ other)
                  ∙ f)
                h
              ∙ ap ok (
                  put_swap x (kind.operation_id c) (kind.operation_id s) yb ya
                    (same_string_swap _ _ other)));
    }
