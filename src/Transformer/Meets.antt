-- ===== src/Transformer/Meets.antt =====
-- Operations, compound ones too, that were made on one state, and the state in which the two sites
-- meet after the transformer.
use convergence_client_javas.Base.{
  ◌≡◌, refl, sym, List, [], ◌∷◌, Result, ok, ◌>>=◌, returned, ok-injective,
}
use convergence_client_javas.Operations.{OperationPair, pair}
use convergence_client_javas.Transformer.{
  Operation, discrete, compound, Registry, transform_two_discrete_ops, transform_client_ops,
  transform_discrete_server, transform_server_ops, transform,
}

module _ {D S : Type 0} (apply : D → S → Result S) where
  -- The operations of a list, one after the other.
  unfoldable pub apply_all : List D → S → Result S
  apply_all [] x = ok x
  apply_all (o ∷ os) x = apply o x >>= apply_all os

  -- `RealTimeModel._applyOperation`.
  unfoldable pub apply_operation : Operation D → S → Result S
  apply_operation (discrete o) x = apply o x
  apply_operation (compound os) x = apply_all os x

-- A loop of the transformer returned; from the server's state `a` and the client's `b` what it
-- returned leads to one state.
record LoopMeets {S O C : Type 0} (server : O → S → Result S) (client : C → S → Result S)
    (t : Result (O × C)) (a b : S) : Type 0 where
  server_op : O
  client_op : C
  meeting : S
  transformed : t ≡ ok (server_op, client_op)
  client_applied : client client_op a ≡ ok meeting
  server_applied : server server_op b ≡ ok meeting

-- A call `t` of the transformer returned a pair; from the server's state `a` and the client's `b`
-- the two operations of the pair lead to one state.
pub record Meets {S Op : Type 0} (apply : Op → S → Result S) (t : Result (OperationPair Op))
    (a b : S) : Type 0 where
  pub server_op : Op
  pub client_op : Op
  pub meeting : S
  pub transformed : t ≡ ok (pair server_op client_op)
  pub client_applied : apply client_op a ≡ ok meeting
  pub server_applied : apply server_op b ≡ ok meeting

-- Two operations that can be applied to one state are transformed, and the two sites meet.
pub record Transforms {S Op : Type 0} (apply : Op → S → Result S)
    (t : Op → Op → Result (OperationPair Op)) : Type 0 where
  pub meets : (s c : Op) (x a b : S) → apply s x ≡ ok a → apply c x ≡ ok b → Meets apply (t s c) a b

module _ {D S : Type 0} (tfr : Registry D) (apply : D → S → Result S)
    (law : Transforms apply (transform_two_discrete_ops tfr)) where
  transform_client_ops-LoopMeets :
      (s : D) (cs : List D) (x a b : S)
      → apply s x ≡ ok a
      → apply_all apply cs x ≡ ok b
      → LoopMeets apply (apply_all apply) (transform_client_ops tfr s cs) a b
  unfolding transform_client_ops apply_all
  transform_client_ops-LoopMeets s [] x a b hs hc = record {
    server_op = s;
    client_op = [];
    meeting = a;
    transformed = refl;
    client_applied = refl;
    server_applied = rw (sym (ok-injective hc)) hs;
  }
  transform_client_ops-LoopMeets s (c ∷ cs) x a b hs hc =
      let r = returned (apply c x) (apply_all apply cs) b hc in
      let m = law.meets s c x a r.value hs r.first in
      let n =
        transform_client_ops-LoopMeets m.server_op cs r.value m.meeting b m.server_applied r.rest in
      record {
        server_op = n.server_op;
        client_op = m.client_op ∷ n.client_op;
        meeting = n.meeting;
        transformed = rw (m.transformed, n.transformed) refl;
        client_applied = rw m.client_applied n.client_applied;
        server_applied = n.server_applied;
      }

  transform_discrete_server-LoopMeets :
      (s : D) (c : Operation D) (x a b : S)
      → apply s x ≡ ok a
      → apply_operation apply c x ≡ ok b
      → LoopMeets apply (apply_operation apply) (transform_discrete_server tfr s c) a b
  unfolding transform_discrete_server apply_operation
  transform_discrete_server-LoopMeets s (discrete c) x a b hs hc =
      let m = law.meets s c x a b hs hc in
      record {
        server_op = m.server_op;
        client_op = discrete m.client_op;
        meeting = m.meeting;
        transformed = rw m.transformed refl;
        client_applied = m.client_applied;
        server_applied = m.server_applied;
      }
  transform_discrete_server-LoopMeets s (compound cs) x a b hs hc =
      let m = transform_client_ops-LoopMeets s cs x a b hs hc in
      record {
        server_op = m.server_op;
        client_op = compound m.client_op;
        meeting = m.meeting;
        transformed = rw m.transformed refl;
        client_applied = m.client_applied;
        server_applied = m.server_applied;
      }

  transform_server_ops-LoopMeets :
      (ss : List D) (c : Operation D) (x a b : S)
      → apply_all apply ss x ≡ ok a
      → apply_operation apply c x ≡ ok b
      → LoopMeets (apply_all apply) (apply_operation apply) (transform_server_ops tfr ss c) a b
  unfolding transform_server_ops apply_all
  transform_server_ops-LoopMeets [] c x a b hs hc = record {
    server_op = [];
    client_op = c;
    meeting = b;
    transformed = refl;
    client_applied = rw (sym (ok-injective hs)) hc;
    server_applied = refl;
  }
  transform_server_ops-LoopMeets (s ∷ ss) c x a b hs hc =
      let r = returned (apply s x) (apply_all apply ss) a hs in
      let m = transform_discrete_server-LoopMeets s c x r.value b r.first hc in
      let n =
        transform_server_ops-LoopMeets ss m.client_op r.value a m.meeting r.rest m.client_applied in
      record {
        server_op = m.server_op ∷ n.server_op;
        client_op = n.client_op;
        meeting = n.meeting;
        transformed = rw (m.transformed, n.transformed) refl;
        client_applied = n.client_applied;
        server_applied = rw m.server_applied n.server_applied;
      }

  transform-Meets :
      (s c : Operation D) (x a b : S)
      → apply_operation apply s x ≡ ok a
      → apply_operation apply c x ≡ ok b
      → Meets (apply_operation apply) (transform tfr s c) a b
  unfolding transform apply_operation
  transform-Meets (discrete s) c x a b hs hc =
      let m = transform_discrete_server-LoopMeets s c x a b hs hc in
      record {
        server_op = discrete m.server_op;
        client_op = m.client_op;
        meeting = m.meeting;
        transformed = rw m.transformed refl;
        client_applied = m.client_applied;
        server_applied = m.server_applied;
      }
  transform-Meets (compound ss) c x a b hs hc =
      let m = transform_server_ops-LoopMeets ss c x a b hs hc in
      record {
        server_op = compound m.server_op;
        client_op = m.client_op;
        meeting = m.meeting;
        transformed = rw m.transformed refl;
        client_applied = m.client_applied;
        server_applied = m.server_applied;
      }

  -- When two discrete operations that can be applied to one state are always transformed to a pair
  -- with which both sites meet, then so are two operations of any kind, compound ones too.
  pub transform-Transforms : Transforms (apply_operation apply) (transform tfr)
  transform-Transforms = record { meets = transform-Meets }
