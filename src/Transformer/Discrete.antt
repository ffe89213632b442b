-- ===== src/Transformer/Discrete.antt =====
-- The casts of the transformer's results: a discrete client operation stays discrete.
use convergence_client_javas.Base.{◌≡◌, sym, ap, List, [], ◌∷◌, ok, returned, ok-injective}
use convergence_client_javas.Operations.{OperationPair}
use convergence_client_javas.Transformer.{
  Operation, discrete, compound, Registry, transform_two_discrete_ops, transform_discrete_server,
  transform_server_ops, transform,
}

-- The operation is a discrete one.
pub record IsDiscrete {D : Type 0} (o : Operation D) : Type 0 where
  pub operation : D
  pub is_it : o ≡ discrete operation

module _ {D : Type 0} (tfr : Registry D) where
  transform_discrete_server-IsDiscrete :
      (s : D) (c : Operation D) (q : D × Operation D)
      → IsDiscrete c
      → transform_discrete_server tfr s c ≡ ok q
      → IsDiscrete q.1
  unfolding transform_discrete_server
  transform_discrete_server-IsDiscrete s (discrete c) q i h =
      let r =
        returned (transform_two_discrete_ops tfr s c) (λ p. ok (p.server_op, discrete p.client_op))
          q h in
      record { operation = r.value.client_op; is_it = ap (λ p. p.1) (sym (ok-injective r.rest)) }
  transform_discrete_server-IsDiscrete s (compound cs) q i h = absurd cc

  transform_server_ops-IsDiscrete :
      (ss : List D) (c : Operation D) (q : List D × Operation D)
      → IsDiscrete c
      → transform_server_ops tfr ss c ≡ ok q
      → IsDiscrete q.1
  unfolding transform_server_ops
  transform_server_ops-IsDiscrete [] c q i h = rw (sym (ok-injective h)) i
  transform_server_ops-IsDiscrete (s ∷ ss) c q i h =
      let r = returned (transform_discrete_server tfr s c) _ q h in
      let n = returned (transform_server_ops tfr ss r.value.1) _ q r.rest in
      rw (sym (ok-injective n.rest)) (
        transform_server_ops-IsDiscrete ss r.value.1 n.value
          (transform_discrete_server-IsDiscrete s c r.value i r.first) n.first)

  pub transform-IsDiscrete :
      (s c : Operation D) (p : OperationPair (Operation D))
      → IsDiscrete c
      → transform tfr s c ≡ ok p
      → IsDiscrete p.client_op
  unfolding transform
  transform-IsDiscrete (discrete s) c p i h =
      let r = returned (transform_discrete_server tfr s c) _ p h in
      rw (sym (ok-injective r.rest)) (transform_discrete_server-IsDiscrete s c r.value i r.first)
  transform-IsDiscrete (compound ss) c p i h =
      let r = returned (transform_server_ops tfr ss c) _ p h in
      rw (sym (ok-injective r.rest)) (transform_server_ops-IsDiscrete ss c r.value i r.first)
