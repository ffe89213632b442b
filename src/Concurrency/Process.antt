-- ===== src/Concurrency/Process.antt =====
-- The methods of ClientConcurrencyControl (src/main/model/ot/ClientConcurrencyControl.ts) that
-- transform: what an operation from either side does to the queues.
use convergence_client_javas.Base.{
  ℕ, suc, Bool, true, false, not, ◌&&◌, List, [], ◌∷◌, ◌++◌, Option, none, some, ◌==◌,
  if◌then◌else◌, Result, ok, throws, on_result, not_discrete, batch_in_progress, unexpected_version,
}
use convergence_client_javas.Transformer.{Operation, discrete, compound, Registry, transform}
use convergence_client_javas.Concurrency.{
  ClientOperationEvent, ServerOperationEvent, ClientConcurrencyControl, Left, was_committed,
}

module _ {D : Type 0} where
  -- The cast `as DiscreteOperation`.
  abbrev pub as_discrete : Operation D → Result D
  as_discrete (discrete o) = ok o
  as_discrete (compound os) = throws not_discrete

  -- `operation instanceof DiscreteOperation`.
  abbrev pub instance_of_discrete : Operation D → Bool
  instance_of_discrete (discrete o) = true
  instance_of_discrete (compound os) = false

  -- The end of `processOutgoingOperation`: the transformed operation joins the batch or goes out.
  unfoldable pub enqueue :
      ℕ → Operation D → ClientConcurrencyControl D → Left D (Option (ClientOperationEvent D))
  enqueue now c control =
      let emitted = control.emitted ++ (if was_committed control then false ∷ [] else []) in
      let event : ClientOperationEvent D = record {
        session_id = control.session_id;
        seq_no = suc control.last_sequence_number;
        context_version = control.context_version;
        timestamp = now;
        operation = c;
      } in
      if control.compound_op_in_progress
      then on_result (as_discrete c) (λ x. (control, throws x))
          (λ o. (
            record control {
              pending_compound_operation = control.pending_compound_operation ++ o ∷ [];
              emitted = emitted;
            },
            ok none,
          ))
      else (
        record control {
          last_sequence_number = suc control.last_sequence_number;
          inflight_operations = control.inflight_operations ++ event ∷ [];
          emitted = emitted;
        },
        ok (some event),
      )

module _ {D : Type 0} (tfr : Registry D) where
  -- The loop of `transformInflightOperations`: the queue it leaves, and the server operation.
  unfoldable pub transform_inflight_operations :
      ℕ
      → Operation D
      → List (ClientOperationEvent D)
      → List (ClientOperationEvent D) × Result (Operation D)
  transform_inflight_operations version s [] = ([], ok s)
  transform_inflight_operations version s (e ∷ es) =
      on_result (transform tfr s e.operation) (λ x. (e ∷ es, throws x))
        (λ p.
          let rest = transform_inflight_operations version p.server_op es in
          (record e { context_version = suc version; operation = p.client_op } ∷ rest.0, rest.1))

  -- The loop of `transformPendingCompoundOperations`.
  unfoldable pub transform_pending_compound_operations :
      Operation D → List D → List D × Result (Operation D)
  transform_pending_compound_operations s [] = ([], ok s)
  transform_pending_compound_operations s (o ∷ os) =
      on_result (transform tfr s (discrete o)) (λ x. (o ∷ os, throws x))
        (λ p.
          on_result (as_discrete p.client_op) (λ x. (o ∷ os, throws x))
            (λ c.
              let rest = transform_pending_compound_operations p.server_op os in
              (c ∷ rest.0, rest.1)))

  -- The loop of `transformOutgoing`.
  unfoldable pub transform_outgoing :
      List (ServerOperationEvent D)
      → Operation D
      → List (ServerOperationEvent D) × Result (Operation D)
  transform_outgoing [] c = ([], ok c)
  transform_outgoing (e ∷ es) c =
      on_result (transform tfr e.operation c) (λ x. (e ∷ es, throws x))
        (λ p.
          let rest = transform_outgoing es p.client_op in
          (record e { operation = p.server_op } ∷ rest.0, rest.1))

  unfoldable pub process_outgoing_operation :
      ℕ → Operation D → ClientConcurrencyControl D → Left D (Option (ClientOperationEvent D))
  process_outgoing_operation now operation control =
      let t = transform_outgoing control.unapplied_operations operation in
      let moved : ClientConcurrencyControl D = record control { unapplied_operations = t.0 } in
      if control.compound_op_in_progress && not (instance_of_discrete operation)
      then (control, throws batch_in_progress)
      else on_result t.1 (λ x. (moved, throws x)) (λ c. enqueue now c moved)

  unfoldable pub process_remote_operation :
      ServerOperationEvent D → ClientConcurrencyControl D → Left D (Unit {0})
  process_remote_operation incoming control =
      let t =
        transform_inflight_operations incoming.version incoming.operation
          control.inflight_operations in
      let moved : ClientConcurrencyControl D = record control { inflight_operations = t.0 } in
      if not (incoming.version == control.context_version)
      then (control, throws unexpected_version)
      else on_result t.1 (λ x. (moved, throws x))
          (λ s.
            let u = transform_pending_compound_operations s control.pending_compound_operation in
            on_result u.1 (λ x. (record moved { pending_compound_operation = u.0 }, throws x))
              (λ r. (
                record moved {
                  pending_compound_operation = u.0;
                  context_version = suc control.context_version;
                  unapplied_operations =
                      control.unapplied_operations ++ record incoming { operation = r } ∷ [];
                },
                ok tt,
              )))
