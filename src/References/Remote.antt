-- ===== src/References/Remote.antt =====
-- The values of a reference that another user sets: RealTimeModel._handleRemoteReferenceEvent
-- (src/main/model/rt/RealTimeModel.ts), from the reference of the message to the event for the
-- element.
use text.Mathlib.TextEquality.{eq_iff}
use convergence_client_javas.Base.{
  ℕ, ◌≡◌, refl, ap, ◌∙◌, true, false, Option, none, some, List, [], ◌∷◌, map, Result, ok, throws,
  null_dereferenced, ◌>>=◌,
}
use convergence_client_javas.Transformer.{discrete}
use convergence_client_javas.Concurrency.{ClientConcurrencyControl, ClientOperationEvent}
use convergence_client_javas.Strings.{StringOperation, StringSetOperation, string_value}
use convergence_client_javas.Strings.Plain.{string_operation_id}
use convergence_client_javas.References.{ReferenceValues, index_values, ModelReferenceData}
use convergence_client_javas.References.Transform.{
  ReferenceRegistry, string_references, string_reference_function, targets, call_function,
  transform_with_identical_path_operation, transform_discrete_operation, transform_each,
  transform_reference, process_remote_reference_set,
}

-- `data.values`.
unfoldable pub values_of : Option ModelReferenceData → Result ReferenceValues
values_of none = throws null_dereferenced
values_of (some r) = ok r.values

unfoldable pub remote_values :
    {D : Type 0}
    → ReferenceRegistry D
    → ClientConcurrencyControl D
    → ModelReferenceData
    → Result ReferenceValues
remote_values tfr control r = do data' ← process_remote_reference_set tfr control r; values_of data'

transform_each-none :
    {O : Type 0} (step : O → ModelReferenceData → Result (Option ModelReferenceData)) (os : List O)
    → transform_each step os none ≡ ok none
unfolding transform_each
transform_each-none step [] = refl
transform_each-none step (o ∷ os) = refl

module _ (control : ClientConcurrencyControl StringOperation)
    (event : ClientOperationEvent StringOperation)
    (events : List (ClientOperationEvent StringOperation)) (o : StringSetOperation)
    (r : ModelReferenceData) (first : control.inflight_operations ≡ event ∷ events)
    (sets : event.operation ≡ discrete (string_value o)) (live : o.no_op ≡ false)
    (into : r.value_id ≡ some o.id) where
  set_at_target : targets o.id r.value_id ≡ true
  unfolding targets
  set_at_target = ap (targets o.id) into ∙ (eq_iff o.id o.id).1 refl

  cleared_by_set :
      (ks : List ℕ)
      → r.values ≡ index_values ks
      → transform_reference string_references event.operation r ≡ ok none
  unfolding transform_reference transform_discrete_operation transform_with_identical_path_operation
      string_reference_function call_function string_operation_id
  cleared_by_set ks positions =
      ap (λ q. transform_reference string_references q r) sets
      ∙ simp (live, set_at_target, positions) refl

  cleared_first :
      (ks : List ℕ)
      → r.values ≡ index_values ks
      → process_remote_reference_set string_references control r ≡ ok none
  unfolding process_remote_reference_set transform_each
  cleared_first ks positions =
      ap
        (λ q.
          transform_each (transform_reference string_references) (map (λ e. e.operation) q)
            (some r))
        first
      ∙ rw (cleared_by_set ks positions) (
          transform_each-none (transform_reference string_references)
            (map (λ e. e.operation) events))

  -- When the first operation in flight is a set of a string, not a no-op, an index reference into
  -- that string that arrives from another user makes the client read a field of null.
  pub remote_values-throws :
      (ks : List ℕ)
      → r.values ≡ index_values ks
      → remote_values string_references control r ≡ throws null_dereferenced
  unfolding remote_values values_of
  remote_values-throws ks positions = rw (cleared_first ks positions) refl
