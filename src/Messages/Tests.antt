-- ===== src/Messages/Tests.antt =====
-- The theorem on messages at a compound operation.
use convergence_client_javas.Base.{ℕ, ◌≡◌, false, [], ◌∷◌, ok, inl, inr}
use convergence_client_javas.Base.Integers.{negsuc}
use convergence_client_javas.Transformer.{Operation, compound}
use convergence_client_javas.Arrays.{array_insert}
use convergence_client_javas.Values.{number_delta}
use convergence_client_javas.DataValues.{date_value}
use convergence_client_javas.Messages.{SentOperation, to_i_operation_data, to_operation}
use convergence_client_javas.Messages.RoundTrip.{to_operation-to_i_operation_data}

abbrev insert_and_add : Operation (SentOperation ℕ)
insert_and_add = compound (
    inl (
      array_insert (record {
        id = "list";
        no_op = false;
        index = 2;
        value = date_value "new" (negsuc 1234566);
      }))
    ∷ inr (inr (inr (inl (number_delta (record { id = "count"; no_op = false; delta = 3 })))))
    ∷ [])

to_operation-to_i_operation_data_example :
    to_operation 0 (to_i_operation_data insert_and_add) ≡ ok insert_and_add
to_operation-to_i_operation_data_example = to_operation-to_i_operation_data 0 insert_and_add
