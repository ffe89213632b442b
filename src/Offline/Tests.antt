-- ===== src/Offline/Tests.antt =====
-- A stored operation at work, and the theorem at a compound operation.
use convergence_client_javas.Base.{
  ℕ, ◌≡◌, refl, false, [], ◌∷◌, ok, throws, not_an_operation, inl, inr,
}
use convergence_client_javas.Transformer.{Operation, compound}
use convergence_client_javas.Arrays.{array_insert}
use convergence_client_javas.Values.{number_delta}
use convergence_client_javas.Models.{ModelOperation}
use convergence_client_javas.Offline.{
  fields, offline_type, operation_of_type, from_offline_operation_data, to_offline, from_offline,
}
use convergence_client_javas.Offline.RoundTrip.{from_offline-to_offline}

abbrev both : Operation (ModelOperation ℕ ℕ ℕ)
both = compound (
    inl (array_insert (record { id = "list"; no_op = false; index = 2; value = 7 }))
    ∷ inr (inr (inr (inl (number_delta (record { id = "count"; no_op = false; delta = 3 })))))
    ∷ [])

-- A type that no operation has.
unknown_refused :
    from_offline_operation_data {V = ℕ} {N = ℕ} {T = ℕ} (fields "array_sort" "list" false)
    ≡ throws not_an_operation
unfolding from_offline_operation_data offline_type operation_of_type
unknown_refused = refl

from_offline-to_offline_example : from_offline (to_offline both) ≡ ok both
from_offline-to_offline_example = from_offline-to_offline both
