-- ===== src/Concurrency/ArraySessions.antt =====
-- Sessions on a model of arrays: ClientConcurrencyControl
-- (src/main/model/ot/ClientConcurrencyControl.ts) with the registry's functions for arrays.
use convergence_client_javas.Base.{◌≡◌, List, []}
use convergence_client_javas.Arrays.{DeepEquals, ArrayOperation}
use convergence_client_javas.Nodes.{Nodes}
use convergence_client_javas.Arrays.Model.{apply_to_model, array_registry}
use convergence_client_javas.Arrays.Model.Meets.{array_registry-Transforms}
use convergence_client_javas.Concurrency.{ClientConcurrencyControl}
use convergence_client_javas.Concurrency.Protocol.{Session, Session-settled}

-- In every session on a model of any number of arrays, whatever array operations the user and the
-- server issue, in any order: once nothing is in flight, pending or unapplied, the user sees the
-- server's arrays.
pub array-Session_settled :
    {V : Type 0} (d : DeepEquals V) (ds : DeepEquals (List V))
    (control : ClientConcurrencyControl (ArrayOperation V)) (x y : Nodes (List V))
    → Session (array_registry d ds) apply_to_model control x y
    → control.inflight_operations ≡ []
    → control.pending_compound_operation ≡ []
    → control.unapplied_operations ≡ []
    → x ≡ y
array-Session_settled d ds =
    Session-settled (array_registry d ds) apply_to_model (array_registry-Transforms d ds)
