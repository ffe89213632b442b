-- ===== src/Concurrency/Committed.antt =====
-- `isCommitted` of ClientConcurrencyControl (src/main/model/ot/ClientConcurrencyControl.ts), and
-- the test by which commit_state_changed is emitted.
use convergence_client_javas.Base.{true≢false, not, ◌&&◌, ◌||◌, ◌≡◌, ◌↔◌, refl, List, [], ◌∷◌}
use convergence_client_javas.Concurrency.{
  ClientConcurrencyControl, is_empty, has_inflight_operation, is_committed, was_committed,
}

module _ {D : Type 0} {E : Type 0} where
  tests_agree :
      (is : List E) (os : List D)
      → (not (not (is_empty is)) || not (is_empty os)) ≡ (is_empty is && is_empty os)
      → os ≡ []
  tests_agree is [] h = refl
  tests_agree [] (o ∷ os) h = absurd (true≢false h)
  tests_agree (i ∷ is) (o ∷ os) h = absurd (true≢false h)

  tests_agree_when_empty :
      (is : List E) (os : List D)
      → os ≡ []
      → (not (not (is_empty is)) || not (is_empty os)) ≡ (is_empty is && is_empty os)
  tests_agree_when_empty [] os h = rw h refl
  tests_agree_when_empty (i ∷ is) os h = rw h refl

-- `isCommitted` agrees with the test by which the events are emitted exactly when the batch has no
-- operations, whatever is in flight.
pub is_committed-was_committed_iff :
    {D : Type 0} (control : ClientConcurrencyControl D)
    → (is_committed control ≡ was_committed control) ↔ (control.pending_compound_operation ≡ [])
unfolding is_committed was_committed has_inflight_operation
is_committed-was_committed_iff control = (
  tests_agree control.inflight_operations control.pending_compound_operation,
  tests_agree_when_empty control.inflight_operations control.pending_compound_operation,
)
