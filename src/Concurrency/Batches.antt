-- ===== src/Concurrency/Batches.antt =====
-- The batch of ClientConcurrencyControl (src/main/model/ot/ClientConcurrencyControl.ts): starting,
-- cancelling and completing one.
use convergence_client_javas.Base.{
  ℕ, subst, true, ◌≡◌, refl, List, [], ◌∷◌, Bool-cases, inl, inr, Result, ok, returned,
}
use convergence_client_javas.Transformer.{compound}
use convergence_client_javas.Transformer.Meets.{apply_all, apply_operation}
use convergence_client_javas.Concurrency.{
  ClientConcurrencyControl, is_empty, start_batch_operation, cancel_batch_operation,
  complete_batch_operation,
}
use convergence_client_javas.Concurrency.Meeting.{inflight, pending, apply_each}
use convergence_client_javas.Concurrency.Consistent.{Consistent, inflight-append, one_more}

module _ {D S : Type 0} (apply : D → S → Result S) where
  -- The operations of a batch one by one are the compound operation.
  together :
      (os : List D) (a b : S)
      → apply_each apply (pending os) a ≡ ok b
      → apply_operation apply (compound os) a ≡ ok b
  unfolding apply_all apply_operation
  together [] a b k = k
  together (o ∷ os) a b k =
      let r = returned (apply o a) (apply_each apply (pending os)) b k in
      rw r.first (together os r.value b r.rest)

is_empty-eq {ℓ} : {A : Type ℓ} (xs : List A) → is_empty xs ≡ true → xs ≡ []
is_empty-eq [] h = refl
is_empty-eq (x ∷ xs) h = cc

module _ {D S : Type 0} (apply : D → S → Result S) (control : ClientConcurrencyControl D) (x y : S)
    (h : Consistent apply control x y) where
  pub start-Consistent : Consistent apply (start_batch_operation control).0 x y
  unfolding start_batch_operation
  start-Consistent = elim (Bool-cases control.compound_op_in_progress) [
    | inl b ↦ simp b h
    | inr b ↦ rw b (record {
      sent = h.sent;
      meeting = h.meeting;
      inflight_applied = h.inflight_applied;
      pending_applied =
          subst (λ q. apply_each apply (pending q) h.sent ≡ ok h.meeting) (h.idle b)
            h.pending_applied;
      unapplied_applied = h.unapplied_applied;
      idle = λ f. refl;
    })
  ]

  pub cancel-Consistent : Consistent apply (cancel_batch_operation control).0 x y
  unfolding cancel_batch_operation
  cancel-Consistent = elim (Bool-cases control.compound_op_in_progress) [
    | inl b ↦ elim (Bool-cases (is_empty control.pending_compound_operation)) [
      | inl n ↦
          rw (b, n)
            (record {
              sent = h.sent;
              meeting = h.meeting;
              inflight_applied = h.inflight_applied;
              pending_applied = h.pending_applied;
              unapplied_applied = h.unapplied_applied;
              idle = λ f. is_empty-eq control.pending_compound_operation n;
            })
      | inr n ↦ simp (b, n) h
    ]
    | inr b ↦ simp b h
  ]

  pub complete-Consistent :
      (now : ℕ) → Consistent apply (complete_batch_operation now control).0 x y
  unfolding complete_batch_operation apply_all
  complete-Consistent now = elim (Bool-cases control.compound_op_in_progress) [
    | inl b ↦ elim (Bool-cases (is_empty control.pending_compound_operation)) [
      | inl n ↦
          rw (b, n)
            (record {
              sent = h.sent;
              meeting = h.meeting;
              inflight_applied = h.inflight_applied;
              pending_applied = h.pending_applied;
              unapplied_applied = h.unapplied_applied;
              idle = λ f. is_empty-eq control.pending_compound_operation n;
            })
      | inr n ↦
          rw (b, n)
            (record {
              sent = h.meeting;
              meeting = h.meeting;
              inflight_applied = rw (inflight-append control.inflight_operations _) (
                  one_more apply (inflight control.inflight_operations)
                    (compound control.pending_compound_operation) x h.sent h.meeting
                    h.inflight_applied
                    (together apply control.pending_compound_operation h.sent h.meeting
                      h.pending_applied));
              pending_applied = refl;
              unapplied_applied = h.unapplied_applied;
              idle = λ f. refl;
            })
    ]
    | inr b ↦ simp b h
  ]
