-- ===== src/Concurrency/Consistent.antt =====
-- What holds between the queues of ClientConcurrencyControl
-- (src/main/model/ot/ClientConcurrencyControl.ts), the server's state and the user's; an operation
-- of the server and an edit keep it.
use convergence_client_javas.Base.{
  ℕ, suc, subst, Bool, true, false, true≢false, ◌&&◌, ◌≡◌, refl, sym, ap, List, [], ◌∷◌, ◌++◌, ◌==◌,
  ==_iff, Bool-cases, inl, inr, Result, ok, ok-injective,
}
use convergence_client_javas.Transformer.{Operation, discrete, Registry, transform_two_discrete_ops}
use convergence_client_javas.Transformer.Meets.{apply_all, apply_operation, Transforms}
use convergence_client_javas.Transformer.Discrete.{IsDiscrete}
use convergence_client_javas.Concurrency.{
  ClientOperationEvent, ServerOperationEvent, ClientConcurrencyControl,
}
use convergence_client_javas.Concurrency.Process.{
  enqueue, process_outgoing_operation, process_remote_operation,
}
use convergence_client_javas.Concurrency.Meeting.{
  inflight, pending, unapplied, apply_each, apply_all-append, apply_all_one,
  transform_inflight_operations-QueueMeets, transform_pending_compound_operations-QueueMeets,
  transform_outgoing-QueueMeets, transform_outgoing-IsDiscrete, pass_nothing,
}

-- At a state `server` of the server, of the control's context version, and a state `local` of the
-- user: the operations that the server has yet to receive and those that the user has yet to see
-- lead to one state. Without a batch nothing is pending.
pub record Consistent {D S : Type 0} (apply : D → S → Result S)
    (control : ClientConcurrencyControl D) (server local : S) : Type 0 where
  pub sent : S
  pub meeting : S
  pub inflight_applied : apply_each apply (inflight control.inflight_operations) server ≡ ok sent
  pub pending_applied :
      apply_each apply (pending control.pending_compound_operation) sent ≡ ok meeting
  pub unapplied_applied :
      apply_each apply (unapplied control.unapplied_operations) local ≡ ok meeting
  pub idle : control.compound_op_in_progress ≡ false → control.pending_compound_operation ≡ []

module _ {D : Type 0} where
  pub inflight-append :
      (es : List (ClientOperationEvent D)) (e : ClientOperationEvent D)
      → inflight (es ++ e ∷ []) ≡ inflight es ++ e.operation ∷ []
  inflight-append [] e = refl
  inflight-append (d ∷ es) e = ap (λ os. d.operation ∷ os) (inflight-append es e)

  pub pending-append :
      (os : List D) (o : D) → pending (os ++ o ∷ []) ≡ pending os ++ discrete o ∷ []
  pending-append [] o = refl
  pending-append (p ∷ os) o = ap (λ qs. discrete p ∷ qs) (pending-append os o)

  pub unapplied-append :
      (es : List (ServerOperationEvent D)) (e : ServerOperationEvent D)
      → unapplied (es ++ e ∷ []) ≡ unapplied es ++ e.operation ∷ []
  unapplied-append [] e = refl
  unapplied-append (d ∷ es) e = ap (λ os. d.operation ∷ os) (unapplied-append es e)

module _ {D S : Type 0} (apply : D → S → Result S) where
  -- One more operation after a list.
  pub one_more :
      (os : List (Operation D)) (o : Operation D) (x y z : S)
      → apply_each apply os x ≡ ok y
      → apply_operation apply o y ≡ ok z
      → apply_each apply (os ++ o ∷ []) x ≡ ok z
  one_more os o x y z h k = apply_all-append apply os (o ∷ []) x y z h (apply_all_one apply o y z k)

no_guard : (b : Bool) → (b && false) ≡ false
no_guard true = refl
no_guard false = refl

module _ {D S : Type 0} (tfr : Registry D) (apply : D → S → Result S)
    (law : Transforms apply (transform_two_discrete_ops tfr)) where
  -- An operation of the server, of the expected version, that the server could apply.
  pub remote-Consistent :
      (control : ClientConcurrencyControl D) (e : ServerOperationEvent D) (x x' y : S)
      → Consistent apply control x y
      → e.version ≡ control.context_version
      → apply_operation apply e.operation x ≡ ok x'
      → ((process_remote_operation tfr e control).1 ≡ ok tt)
        × Consistent apply (process_remote_operation tfr e control).0 x' y
  unfolding process_remote_operation
  remote-Consistent control e x x' y c v hs =
      let m =
        transform_inflight_operations-QueueMeets tfr apply law e.version e.operation
          control.inflight_operations x x' c.sent hs c.inflight_applied in
      let n =
        transform_pending_compound_operations-QueueMeets tfr apply law m.out
          control.pending_compound_operation c.sent m.meeting c.meeting m.out_applied
          c.pending_applied in
      let same : (e.version == control.context_version) ≡ true =
        (==_iff e.version control.context_version).1 v in
      rw (same, m.transformed, n.transformed)
        (
          refl,
          record {
            sent = m.meeting;
            meeting = n.meeting;
            inflight_applied = m.queue_applied;
            pending_applied = n.queue_applied;
            unapplied_applied =
                rw (unapplied-append control.unapplied_operations (record e { operation = n.out }))
                  (one_more apply (unapplied control.unapplied_operations) n.out y c.meeting
                    n.meeting c.unapplied_applied n.out_applied);
            idle = λ h. rw (c.idle h) (pass_nothing tfr m.out);
          },
        )

  enqueue-Consistent :
      (control : ClientConcurrencyControl D) (now : ℕ) (c : Operation D) (x y z y' : S)
      → (h : Consistent apply control x y) → IsDiscrete c
      → apply_operation apply c h.meeting ≡ ok z
      → (es : List (ServerOperationEvent D)) → apply_each apply (unapplied es) y' ≡ ok z
      → Consistent apply (enqueue now c (record control { unapplied_operations = es })).0 x y'
  unfolding enqueue apply_all
  enqueue-Consistent control now c x y z y' h i hc es he =
      elim (Bool-cases control.compound_op_in_progress) [
        | inl b ↦
            rw (b, i.is_it)
              (record {
                sent = h.sent;
                meeting = z;
                inflight_applied = h.inflight_applied;
                pending_applied =
                    rw (pending-append control.pending_compound_operation i.operation) (
                      one_more apply (pending control.pending_compound_operation)
                        (discrete i.operation) h.sent h.meeting z h.pending_applied
                        (rw (sym i.is_it) hc));
                unapplied_applied = he;
                idle = λ f. absurd (true≢false f);
              })
        | inr b ↦
            let nothing = h.idle b in
            let met : apply_each apply [] h.sent ≡ ok h.meeting =
              subst (λ q. apply_each apply (pending q) h.sent ≡ ok h.meeting) nothing
                h.pending_applied in
            rw b (record {
              sent = z;
              meeting = z;
              inflight_applied =
                  rw
                    (inflight-append control.inflight_operations (record {
                      session_id = control.session_id;
                      seq_no = suc control.last_sequence_number;
                      context_version = control.context_version;
                      timestamp = now;
                      operation = c;
                    }))
                    (one_more apply (inflight control.inflight_operations) c x h.sent z
                      h.inflight_applied (rw (ok-injective met) hc));
              pending_applied = rw nothing refl;
              unapplied_applied = he;
              idle = λ f. h.idle b;
            })
      ]

  -- An edit that the user has made.
  pub outgoing-Consistent :
      (control : ClientConcurrencyControl D) (now : ℕ) (o : D) (x y y' : S)
      → Consistent apply control x y
      → apply o y ≡ ok y'
      → Consistent apply (process_outgoing_operation tfr now (discrete o) control).0 x y'
  unfolding process_outgoing_operation apply_operation
  outgoing-Consistent control now o x y y' h ho =
      let m =
        transform_outgoing-QueueMeets tfr apply law control.unapplied_operations (discrete o) y
          h.meeting y' h.unapplied_applied ho in
      let i =
        transform_outgoing-IsDiscrete tfr apply law control.unapplied_operations (discrete o) m.out
          (record { operation = o; is_it = refl }) m.transformed in
      rw (no_guard control.compound_op_in_progress, m.transformed)
        (enqueue-Consistent control now m.out x y m.meeting y' h i m.out_applied _ m.queue_applied)
