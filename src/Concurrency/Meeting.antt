-- ===== src/Concurrency/Meeting.antt =====
-- The loops of ClientConcurrencyControl (src/main/model/ot/ClientConcurrencyControl.ts) over its
-- three queues: an operation that passes a queue meets it.
use convergence_client_javas.Base.{
  ℕ, ◌≡◌, refl, sym, ◌∙◌, List, [], ◌∷◌, ◌++◌, Result, ok, throws, Returned, returned, ok-injective,
  inl, inr, ok≢throws, result_cases,
}
use convergence_client_javas.Transformer.{
  Operation, discrete, Registry, transform_two_discrete_ops, transform,
}
use convergence_client_javas.Transformer.Meets.{
  apply_all, apply_operation, Transforms, transform-Transforms,
}
use convergence_client_javas.Transformer.Discrete.{IsDiscrete, transform-IsDiscrete}
use convergence_client_javas.Concurrency.{ClientOperationEvent, ServerOperationEvent}
use convergence_client_javas.Concurrency.Process.{
  transform_inflight_operations, transform_pending_compound_operations, transform_outgoing,
}

module _ {D : Type 0} where
  abbrev pub inflight : List (ClientOperationEvent D) → List (Operation D)
  inflight [] = []
  inflight (e ∷ es) = e.operation ∷ inflight es

  abbrev pub pending : List D → List (Operation D)
  pending [] = []
  pending (o ∷ os) = discrete o ∷ pending os

  abbrev pub unapplied : List (ServerOperationEvent D) → List (Operation D)
  unapplied [] = []
  unapplied (e ∷ es) = e.operation ∷ unapplied es

module _ {D S : Type 0} (apply : D → S → Result S) where
  -- Operations one after the other.
  abbrev pub apply_each : List (Operation D) → S → Result S
  apply_each = apply_all (apply_operation apply)

  -- A loop `t` over a queue returned an operation; from `a` the queue that it leaves and from `b`
  -- the operation lead to one state.
  pub record QueueMeets {Q : Type 0} (operations : Q → List (Operation D))
      (t : Q × Result (Operation D)) (a b : S) : Type 0 where
    pub out : Operation D
    pub meeting : S
    pub transformed : t.1 ≡ ok out
    pub queue_applied : apply_each (operations t.0) a ≡ ok meeting
    pub out_applied : apply_operation apply out b ≡ ok meeting

  pub apply_all-append :
      (os ps : List (Operation D)) (x y z : S)
      → apply_each os x ≡ ok y
      → apply_each ps y ≡ ok z
      → apply_each (os ++ ps) x ≡ ok z
  unfolding apply_all
  apply_all-append [] ps x y z ho hp = rw (ok-injective ho) hp
  apply_all-append (o ∷ os) ps x y z ho hp =
      let r = returned (apply_operation apply o x) (apply_each os) y ho in
      rw r.first (apply_all-append os ps r.value y z r.rest hp)

  pub apply_all_split :
      (os ps : List (Operation D)) (x z : S)
      → apply_each (os ++ ps) x ≡ ok z
      → Returned (apply_each os x) (apply_each ps) z
  unfolding apply_all
  apply_all_split [] ps x z h = record { value = x; first = refl; rest = h }
  apply_all_split (o ∷ os) ps x z h =
      let r = returned (apply_operation apply o x) (apply_each (os ++ ps)) z h in
      let n = apply_all_split os ps r.value z r.rest in
      record { value = n.value; first = rw r.first n.first; rest = n.rest }

  pub apply_all_one :
      (o : Operation D) (x y : S) → apply_operation apply o x ≡ ok y → apply_each (o ∷ []) x ≡ ok y
  unfolding apply_all
  apply_all_one o x y h = rw h refl

module _ {D S : Type 0} (tfr : Registry D) (apply : D → S → Result S)
    (law : Transforms apply (transform_two_discrete_ops tfr)) where
  transformer : Transforms (apply_operation apply) (transform tfr)
  transformer = transform-Transforms tfr apply law

  pub transform_inflight_operations-QueueMeets :
      (v : ℕ) (s : Operation D) (es : List (ClientOperationEvent D)) (x a b : S)
      → apply_operation apply s x ≡ ok a
      → apply_each apply (inflight es) x ≡ ok b
      → QueueMeets apply inflight (transform_inflight_operations tfr v s es) a b
  unfolding transform_inflight_operations apply_all
  transform_inflight_operations-QueueMeets v s [] x a b hs hc = record {
    out = s;
    meeting = a;
    transformed = refl;
    queue_applied = refl;
    out_applied = rw (sym (ok-injective hc)) hs;
  }
  transform_inflight_operations-QueueMeets v s (e ∷ es) x a b hs hc =
      let r =
        returned (apply_operation apply e.operation x) (apply_each apply (inflight es)) b hc in
      let m = transformer.meets s e.operation x a r.value hs r.first in
      let n =
        transform_inflight_operations-QueueMeets v m.server_op es r.value m.meeting b
          m.server_applied r.rest in
      record {
        out = n.out;
        meeting = n.meeting;
        transformed = rw m.transformed n.transformed;
        queue_applied = rw (m.transformed, m.client_applied) n.queue_applied;
        out_applied = n.out_applied;
      }

  pub transform_pending_compound_operations-QueueMeets :
      (s : Operation D) (os : List D) (x a b : S)
      → apply_operation apply s x ≡ ok a
      → apply_each apply (pending os) x ≡ ok b
      → QueueMeets apply pending (transform_pending_compound_operations tfr s os) a b
  unfolding transform_pending_compound_operations apply_all
  transform_pending_compound_operations-QueueMeets s [] x a b hs hc = record {
    out = s;
    meeting = a;
    transformed = refl;
    queue_applied = refl;
    out_applied = rw (sym (ok-injective hc)) hs;
  }
  transform_pending_compound_operations-QueueMeets s (o ∷ os) x a b hs hc =
      let r =
        returned (apply_operation apply (discrete o) x) (apply_each apply (pending os)) b hc in
      let m = transformer.meets s (discrete o) x a r.value hs r.first in
      let k =
        transform-IsDiscrete tfr s (discrete o) _ (record { operation = o; is_it = refl })
          m.transformed in
      let n =
        transform_pending_compound_operations-QueueMeets m.server_op os r.value m.meeting b
          m.server_applied r.rest in
      let applied : apply_operation apply (discrete k.operation) a ≡ ok m.meeting =
        rw (sym k.is_it) m.client_applied in
      record {
        out = n.out;
        meeting = n.meeting;
        transformed = rw (m.transformed, k.is_it) n.transformed;
        queue_applied = rw (m.transformed, k.is_it, applied) n.queue_applied;
        out_applied = n.out_applied;
      }

  pub transform_outgoing-QueueMeets :
      (es : List (ServerOperationEvent D)) (c : Operation D) (x a b : S)
      → apply_each apply (unapplied es) x ≡ ok a
      → apply_operation apply c x ≡ ok b
      → QueueMeets apply unapplied (transform_outgoing tfr es c) b a
  unfolding transform_outgoing apply_all
  transform_outgoing-QueueMeets [] c x a b hs hc = record {
    out = c;
    meeting = b;
    transformed = refl;
    queue_applied = refl;
    out_applied = rw (sym (ok-injective hs)) hc;
  }
  transform_outgoing-QueueMeets (e ∷ es) c x a b hs hc =
      let r =
        returned (apply_operation apply e.operation x) (apply_each apply (unapplied es)) a hs in
      let m = transformer.meets e.operation c x r.value b r.first hc in
      let n =
        transform_outgoing-QueueMeets es m.client_op r.value a m.meeting r.rest m.client_applied in
      record {
        out = n.out;
        meeting = n.meeting;
        transformed = rw m.transformed n.transformed;
        queue_applied = rw (m.transformed, m.server_applied) n.queue_applied;
        out_applied = n.out_applied;
      }

  pub transform_outgoing-IsDiscrete :
      (es : List (ServerOperationEvent D)) (c out : Operation D)
      → IsDiscrete c
      → (transform_outgoing tfr es c).1 ≡ ok out
      → IsDiscrete out
  unfolding transform_outgoing
  transform_outgoing-IsDiscrete [] c out i h = rw (sym (ok-injective h)) i
  transform_outgoing-IsDiscrete (e ∷ es) c out i h =
      elim (result_cases (transform tfr e.operation c)) [
        | inl (p, q) ↦
            let step : (transform_outgoing tfr (e ∷ es) c).1
                ≡ (transform_outgoing tfr es p.client_op).1 =
              rw q refl in
            transform_outgoing-IsDiscrete es p.client_op out
              (transform-IsDiscrete tfr e.operation c p i q) (sym step ∙ h)
        | inr (x, q) ↦
            let step : (transform_outgoing tfr (e ∷ es) c).1 ≡ throws x = rw q refl in
            absurd (ok≢throws (sym h ∙ step))
      ]

module _ {D : Type 0} (tfr : Registry D) where
  pub pass_nothing : (s : Operation D) → (transform_pending_compound_operations tfr s []).0 ≡ []
  unfolding transform_pending_compound_operations
  pass_nothing s = refl
