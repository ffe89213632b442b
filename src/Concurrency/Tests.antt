-- ===== src/Concurrency/Tests.antt =====
-- A session over additions to one number, whose function leaves both operations as they are, and
-- the theorems at it.
use convergence_client_javas.Base.{
  ℕ, ◌+◌, Bool, true, false, ◌||◌, ◌≡◌, ◌↔◌, refl, sym, ◌∙◌, inl, inr, Bool-cases, [], ◌∷◌, some,
  Result, ok, if◌then◌else◌, ok-injective, arith,
}
use convergence_client_javas.Operations.{pair}
use convergence_client_javas.Transformer.{
  discrete, Registry, transform_identical_path_operations, transform_two_discrete_ops,
  transform_discrete_server, transform,
}
use convergence_client_javas.Transformer.Meets.{apply_operation, Transforms, transform-Transforms}
use convergence_client_javas.Concurrency.{
  ClientOperationEvent, ServerOperationEvent, ClientConcurrencyControl, is_committed, was_committed,
  new_control, get_next_incoming_operation, shift_unapplied, process_acknowledgement, acknowledge,
}
use convergence_client_javas.Concurrency.Process.{
  process_outgoing_operation, process_remote_operation, transform_outgoing,
  transform_inflight_operations, transform_pending_compound_operations, enqueue,
}
use convergence_client_javas.Concurrency.Committed.{is_committed-was_committed_iff}
use convergence_client_javas.Concurrency.Consistent.{Consistent}
use convergence_client_javas.Concurrency.Protocol.{
  Session, opened, remote, edited, shown, acknowledged, Session-Consistent, Session-settled,
  process_remote_operation_returns, get_next_incoming_operation_applies,
}

record Addition : Type 0 where
  no_op : Bool
  amount : ℕ

abbrev additions : Registry Addition
additions = record {
  operation_id = λ o. "count";
  is_no_op = λ o. o.no_op;
  get_operation_transformation_function = λ s c. some (λ s c. ok (pair s c));
}

unfoldable add : Addition → ℕ → Result ℕ
add o x = if o.no_op then ok x else ok (x + o.amount)

unfoldable total : Addition → ℕ → ℕ
total o x = if o.no_op then x else x + o.amount

add-total : (o : Addition) (x : ℕ) → add o x ≡ ok (total o x)
unfolding add total
add-total o x = elim (Bool-cases o.no_op) [ inl e ↦ rw e refl | inr e ↦ rw e refl ]

total-swap : (s c : Addition) (x : ℕ) → total c (total s x) ≡ total s (total c x)
unfolding total
total-swap s c x = ground arith

unchanged : (s c : Addition) → transform_two_discrete_ops additions s c ≡ ok (pair s c)
unfolding transform_two_discrete_ops transform_identical_path_operations
unchanged s c = elim (Bool-cases (s.no_op || c.no_op)) [ inl e ↦ rw e refl | inr e ↦ rw e refl ]

additions_meet : Transforms add (transform_two_discrete_ops additions)
additions_meet = record {
  meets = λ s c x a b hs hc. record {
    server_op = s;
    client_op = c;
    meeting = total s (total c x);
    transformed = unchanged s c;
    client_applied =
        rw
          (sym (ok-injective (sym (add-total s x) ∙ hs)), add-total c (total s x), total-swap s c x)
          refl;
    server_applied = rw (sym (ok-injective (sym (add-total c x) ∙ hc))) (add-total s (total c x));
  };
}

transform-Transforms_example : Transforms (apply_operation add) (transform additions)
transform-Transforms_example = transform-Transforms additions add additions_meet

abbrev plus : ℕ → Addition
plus n = record { no_op = false; amount = n }

abbrev plus_three : ServerOperationEvent Addition
plus_three = record {
  client_id = "other";
  version = 0;
  timestamp = 0;
  operation = discrete (plus 3);
}

abbrev at_first : ClientConcurrencyControl Addition
at_first = new_control "mine" 0 0

abbrev after_edit : ClientConcurrencyControl Addition
after_edit = (process_outgoing_operation additions 0 (discrete (plus 2)) at_first).0

abbrev after_remote : ClientConcurrencyControl Addition
after_remote = (process_remote_operation additions plus_three after_edit).0

abbrev after_shown : ClientConcurrencyControl Addition
after_shown = (get_next_incoming_operation after_remote).0

abbrev after_acknowledgement : ClientConcurrencyControl Addition
after_acknowledgement = (process_acknowledgement 1 (some 1) after_shown).0

edit-Session : Session additions add after_edit 5 7
unfolding add
edit-Session = edited at_first 0 (plus 2) 5 5 7 (opened "mine" 0 0 5) refl

remote_version : plus_three.version ≡ after_edit.context_version
unfolding new_control process_outgoing_operation transform_outgoing enqueue was_committed
remote_version = refl

remote_applies : apply_operation add plus_three.operation 5 ≡ ok 8
unfolding apply_operation add
remote_applies = refl

remote-Session : Session additions add after_remote 8 7
remote-Session = remote after_edit plus_three 5 8 7 edit-Session remote_version remote_applies

shown_next : (get_next_incoming_operation after_remote).1 ≡ some plus_three
unfolding new_control process_outgoing_operation transform_outgoing enqueue was_committed
    process_remote_operation transform_inflight_operations transform_pending_compound_operations
    transform transform_discrete_server transform_two_discrete_ops
    transform_identical_path_operations get_next_incoming_operation shift_unapplied
shown_next = refl

shown-Session : Session additions add after_shown 8 10
unfolding apply_operation add
shown-Session = shown after_remote plus_three 8 7 10 remote-Session shown_next refl

abbrev sent_edit : ClientOperationEvent Addition
sent_edit = record {
  session_id = "mine";
  seq_no = 1;
  context_version = 1;
  timestamp = 0;
  operation = discrete (plus 2);
}

acknowledged_edit : (process_acknowledgement 1 (some 1) after_shown).1 ≡ ok sent_edit
unfolding new_control process_outgoing_operation transform_outgoing enqueue was_committed
    process_remote_operation transform_inflight_operations transform_pending_compound_operations
    transform transform_discrete_server transform_two_discrete_ops
    transform_identical_path_operations get_next_incoming_operation shift_unapplied
    process_acknowledgement acknowledge
acknowledged_edit = refl

settled-Session : Session additions add after_acknowledgement 10 10
unfolding apply_operation add
settled-Session =
    acknowledged after_shown 1 (some 1) sent_edit 8 10 10 shown-Session acknowledged_edit refl

-- Nothing is left in the three queues, and the last event says that all is committed.
queues_empty :
    (after_acknowledgement.inflight_operations ≡ [])
    × (after_acknowledgement.pending_compound_operation ≡ [])
    × (after_acknowledgement.unapplied_operations ≡ [])
    × (after_acknowledgement.emitted ≡ false ∷ true ∷ [])
unfolding new_control process_outgoing_operation transform_outgoing enqueue was_committed
    process_remote_operation transform_inflight_operations transform_pending_compound_operations
    transform transform_discrete_server transform_two_discrete_ops
    transform_identical_path_operations get_next_incoming_operation shift_unapplied
    process_acknowledgement acknowledge
queues_empty = (refl, refl, refl, refl)

Session-Consistent_example : Consistent add after_shown 8 10
Session-Consistent_example =
    Session-Consistent additions add additions_meet after_shown 8 10 shown-Session

Session-settled_example : ◌≡◌ {A = ℕ} 10 10
Session-settled_example =
    Session-settled additions add additions_meet after_acknowledgement 10 10 settled-Session
      queues_empty.0 queues_empty.1 queues_empty.2

process_remote_operation_returns_example :
    (process_remote_operation additions plus_three after_edit).1 ≡ ok tt
process_remote_operation_returns_example =
    process_remote_operation_returns additions add additions_meet after_edit 5 8 7 plus_three
      edit-Session remote_version remote_applies

get_next_incoming_operation_applies_example :
    (y' : ℕ) × (apply_operation add plus_three.operation 7 ≡ ok y')
get_next_incoming_operation_applies_example =
    get_next_incoming_operation_applies additions add additions_meet after_remote 8 7 plus_three
      remote-Session shown_next

abbrev in_batch : ClientConcurrencyControl Addition
in_batch = record (new_control "mine" 0 0) {
  compound_op_in_progress = true;
  pending_compound_operation = plus 1 ∷ [];
}

is_committed-was_committed_iff_example :
    (is_committed in_batch ≡ was_committed in_batch) ↔ (in_batch.pending_compound_operation ≡ [])
is_committed-was_committed_iff_example = is_committed-was_committed_iff in_batch
