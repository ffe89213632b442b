-- ===== src/Strings/Events.antt =====
-- The events of a string node (src/main/model/internal/StringNode.ts), as a listener that keeps its
-- own copy of the text takes them.
use convergence_client_javas.Base.{
  ℕ, zero, suc, ◌+◌, ◌≤◌, ◌≡◌, refl, sym, ap, true, false, Bool-cases, inl, inr, List, [], ◌∷◌,
  ◌++◌, take, drop, length-take, length-drop, ok, length, splice, ltb, ◌==◌, arith,
}
use convergence_client_javas.Strings.{
  Text, StringOperation, string_splice, string_value, StringNodeEvent, string_node_remove,
  string_node_insert, string_node_splice, string_node_set_value, StringNode, splice_event,
  apply_splice, apply_set_value, handle_model_operation_event, apply_discrete_operation,
}
use convergence_client_javas.Strings.Apply.{splice_text-ok}

-- The copy of the text after an event: what the event says was removed or inserted there.
abbrev pub replay : StringNodeEvent → Text → Text
replay (string_node_remove local i removed) str = splice str i (length removed) []
replay (string_node_insert local i value) str = splice str i 0 value
replay (string_node_splice local i d value) str = splice str i d value
replay (string_node_set_value local value) str = value

abbrev pub replay_all : List StringNodeEvent → Text → Text
replay_all [] str = str
replay_all (e ∷ es) str = replay_all es (replay e str)

-- A splice edits characters that are there.
abbrev pub EditsWithin : StringOperation → Text → Type 0
EditsWithin (string_splice o) str = o.index + o.delete_count ≤ length str
EditsWithin (string_value o) str = Unit {0}

take-drop : {A : Type 0} (i : ℕ) (xs : List A) → take i xs ++ drop i xs ≡ xs
take-drop zero xs = refl
take-drop (suc i) [] = refl
take-drop (suc i) (x ∷ xs) = λ j. x ∷ take-drop i xs j

append-empty : {A : Type 0} (xs : List A) → xs ≡ xs ++ []
append-empty [] = refl
append-empty (x ∷ xs) = λ j. x ∷ append-empty xs j

splice-nothing : (str : Text) (i : ℕ) → splice str i 0 [] ≡ str
unfolding splice
splice-nothing str i = rw (plus_zero i) (take-drop i str)
  where
    plus_zero : (n : ℕ) → n + 0 ≡ n
    plus_zero n = omega arith

length-removed : (str : Text) (i d : ℕ) → i + d ≤ length str → length (take d (drop i str)) ≡ d
length-removed str i d h = omega (arith, length-take d (drop i str), length-drop i str)

above_zero : (n : ℕ) → (ltb 0 (suc n) ≡ true) × ((suc n == 0) ≡ false)
above_zero n = (ground arith, ground arith)

splice_event-replayed :
    (str : Text) (i d : ℕ) (ins : Text)
    → i + d ≤ length str
    → replay_all (splice_event false str i d ins) str ≡ splice str i d ins
unfolding splice_event
splice_event-replayed str i zero [] h = sym (splice-nothing str i)
splice_event-replayed str i zero (x ∷ xs) h = rw (above_zero (length xs)).0 refl
splice_event-replayed str i (suc d) [] h =
    rw (above_zero d).0 (ap (λ k. splice str i k []) (length-removed str i (suc d) h))
splice_event-replayed str i (suc d) (x ∷ xs) h =
    rw ((above_zero d).0, (above_zero d).1, (above_zero (length xs)).0, (above_zero (length xs)).1)
      refl

-- A call that returned, with the events it emitted.
pub record Replayed (o : StringOperation) (n : StringNode) : Type 0 where
  pub node : StringNode
  pub events : List StringNodeEvent
  pub returned : apply_discrete_operation o n ≡ ok node
  pub emitted : node.emitted ≡ n.emitted ++ events
  pub replayed : replay_all events n.text ≡ node.text
  pub same_id : node.node_id ≡ n.node_id

module _ (n : StringNode) where
  splice-Replayed :
      (i d : ℕ) (ins : Text)
      → i + d ≤ length n.text
      → apply_splice n false i d ins
        ≡ ok (record n {
          text = splice n.text i d ins;
          emitted = n.emitted ++ splice_event false n.text i d ins;
        })
  unfolding apply_splice
  splice-Replayed i d ins h = rw (splice_text-ok n.text i d ins h) refl

  -- An operation that edits only characters that are there, a no-op included, is taken in by a string
  -- node; a listener that applies the events that are emitted to a copy of the text has the text of
  -- the node; the node stays the one with its id.
  pub apply_discrete_operation-Replayed :
      (o : StringOperation) → EditsWithin o n.text → Replayed o n
  unfolding apply_discrete_operation handle_model_operation_event apply_set_value
  apply_discrete_operation-Replayed (string_splice o) h = elim (Bool-cases o.no_op) [
    | inl e ↦ record {
      node = n;
      events = [];
      returned = rw e refl;
      emitted = append-empty n.emitted;
      replayed = refl;
      same_id = refl;
    }
    | inr e ↦ record {
      node = _;
      events = splice_event false n.text o.index o.delete_count o.insert_value;
      returned = rw e (splice-Replayed o.index o.delete_count o.insert_value h);
      emitted = refl;
      replayed = splice_event-replayed n.text o.index o.delete_count o.insert_value h;
      same_id = refl;
    }
  ]
  apply_discrete_operation-Replayed (string_value o) h = elim (Bool-cases o.no_op) [
    | inl e ↦ record {
      node = n;
      events = [];
      returned = rw e refl;
      emitted = append-empty n.emitted;
      replayed = refl;
      same_id = refl;
    }
    | inr e ↦ record {
      node = _;
      events = string_node_set_value false o.value ∷ [];
      returned = rw e refl;
      emitted = refl;
      replayed = refl;
      same_id = refl;
    }
  ]
