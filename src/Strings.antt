-- ===== src/Strings.antt =====
-- The string operations (src/main/model/ot/ops/StringSpliceOperation.ts and StringSetOperation.ts),
-- and StringNode (src/main/model/internal/StringNode.ts), which applies them.
--
-- A string is the list of its UTF-16 code units, as `length` and `slice` count them.
pub mod Switches
pub mod Transform
pub mod Apply
pub mod Events
pub mod Convergence
pub mod Faults
pub mod Plain
pub mod Tests
use Prim.Native.String.{String}
use convergence_client_javas.Base.{
  ℕ, suc, ◌+◌, Bool, false, ◌&&◌, List, [], ◌∷◌, ◌++◌, take, drop, length, ltb, leb, ◌==◌,
  if◌then◌else◌, Result, ok, throws, index_out_of_bounds, ◌>>=◌,
}

abbrev pub Text : Type 0
Text = List ℕ

pub record StringSpliceOperation : Type 0 where
  pub id : String
  pub no_op : Bool
  pub index : ℕ
  pub delete_count : ℕ
  pub insert_value : Text

pub record StringSetOperation : Type 0 where
  pub id : String
  pub no_op : Bool
  pub value : Text

-- OperationType.STRING_SPLICE and OperationType.STRING_VALUE.
pub data StringOperation : Type 0 where
  string_splice : StringSpliceOperation → StringOperation
  string_value : StringSetOperation → StringOperation

-- The events of a string node, with their `local` flag.
pub data StringNodeEvent : Type 0 where
  string_node_remove : Bool → ℕ → Text → StringNodeEvent
  string_node_insert : Bool → ℕ → Text → StringNodeEvent
  string_node_splice : Bool → ℕ → ℕ → Text → StringNodeEvent
  string_node_set_value : Bool → Text → StringNodeEvent

pub record StringNode : Type 0 where
  pub node_id : String
  pub text : Text
  pub emitted : List StringNodeEvent

-- `Validation.assertValidStringIndex(index, str, true)`.
assert_valid_string_index : ℕ → Text → Result (Unit {0})
assert_valid_string_index index str =
    if leb (suc (length str)) index then throws index_out_of_bounds else ok tt

-- The text after `_applySplice`.
unfoldable pub splice_text : Text → ℕ → ℕ → Text → Result Text
unfolding assert_valid_string_index
splice_text str index delete_count insert_value = do
  _ ← assert_valid_string_index index str
  _ ← assert_valid_string_index (index + delete_count) str
  ok (take index str ++ (insert_value ++ drop (index + delete_count) str))

-- The event of `_applySplice`; an edit that changes nothing has none.
unfoldable pub splice_event : Bool → Text → ℕ → ℕ → Text → List StringNodeEvent
splice_event local str index delete_count insert_value =
    let removed = take delete_count (drop index str) in
    if ltb 0 delete_count && (length insert_value == 0)
    then string_node_remove local index removed ∷ []
    else if (delete_count == 0) && ltb 0 (length insert_value)
    then string_node_insert local index insert_value ∷ []
    else if ltb 0 delete_count && ltb 0 (length insert_value)
    then string_node_splice local index delete_count insert_value ∷ []
    else []

unfoldable pub apply_splice : StringNode → Bool → ℕ → ℕ → Text → Result StringNode
apply_splice node local index delete_count insert_value = do
  text ← splice_text node.text index delete_count insert_value
  ok (record node {
    text = text;
    emitted = node.emitted ++ splice_event local node.text index delete_count insert_value;
  })

unfoldable pub apply_set_value : StringNode → Bool → Text → StringNode
apply_set_value node local value = record node {
  text = value;
  emitted = node.emitted ++ string_node_set_value local value ∷ [];
}

-- `_handleModelOperationEvent`, for a remote operation.
unfoldable pub handle_model_operation_event : StringNode → StringOperation → Result StringNode
unfolding apply_splice apply_set_value
handle_model_operation_event node (string_splice o) =
    apply_splice node false o.index o.delete_count o.insert_value
handle_model_operation_event node (string_value o) = ok (apply_set_value node false o.value)

abbrev pub is_no_op : StringOperation → Bool
is_no_op (string_splice o) = o.no_op
is_no_op (string_value o) = o.no_op

-- `RealTimeModel._applyDiscreteOperation`, at a string node.
unfoldable pub apply_discrete_operation : StringOperation → StringNode → Result StringNode
unfolding handle_model_operation_event
apply_discrete_operation o node =
    if is_no_op o then ok node else handle_model_operation_event node o

-- The text alone of what `apply_discrete_operation` does.
unfoldable pub apply_text : StringOperation → Text → Result Text
apply_text o str = if is_no_op o then ok str else elim o [
  | string_splice p ↦ splice_text str p.index p.delete_count p.insert_value
  | string_value p ↦ ok p.value
]
