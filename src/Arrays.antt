-- ===== src/Arrays.antt =====
-- The array operations (src/main/model/ot/ops/Array*Operation.ts), and what ArrayNode
-- (src/main/model/internal/ArrayNode.ts) does with its children when it applies one.
--
-- A child is known by its data value, of a type that the model takes as a parameter; so is the
-- comparison EqualsUtil.deepEquals, with the law that equal means equal.
pub mod Move
pub mod Transform
pub mod Positions
pub mod Model
pub mod Convergence
pub mod Tests
use Prim.Native.String.{String}
use convergence_client_javas.Base.{
  ℕ, suc, Bool, true, false, ◌||◌, ◌≡◌, List, [], ◌∷◌, take, drop, length, splice, leb, ltb,
  if◌then◌else◌, Result, ok, throws, index_out_of_bounds, ◌>>=◌,
}

-- `EqualsUtil.deepEquals` on the values of the model.
pub record DeepEquals (V : Type 0) : Type 0 where
  pub deep_equals : V → V → Bool
  pub deep_equals-eq : (x y : V) → deep_equals x y ≡ true → x ≡ y

pub record ArrayInsertOperation (V : Type 0) : Type 0 where
  pub id : String
  pub no_op : Bool
  pub index : ℕ
  pub value : V

pub record ArrayRemoveOperation : Type 0 where
  pub id : String
  pub no_op : Bool
  pub index : ℕ

pub record ArrayReplaceOperation (V : Type 0) : Type 0 where
  pub id : String
  pub no_op : Bool
  pub index : ℕ
  pub value : V

pub record ArrayMoveOperation : Type 0 where
  pub id : String
  pub no_op : Bool
  pub from_index : ℕ
  pub to_index : ℕ

pub record ArraySetOperation (V : Type 0) : Type 0 where
  pub id : String
  pub no_op : Bool
  pub value : List V

-- OperationType.ARRAY_INSERT, ARRAY_REMOVE, ARRAY_SET, ARRAY_REORDER and ARRAY_VALUE.
pub data ArrayOperation (V : Type 0) : Type 0 where
  array_insert : ArrayInsertOperation V → ArrayOperation V
  array_remove : ArrayRemoveOperation → ArrayOperation V
  array_set : ArrayReplaceOperation V → ArrayOperation V
  array_reorder : ArrayMoveOperation → ArrayOperation V
  array_value : ArraySetOperation V → ArrayOperation V

module _ {V : Type 0} where
  -- `_applyInsert` with `_validateInsert`.
  unfoldable pub apply_insert : List V → ℕ → V → Result (List V)
  apply_insert children index value =
      if ltb (length children) index
      then throws index_out_of_bounds
      else ok (splice children index 0 (value ∷ []))

  -- `_applySet` with `_validateReplace`; the assignment to an index in bounds as a splice.
  unfoldable pub apply_set : List V → ℕ → V → Result (List V)
  apply_set children index value =
      if leb (length children) index
      then throws index_out_of_bounds
      else ok (splice children index 1 (value ∷ []))

  -- `_applyRemove` with `_validateRemove`.
  unfoldable pub apply_remove : List V → ℕ → Result (List V)
  apply_remove children index =
      if leb (length children) index
      then throws index_out_of_bounds
      else ok (splice children index 1 [])

  -- The two splices of `_applyReorder`; the child at an index in bounds as a list of one.
  unfoldable pub reorder : List V → ℕ → ℕ → List V
  reorder children from_index to_index =
      splice (splice children from_index 1 []) to_index 0 (take 1 (drop from_index children))

  -- `_applyReorder` with `_validateMove`.
  unfoldable pub apply_reorder : List V → ℕ → ℕ → Result (List V)
  apply_reorder children from_index to_index =
      if leb (length children) from_index || leb (length children) to_index
      then throws index_out_of_bounds
      else ok (reorder children from_index to_index)

  -- The dispatch of `_handleModelOperationEvent`.
  unfoldable pub handle_model_operation_event : ArrayOperation V → List V → Result (List V)
  handle_model_operation_event (array_insert o) children = apply_insert children o.index o.value
  handle_model_operation_event (array_reorder o) children =
      apply_reorder children o.from_index o.to_index
  handle_model_operation_event (array_remove o) children = apply_remove children o.index
  handle_model_operation_event (array_set o) children = apply_set children o.index o.value
  handle_model_operation_event (array_value o) children = ok o.value

  abbrev pub is_no_op : ArrayOperation V → Bool
  is_no_op (array_insert o) = o.no_op
  is_no_op (array_remove o) = o.no_op
  is_no_op (array_set o) = o.no_op
  is_no_op (array_reorder o) = o.no_op
  is_no_op (array_value o) = o.no_op

  -- `RealTimeModel._applyDiscreteOperation`, at an array node.
  unfoldable pub apply_discrete_operation : ArrayOperation V → List V → Result (List V)
  apply_discrete_operation o children =
      if is_no_op o then ok children else handle_model_operation_event o children
