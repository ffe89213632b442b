-- ===== src/References.antt =====
-- References into a model, and how an operation moves them: ModelReferenceData
-- (src/main/model/ot/xform/ReferenceTransformer.ts), IndexTransformer and RangeTransformer
-- (src/main/model/ot/xform/reference).
--
-- handleReorder, which nothing calls with a value, is left out.
pub mod Indices
pub mod Transform
pub mod Bounds
pub mod Remote
pub mod Tests
use Prim.Native.String.{String}
use convergence_client_javas.Base.{ℕ, ◌+◌, ◌-◌, min, Option, List, map, leb, ltb, if◌then◌else◌}

pub record IndexRange : Type 0 where
  pub start : ℕ
  pub end : ℕ

-- The values of a reference, by its type: "index", "range", "element" and "property".
pub data ReferenceValues : Type 0 where
  index_values : List ℕ → ReferenceValues
  range_values : List IndexRange → ReferenceValues
  element_values : List String → ReferenceValues
  property_values : List String → ReferenceValues

-- The id of the value is null for a reference of the model.
pub record ModelReferenceData : Type 0 where
  pub value_id : Option String
  pub values : ReferenceValues

-- The test `index >= index` holds of every index. In front of the splice the difference
-- `index - spliceIndex` is below 0, so that `Math.min` gives it and `spliceIndex` is left.
unfoldable pub splice_index : ℕ → ℕ → ℕ → ℕ → ℕ
splice_index splice_at delete_count insert_count index =
    if leb splice_at index
    then index - min (index - splice_at) delete_count + insert_count
    else splice_at + insert_count

unfoldable pub insert_index : ℕ → ℕ → ℕ → ℕ
insert_index insert_at length index = if leb insert_at index then index + length else index

unfoldable pub remove_index : ℕ → ℕ → ℕ → ℕ
remove_index remove_at length index =
    if ltb remove_at index then index - min (index - remove_at) length else index

unfoldable pub handle_splice : List ℕ → ℕ → ℕ → ℕ → List ℕ
handle_splice indices splice_at delete_count insert_count =
    map (splice_index splice_at delete_count insert_count) indices

unfoldable pub handle_insert : List ℕ → ℕ → ℕ → List ℕ
handle_insert indices insert_at length = map (insert_index insert_at length) indices

unfoldable pub handle_remove : List ℕ → ℕ → ℕ → List ℕ
handle_remove indices remove_at length = map (remove_index remove_at length) indices

-- A range with both its ends moved.
unfoldable pub move_ends : (ℕ → ℕ) → IndexRange → IndexRange
move_ends f range = record { start = f range.start; end = f range.end }

unfoldable pub handle_splice_ranges : List IndexRange → ℕ → ℕ → ℕ → List IndexRange
handle_splice_ranges ranges splice_at delete_count insert_count =
    map (move_ends (splice_index splice_at delete_count insert_count)) ranges

unfoldable pub handle_insert_ranges : List IndexRange → ℕ → ℕ → List IndexRange
handle_insert_ranges ranges insert_at length =
    map (move_ends (insert_index insert_at length)) ranges

unfoldable pub handle_remove_ranges : List IndexRange → ℕ → ℕ → List IndexRange
handle_remove_ranges ranges remove_at length =
    map (move_ends (remove_index remove_at length)) ranges
