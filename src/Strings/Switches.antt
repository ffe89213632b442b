-- ===== src/Strings/Switches.antt =====
-- The four `switch` statements over the relationship of the two deleted ranges in
-- src/main/model/ot/xform/string/StringSpliceSpliceOTF.ts.
--
-- Every subtraction below stands under a relationship that keeps its result at 0 or above.
use convergence_client_javas.Base.{ℕ, ◌+◌, ◌-◌, true, length}
use convergence_client_javas.Range.{
  RangeRangeRelationship, precedes, preceded_by, meets, met_by, overlaps, overlapped_by, starts,
  started_by, contains, contained_by, finishes, finished_by, equal_to,
}
use convergence_client_javas.Operations.{OperationPair, pair}
use convergence_client_javas.Strings.{StringSpliceOperation}

abbrev pub Splice : Type 0
Splice = StringSpliceOperation

abbrev pub Splices : Type 0
Splices = OperationPair StringSpliceOperation

-- `s.index + s.deleteCount - c.index` and `c.index + c.deleteCount - s.index`.
abbrev pub overlap_length : Splice → Splice → ℕ
overlap_length s c = s.index + s.delete_count - c.index

-- The `switch` of transformRemoveRemove.
unfoldable pub remove_remove : RangeRangeRelationship → Splice → Splice → Splices
remove_remove precedes s c = pair s (record c { index = c.index - s.delete_count })
remove_remove preceded_by s c = pair (record s { index = s.index - c.delete_count }) c
remove_remove meets s c =
    pair (record s { delete_count = s.delete_count - overlap_length s c })
      (record c { index = s.index; delete_count = c.delete_count - overlap_length s c })
remove_remove overlaps s c =
    pair (record s { delete_count = s.delete_count - overlap_length s c })
      (record c { index = s.index; delete_count = c.delete_count - overlap_length s c })
remove_remove met_by s c =
    pair (record s { index = c.index; delete_count = s.delete_count - overlap_length c s })
      (record c { delete_count = c.delete_count - overlap_length c s })
remove_remove overlapped_by s c =
    pair (record s { index = c.index; delete_count = s.delete_count - overlap_length c s })
      (record c { delete_count = c.delete_count - overlap_length c s })
remove_remove starts s c =
    pair (record s { no_op = true }) (record c { delete_count = c.delete_count - s.delete_count })
remove_remove contained_by s c =
    pair (record s { no_op = true }) (record c { delete_count = c.delete_count - s.delete_count })
remove_remove finishes s c =
    pair (record s { no_op = true }) (record c { delete_count = c.delete_count - s.delete_count })
remove_remove started_by s c =
    pair (record s { delete_count = s.delete_count - c.delete_count }) (record c { no_op = true })
remove_remove contains s c =
    pair (record s { delete_count = s.delete_count - c.delete_count }) (record c { no_op = true })
remove_remove finished_by s c =
    pair (record s { delete_count = s.delete_count - c.delete_count }) (record c { no_op = true })
remove_remove equal_to s c = pair (record s { no_op = true }) (record c { no_op = true })

-- The `switch` of transformRemoveSplice.
unfoldable pub remove_splice : RangeRangeRelationship → Splice → Splice → Splices
remove_splice precedes s c = pair s (record c { index = c.index - s.delete_count })
remove_splice preceded_by s c =
    pair (record s { index = s.index - c.delete_count + length c.insert_value }) c
remove_splice meets s c =
    pair (record s { delete_count = s.delete_count - overlap_length s c })
      (record c { index = s.index; delete_count = c.delete_count - overlap_length s c })
remove_splice overlaps s c =
    pair (record s { delete_count = s.delete_count - overlap_length s c })
      (record c { index = s.index; delete_count = c.delete_count - overlap_length s c })
remove_splice met_by s c =
    pair
      (record s {
        index = c.index + length c.insert_value;
        delete_count = s.delete_count - overlap_length c s;
      })
      (record c { delete_count = c.delete_count - overlap_length c s })
remove_splice overlapped_by s c =
    pair
      (record s {
        index = c.index + length c.insert_value;
        delete_count = s.delete_count - overlap_length c s;
      })
      (record c { delete_count = c.delete_count - overlap_length c s })
remove_splice starts s c =
    pair (record s { no_op = true }) (record c { delete_count = c.delete_count - s.delete_count })
remove_splice finishes s c =
    pair (record s { no_op = true }) (record c { delete_count = c.delete_count - s.delete_count })
remove_splice contained_by s c =
    pair (record s { no_op = true }) (record c { delete_count = c.delete_count - s.delete_count })
remove_splice started_by s c =
    pair
      (record s {
        index = s.index + length c.insert_value;
        delete_count = s.delete_count - c.delete_count;
      })
      (record c { index = s.index; delete_count = 0 })
remove_splice finished_by s c =
    pair (record s { delete_count = s.delete_count - c.delete_count })
      (record c { index = s.index; delete_count = 0 })
remove_splice contains s c =
    pair (record s { delete_count = s.delete_count - c.delete_count + length c.insert_value })
      (record c { no_op = true })
remove_splice equal_to s c = pair (record s { no_op = true }) (record c { delete_count = 0 })

-- The `switch` of transformSpliceRemove.
unfoldable pub splice_remove : RangeRangeRelationship → Splice → Splice → Splices
splice_remove precedes s c =
    pair s (record c { index = c.index - s.delete_count + length s.insert_value })
splice_remove preceded_by s c = pair (record s { index = s.index - c.delete_count }) c
splice_remove meets s c =
    pair (record s { delete_count = s.delete_count - overlap_length s c })
      (record c {
        index = s.index + length s.insert_value;
        delete_count = c.delete_count - overlap_length s c;
      })
splice_remove overlaps s c =
    pair (record s { delete_count = s.delete_count - overlap_length s c })
      (record c {
        index = s.index + length s.insert_value;
        delete_count = c.delete_count - overlap_length s c;
      })
splice_remove met_by s c =
    pair (record s { index = c.index; delete_count = s.delete_count - overlap_length c s })
      (record c { delete_count = c.delete_count - overlap_length c s })
splice_remove overlapped_by s c =
    pair (record s { index = c.index; delete_count = s.delete_count - overlap_length c s })
      (record c { delete_count = c.delete_count - overlap_length c s })
splice_remove starts s c =
    pair (record s { delete_count = 0 })
      (record c {
        index = c.index + length s.insert_value;
        delete_count = c.delete_count - s.delete_count;
      })
splice_remove finishes s c =
    pair (record s { index = c.index; delete_count = 0 })
      (record c { delete_count = c.delete_count - s.delete_count })
splice_remove contained_by s c =
    pair (record s { no_op = true })
      (record c { delete_count = c.delete_count - s.delete_count + length s.insert_value })
splice_remove started_by s c =
    pair (record s { delete_count = s.delete_count - c.delete_count })
      (record c { delete_count = 0 })
splice_remove finished_by s c =
    pair (record s { delete_count = s.delete_count - c.delete_count })
      (record c { delete_count = 0 })
splice_remove contains s c =
    pair (record s { delete_count = s.delete_count - c.delete_count })
      (record c { delete_count = 0 })
splice_remove equal_to s c = pair (record s { delete_count = 0 }) (record c { no_op = true })

-- The `switch` of transformSpliceSplice. In the case `preceded_by` the source adds the length of
-- the server's own text.
unfoldable pub splice_splice : RangeRangeRelationship → Splice → Splice → Splices
splice_splice precedes s c =
    pair s (record c { index = c.index - s.delete_count + length s.insert_value })
splice_splice preceded_by s c =
    pair (record s { index = s.index - c.delete_count + length s.insert_value }) c
splice_splice meets s c =
    pair (record s { delete_count = s.delete_count - overlap_length s c })
      (record c {
        index = s.index + length s.insert_value;
        delete_count = c.delete_count - overlap_length s c;
      })
splice_splice overlaps s c =
    pair (record s { delete_count = s.delete_count - overlap_length s c })
      (record c {
        index = s.index + length s.insert_value;
        delete_count = c.delete_count - overlap_length s c;
      })
splice_splice met_by s c =
    pair
      (record s {
        index = c.index + length c.insert_value;
        delete_count = s.delete_count - overlap_length c s;
      })
      (record c { delete_count = c.delete_count - overlap_length c s })
splice_splice overlapped_by s c =
    pair
      (record s {
        index = c.index + length c.insert_value;
        delete_count = s.delete_count - overlap_length c s;
      })
      (record c { delete_count = c.delete_count - overlap_length c s })
splice_splice starts s c =
    pair (record s { delete_count = 0 })
      (record c {
        index = c.index + length s.insert_value;
        delete_count = c.delete_count - s.delete_count;
      })
splice_splice contained_by s c =
    pair (record s { no_op = true })
      (record c { delete_count = c.delete_count - s.delete_count + length s.insert_value })
splice_splice finishes s c =
    pair (record s { index = c.index + length c.insert_value; delete_count = 0 })
      (record c { delete_count = c.delete_count - s.delete_count })
splice_splice started_by s c =
    pair
      (record s {
        index = s.index + length c.insert_value;
        delete_count = s.delete_count - c.delete_count;
      })
      (record c { delete_count = 0 })
splice_splice contains s c =
    pair (record s { delete_count = s.delete_count - c.delete_count + length c.insert_value })
      (record c { no_op = true })
splice_splice finished_by s c =
    pair (record s { delete_count = s.delete_count - c.delete_count })
      (record c { delete_count = 0; index = s.index + length s.insert_value })
splice_splice equal_to s c =
    pair (record s { delete_count = 0 })
      (record c { index = c.index + length s.insert_value; delete_count = 0 })
