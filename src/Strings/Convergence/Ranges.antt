-- ===== src/Strings/Convergence/Ranges.antt =====
-- Two splices that both delete: the `switch` statements of StringSpliceSpliceOTF.ts, row by row.
use convergence_client_javas.Base.{◌+◌, ◌<◌, ◌≤◌, ◌≡◌, length, arith}
use convergence_client_javas.Range.{
  RangeRangeRelationship, precedes, preceded_by, meets, met_by, overlaps, overlapped_by, starts,
  started_by, contains, contained_by, finishes, finished_by, equal_to,
}
use convergence_client_javas.Range.Allen.{Allen}
use convergence_client_javas.Operations.{Converges}
use convergence_client_javas.Strings.{Text, StringSpliceOperation}
use convergence_client_javas.Strings.Switches.{
  remove_remove, remove_splice, splice_remove, splice_splice,
}
use convergence_client_javas.Strings.Convergence.{apply_op, Input}
use convergence_client_javas.Strings.Convergence.Moves.{
  s_before_c, c_before_s, s_overlaps_c, c_overlaps_s, s_in_c, c_in_s, c_in_s_idle, both_idle,
}

module _ {s c : StringSpliceOperation} {str : Text} (inp : Input s c str) where
  open inp use {s_fits, c_fits}

  abbrev pub AllenOf : RangeRangeRelationship → Type 0
  AllenOf r = Allen r s.index (s.index + s.delete_count) c.index (c.index + c.delete_count)

  pub remove_remove_rows-Converges :
      (r : RangeRangeRelationship)
      → AllenOf r
      → length s.insert_value ≡ 0
      → length c.insert_value ≡ 0
      → Converges apply_op (remove_remove r s c) s c str
  unfolding remove_remove
  remove_remove_rows-Converges precedes h hs hc = s_before_c inp _ (omega arith) (omega arith)
  remove_remove_rows-Converges preceded_by h hs hc = c_before_s inp _ (omega arith) (omega arith)
  remove_remove_rows-Converges meets h hs hc =
      s_overlaps_c inp _ _ _ _ (omega arith) (omega arith) (omega arith) (omega arith) (omega arith)
        (omega arith) (omega arith)
  remove_remove_rows-Converges overlaps h hs hc =
      s_overlaps_c inp _ _ _ _ (omega arith) (omega arith) (omega arith) (omega arith) (omega arith)
        (omega arith) (omega arith)
  remove_remove_rows-Converges met_by h hs hc =
      c_overlaps_s inp _ _ _ _ (omega arith) (omega arith) (omega arith) (omega arith) (omega arith)
        (omega arith) (omega arith)
  remove_remove_rows-Converges overlapped_by h hs hc =
      c_overlaps_s inp _ _ _ _ (omega arith) (omega arith) (omega arith) (omega arith) (omega arith)
        (omega arith) (omega arith)
  remove_remove_rows-Converges starts h hs hc =
      s_in_c inp _ (omega arith) (omega arith) (omega arith)
  remove_remove_rows-Converges contained_by h hs hc =
      s_in_c inp _ (omega arith) (omega arith) (omega arith)
  remove_remove_rows-Converges finishes h hs hc =
      s_in_c inp _ (omega arith) (omega arith) (omega arith)
  remove_remove_rows-Converges started_by h hs hc =
      c_in_s inp _ (omega arith) (omega arith) (omega arith)
  remove_remove_rows-Converges contains h hs hc =
      c_in_s inp _ (omega arith) (omega arith) (omega arith)
  remove_remove_rows-Converges finished_by h hs hc =
      c_in_s inp _ (omega arith) (omega arith) (omega arith)
  remove_remove_rows-Converges equal_to h hs hc =
      both_idle inp (omega arith) (omega arith) (omega arith) (omega arith)

  pub remove_splice_rows-Converges :
      (r : RangeRangeRelationship)
      → AllenOf r
      → length s.insert_value ≡ 0
      → Converges apply_op (remove_splice r s c) s c str
  unfolding remove_splice
  remove_splice_rows-Converges precedes h hs = s_before_c inp _ (omega arith) (omega arith)
  remove_splice_rows-Converges preceded_by h hs = c_before_s inp _ (omega arith) (omega arith)
  remove_splice_rows-Converges meets h hs =
      s_overlaps_c inp _ _ _ _ (omega arith) (omega arith) (omega arith) (omega arith) (omega arith)
        (omega arith) (omega arith)
  remove_splice_rows-Converges overlaps h hs =
      s_overlaps_c inp _ _ _ _ (omega arith) (omega arith) (omega arith) (omega arith) (omega arith)
        (omega arith) (omega arith)
  remove_splice_rows-Converges met_by h hs =
      c_overlaps_s inp _ _ _ _ (omega arith) (omega arith) (omega arith) (omega arith) (omega arith)
        (omega arith) (omega arith)
  remove_splice_rows-Converges overlapped_by h hs =
      c_overlaps_s inp _ _ _ _ (omega arith) (omega arith) (omega arith) (omega arith) (omega arith)
        (omega arith) (omega arith)
  remove_splice_rows-Converges starts h hs = s_in_c inp _ (omega arith) (omega arith) (omega arith)
  remove_splice_rows-Converges finishes h hs =
      s_in_c inp _ (omega arith) (omega arith) (omega arith)
  remove_splice_rows-Converges contained_by h hs =
      s_in_c inp _ (omega arith) (omega arith) (omega arith)
  remove_splice_rows-Converges started_by h hs =
      c_overlaps_s inp _ _ _ _ (omega arith) (omega arith) (omega arith) (omega arith) (omega arith)
        (omega arith) (omega arith)
  remove_splice_rows-Converges finished_by h hs =
      s_overlaps_c inp _ _ _ _ (omega arith) (omega arith) (omega arith) (omega arith) (omega arith)
        (omega arith) (omega arith)
  remove_splice_rows-Converges contains h hs =
      c_in_s inp _ (omega arith) (omega arith) (omega arith)
  remove_splice_rows-Converges equal_to h hs =
      s_in_c inp _ (omega arith) (omega arith) (omega arith)

  pub splice_remove_rows-Converges :
      (r : RangeRangeRelationship)
      → AllenOf r
      → length c.insert_value ≡ 0
      → (s.index < c.index
          → c.index + c.delete_count ≤ s.index + s.delete_count
          → c.index + s.delete_count ≤ length str + length s.insert_value)
      → Converges apply_op (splice_remove r s c) s c str
  unfolding splice_remove
  splice_remove_rows-Converges precedes h hc hb = s_before_c inp _ (omega arith) (omega arith)
  splice_remove_rows-Converges preceded_by h hc hb = c_before_s inp _ (omega arith) (omega arith)
  splice_remove_rows-Converges meets h hc hb =
      s_overlaps_c inp _ _ _ _ (omega arith) (omega arith) (omega arith) (omega arith) (omega arith)
        (omega arith) (omega arith)
  splice_remove_rows-Converges overlaps h hc hb =
      s_overlaps_c inp _ _ _ _ (omega arith) (omega arith) (omega arith) (omega arith) (omega arith)
        (omega arith) (omega arith)
  splice_remove_rows-Converges met_by h hc hb =
      c_overlaps_s inp _ _ _ _ (omega arith) (omega arith) (omega arith) (omega arith) (omega arith)
        (omega arith) (omega arith)
  splice_remove_rows-Converges overlapped_by h hc hb =
      c_overlaps_s inp _ _ _ _ (omega arith) (omega arith) (omega arith) (omega arith) (omega arith)
        (omega arith) (omega arith)
  splice_remove_rows-Converges starts h hc hb =
      s_overlaps_c inp _ _ _ _ (omega arith) (omega arith) (omega arith) (omega arith) (omega arith)
        (omega arith) (omega arith)
  splice_remove_rows-Converges finishes h hc hb =
      c_overlaps_s inp _ _ _ _ (omega arith) (omega arith) (omega arith) (omega arith) (omega arith)
        (omega arith) (omega arith)
  splice_remove_rows-Converges contained_by h hc hb =
      s_in_c inp _ (omega arith) (omega arith) (omega arith)
  splice_remove_rows-Converges started_by h hc hb =
      c_in_s_idle inp _ (omega arith) (omega arith) (omega arith) (omega arith) (omega arith)
  splice_remove_rows-Converges finished_by h hc hb =
      c_in_s_idle inp _ (omega arith) (omega arith) (omega arith) (omega arith) (omega arith)
  splice_remove_rows-Converges contains h hc hb =
      c_in_s_idle inp _ (omega arith) (omega arith) (omega arith) (omega arith) (omega arith)
  splice_remove_rows-Converges equal_to h hc hb =
      c_in_s inp _ (omega arith) (omega arith) (omega arith)

  pub splice_splice_rows-Converges :
      (r : RangeRangeRelationship)
      → AllenOf r
      → (c.index + c.delete_count < s.index → length s.insert_value ≡ length c.insert_value)
      → Converges apply_op (splice_splice r s c) s c str
  unfolding splice_splice
  splice_splice_rows-Converges precedes h hl = s_before_c inp _ (omega arith) (omega arith)
  splice_splice_rows-Converges preceded_by h hl = c_before_s inp _ (omega arith) (omega arith)
  splice_splice_rows-Converges meets h hl =
      s_overlaps_c inp _ _ _ _ (omega arith) (omega arith) (omega arith) (omega arith) (omega arith)
        (omega arith) (omega arith)
  splice_splice_rows-Converges overlaps h hl =
      s_overlaps_c inp _ _ _ _ (omega arith) (omega arith) (omega arith) (omega arith) (omega arith)
        (omega arith) (omega arith)
  splice_splice_rows-Converges met_by h hl =
      c_overlaps_s inp _ _ _ _ (omega arith) (omega arith) (omega arith) (omega arith) (omega arith)
        (omega arith) (omega arith)
  splice_splice_rows-Converges overlapped_by h hl =
      c_overlaps_s inp _ _ _ _ (omega arith) (omega arith) (omega arith) (omega arith) (omega arith)
        (omega arith) (omega arith)
  splice_splice_rows-Converges starts h hl =
      s_overlaps_c inp _ _ _ _ (omega arith) (omega arith) (omega arith) (omega arith) (omega arith)
        (omega arith) (omega arith)
  splice_splice_rows-Converges contained_by h hl =
      s_in_c inp _ (omega arith) (omega arith) (omega arith)
  splice_splice_rows-Converges finishes h hl =
      c_overlaps_s inp _ _ _ _ (omega arith) (omega arith) (omega arith) (omega arith) (omega arith)
        (omega arith) (omega arith)
  splice_splice_rows-Converges started_by h hl =
      c_overlaps_s inp _ _ _ _ (omega arith) (omega arith) (omega arith) (omega arith) (omega arith)
        (omega arith) (omega arith)
  splice_splice_rows-Converges contains h hl =
      c_in_s inp _ (omega arith) (omega arith) (omega arith)
  splice_splice_rows-Converges finished_by h hl =
      s_overlaps_c inp _ _ _ _ (omega arith) (omega arith) (omega arith) (omega arith) (omega arith)
        (omega arith) (omega arith)
  splice_splice_rows-Converges equal_to h hl =
      s_overlaps_c inp _ _ _ _ (omega arith) (omega arith) (omega arith) (omega arith) (omega arith)
        (omega arith) (omega arith)
