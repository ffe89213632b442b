-- ===== src/Strings/Faults.antt =====
-- Two rows of StringSpliceSpliceOTF.ts after which the sites do not converge.
use convergence_client_javas.Base.{
  ◌+◌, ◌<◌, ◌≡◌, false, throws, index_out_of_bounds, ◌>>=◌, length, arith,
}
use convergence_client_javas.Range.{RangeRangeRelationship, preceded_by, contains}
use convergence_client_javas.Range.Allen.{Allen, get_range_range_relationship-eq_iff}
use convergence_client_javas.Strings.{Text, StringSpliceOperation, apply_text}
use convergence_client_javas.Strings.Switches.{splice_splice, splice_remove}
use convergence_client_javas.Strings.Transform.{
  remove, splice, get_splice_type, by_splice_types, splice_relationship, transform_splice_splice,
  transform_splice_remove, string_splice_splice_otf,
}
use convergence_client_javas.Strings.Apply.{splice_text-throws}
use convergence_client_javas.Strings.Convergence.{
  apply_op, apply_op-live, run, Input, length-run-s, length-run-c,
}

splice_type :
    (o : StringSpliceOperation)
    → 0 < o.delete_count
    → 0 < length o.insert_value
    → get_splice_type o ≡ splice
unfolding get_splice_type
splice_type o h k = ground arith

remove_type :
    (o : StringSpliceOperation)
    → 0 < o.delete_count
    → length o.insert_value ≡ 0
    → get_splice_type o ≡ remove
unfolding get_splice_type
remove_type o h k = ground arith

splice_relationship-eq :
    (s c : StringSpliceOperation) (r : RangeRangeRelationship)
    → 0 < s.delete_count
    → 0 < c.delete_count
    → Allen r s.index (s.index + s.delete_count) c.index (c.index + c.delete_count)
    → splice_relationship s c ≡ r
unfolding splice_relationship
splice_relationship-eq s c r sd cd h =
    (get_range_range_relationship-eq_iff s.index (s.index + s.delete_count) c.index
        (c.index + c.delete_count) (omega arith) (omega arith) r).1
      h

apply_op-throws :
    (o : StringSpliceOperation) (str : Text)
    → o.no_op ≡ false
    → length str < o.index + o.delete_count
    → apply_op o str ≡ throws index_out_of_bounds
unfolding apply_text
apply_op-throws o str live h =
    rw live (splice_text-throws str o.index o.delete_count o.insert_value h)

module _ {s c : StringSpliceOperation} {str : Text} (inp : Input s c str) where
  open inp use {s_live, c_live, s_fits, c_fits}

  -- Two replacements, the server's behind the client's: where the server's text is longer than the
  -- client's by more than what follows the server's range, the client throws on the transformed
  -- server operation.
  pub string_splice_splice_otf-preceded_by_throws :
      0 < s.delete_count
      → 0 < length s.insert_value
      → 0 < c.delete_count
      → 0 < length c.insert_value
      → c.index + c.delete_count < s.index
      → length str + length c.insert_value < s.index + s.delete_count + length s.insert_value
      → (apply_op c str >>= apply_op (string_splice_splice_otf s c).server_op)
        ≡ throws index_out_of_bounds
  unfolding string_splice_splice_otf by_splice_types transform_splice_splice splice_splice
  string_splice_splice_otf-preceded_by_throws sd si cd ci behind far =
      rw
        (
          apply_op-live c str c_live c_fits,
          splice_type s sd si,
          splice_type c cd ci,
          splice_relationship-eq s c preceded_by sd cd behind,
        )
        (apply_op-throws _ (run c str) s_live (omega (arith, length-run-c inp)))

  -- A replacement of the server strictly around what the client removed: where the place of the
  -- client's operation is no longer in the text, a site that has applied the server's operation
  -- throws on the client's.
  pub string_splice_splice_otf-contains_throws :
      0 < length s.insert_value
      → 0 < c.delete_count
      → length c.insert_value ≡ 0
      → s.index < c.index
      → c.index + c.delete_count < s.index + s.delete_count
      → length str + length s.insert_value < c.index + s.delete_count
      → (apply_op s str >>= apply_op (string_splice_splice_otf s c).client_op)
        ≡ throws index_out_of_bounds
  unfolding string_splice_splice_otf by_splice_types transform_splice_remove splice_remove
  string_splice_splice_otf-contains_throws si cd ci inside ends far =
      rw
        (
          apply_op-live s str s_live s_fits,
          splice_type s (omega arith) si,
          remove_type c cd ci,
          splice_relationship-eq s c contains (omega arith) cd (inside, ends),
        )
        (apply_op-throws _ (run s str) c_live (omega (arith, length-run-s inp)))
