-- ===== src/Strings/Plain.antt =====
-- Strings on which the users insert, remove and set, but do not replace a part by another: the
-- edits of RealTimeString.insert, remove and value (src/main/model/rt/RealTimeString.ts). For these
-- StringSpliceSpliceOTF (src/main/model/ot/xform/string/StringSpliceSpliceOTF.ts) is right, and
-- what comes out of it is such an edit again.
pub mod Closed
pub mod Meets
use Prim.Native.String.{String}
use convergence_client_javas.Base.{
  ◌≡◌, Bool, true, false, ◌&&◌, ◌==◌, ltb, length, some, if◌then◌else◌, Result, ok, throws,
  not_allowed,
}
use convergence_client_javas.Nodes.{NodeKind}
use convergence_client_javas.Nodes.Pairs.{Functions}
use convergence_client_javas.Strings.{
  Text, StringSpliceOperation, StringOperation, string_splice, string_value, is_no_op, apply_text,
}
use convergence_client_javas.Strings.Transform.{string_otf}

-- An insertion of some text, or a removal of some.
unfoldable pub is_plain_splice : StringSpliceOperation → Bool
is_plain_splice o =
    if (o.delete_count == 0) && ltb 0 (length o.insert_value)
    then true
    else ltb 0 o.delete_count && (length o.insert_value == 0)

unfoldable pub is_plain : StringOperation → Bool
is_plain (string_splice o) = is_plain_splice o
is_plain (string_value o) = true

unfoldable pub string_operation_id : StringOperation → String
string_operation_id (string_splice o) = o.id
string_operation_id (string_value o) = o.id

-- The node, where an edit that is not plain is refused.
unfoldable pub handle_plain : StringOperation → Text → Result Text
handle_plain o str = if is_plain o then apply_text o str else throws not_allowed

abbrev pub string_kind : NodeKind StringOperation Text
string_kind = record {
  operation_id = string_operation_id;
  is_no_op = is_no_op;
  handle = handle_plain;
  tolerant = false;
}

abbrev pub string_functions : Functions StringOperation
string_functions s c = some (λ s c. ok (string_otf s c))
