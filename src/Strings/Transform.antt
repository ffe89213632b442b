-- ===== src/Strings/Transform.antt =====
-- The string transformation functions (src/main/model/ot/xform/string).
--
-- Every subtraction below stands under a guard that keeps its result at 0 or above.
use convergence_client_javas.Base.{
  ◌+◌, ◌-◌, true, ◌&&◌, length, ltb, leb, ◌==◌, if◌then◌else◌, same_text,
}
use convergence_client_javas.Range.{RangeRangeRelationship, get_range_range_relationship}
use convergence_client_javas.Operations.{OperationPair, pair, map_pair}
use convergence_client_javas.Strings.{
  StringSpliceOperation, StringSetOperation, StringOperation, string_splice, string_value,
}
use convergence_client_javas.Strings.Switches.{
  Splice, Splices, remove_remove, remove_splice, splice_remove, splice_splice,
}

pub data SpliceType : Type 0 where
  insert remove splice no_op : SpliceType

unfoldable pub get_splice_type : Splice → SpliceType
get_splice_type op =
    if (op.delete_count == 0) && ltb 0 (length op.insert_value)
    then insert
    else if ltb 0 op.delete_count && (length op.insert_value == 0)
    then remove
    else if ltb 0 op.delete_count && ltb 0 (length op.insert_value)
    then splice
    else no_op

unfoldable pub transform_insert_insert : Splice → Splice → Splices
transform_insert_insert s c =
    if leb s.index c.index
    then pair s (record c { index = c.index + length s.insert_value })
    else pair (record s { index = s.index + length c.insert_value }) c

unfoldable pub transform_insert_remove : Splice → Splice → Splices
transform_insert_remove s c =
    if leb s.index c.index
    then pair s (record c { index = c.index + length s.insert_value })
    else if leb (c.index + c.delete_count) s.index
    then pair (record s { index = s.index - c.delete_count }) c
    else pair (record s { no_op = true })
        (record c { delete_count = c.delete_count + length s.insert_value })

unfoldable pub transform_insert_splice : Splice → Splice → Splices
transform_insert_splice s c =
    if leb s.index c.index
    then pair s (record c { index = c.index + length s.insert_value })
    else if ltb s.index (c.index + c.delete_count)
    then pair (record s { no_op = true })
        (record c { delete_count = c.delete_count + length s.insert_value })
    else pair (record s { index = s.index - c.delete_count + length c.insert_value }) c

unfoldable pub transform_remove_insert : Splice → Splice → Splices
transform_remove_insert s c =
    if leb c.index s.index
    then pair (record s { index = s.index + length c.insert_value }) c
    else if leb (s.index + s.delete_count) c.index
    then pair s (record c { index = c.index - s.delete_count })
    else pair (record s { delete_count = s.delete_count + length c.insert_value })
        (record c { no_op = true })

unfoldable pub transform_splice_insert : Splice → Splice → Splices
transform_splice_insert s c =
    if leb c.index s.index
    then pair (record s { index = s.index + length c.insert_value }) c
    else if ltb c.index (s.index + s.delete_count)
    then pair (record s { delete_count = s.delete_count + length c.insert_value })
        (record c { no_op = true })
    else pair s (record c { index = c.index - s.delete_count + length s.insert_value })

-- The relationship of the two deleted ranges.
unfoldable pub splice_relationship : Splice → Splice → RangeRangeRelationship
splice_relationship s c =
    get_range_range_relationship s.index (s.index + s.delete_count) c.index
      (c.index + c.delete_count)

unfoldable pub transform_remove_remove : Splice → Splice → Splices
transform_remove_remove s c = remove_remove (splice_relationship s c) s c

unfoldable pub transform_remove_splice : Splice → Splice → Splices
transform_remove_splice s c = remove_splice (splice_relationship s c) s c

unfoldable pub transform_splice_remove : Splice → Splice → Splices
transform_splice_remove s c = splice_remove (splice_relationship s c) s c

unfoldable pub transform_splice_splice : Splice → Splice → Splices
transform_splice_splice s c = splice_splice (splice_relationship s c) s c

-- The chain of tests of StringSpliceSpliceOTF.
unfoldable pub by_splice_types : SpliceType → SpliceType → Splice → Splice → Splices
by_splice_types no_op _ s c = pair s c
by_splice_types insert no_op s c = pair s c
by_splice_types remove no_op s c = pair s c
by_splice_types splice no_op s c = pair s c
by_splice_types insert insert s c = transform_insert_insert s c
by_splice_types insert remove s c = transform_insert_remove s c
by_splice_types insert splice s c = transform_insert_splice s c
by_splice_types remove insert s c = transform_remove_insert s c
by_splice_types remove remove s c = transform_remove_remove s c
by_splice_types remove splice s c = transform_remove_splice s c
by_splice_types splice insert s c = transform_splice_insert s c
by_splice_types splice remove s c = transform_splice_remove s c
by_splice_types splice splice s c = transform_splice_splice s c

unfoldable pub string_splice_splice_otf : Splice → Splice → Splices
string_splice_splice_otf s c = by_splice_types (get_splice_type s) (get_splice_type c) s c

unfoldable pub string_splice_set_otf :
    StringSpliceOperation → StringSetOperation → OperationPair StringOperation
string_splice_set_otf s c = pair (string_splice (record s { no_op = true })) (string_value c)

unfoldable pub string_set_splice_otf :
    StringSetOperation → StringSpliceOperation → OperationPair StringOperation
string_set_splice_otf s c = pair (string_value s) (string_splice (record c { no_op = true }))

unfoldable pub string_set_set_otf :
    StringSetOperation → StringSetOperation → OperationPair StringOperation
string_set_set_otf s c =
    if same_text s.value c.value
    then pair (string_value (record s { no_op = true })) (string_value (record s { no_op = true }))
    else pair (string_value s) (string_value (record c { no_op = true }))

-- The functions that the registry holds for two string operations.
unfoldable pub string_otf : StringOperation → StringOperation → OperationPair StringOperation
string_otf (string_splice s) (string_splice c) =
    map_pair string_splice (string_splice_splice_otf s c)
string_otf (string_splice s) (string_value c) = string_splice_set_otf s c
string_otf (string_value s) (string_splice c) = string_set_splice_otf s c
string_otf (string_value s) (string_value c) = string_set_set_otf s c
