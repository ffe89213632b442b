-- ===== src/Strings/Convergence/Otf.antt =====
-- The string functions of the registry converge.
use convergence_client_javas.Base.{
  ◌+◌, ◌<◌, ◌≤◌, ◌≡◌, ◌∙◌, refl, sym, ap, ok, inl, inr, true, false, length, arith, Bool-cases,
  same_text, same_text-eq,
}
use convergence_client_javas.Range.Allen.{get_range_range_relationship-Allen}
use convergence_client_javas.Operations.{Converges}
use convergence_client_javas.Strings.{
  Text, StringSpliceOperation, StringSetOperation, StringOperation, string_splice, string_value,
  is_no_op, apply_text,
}
use convergence_client_javas.Strings.Transform.{
  SpliceType, insert, remove, splice, no_op, get_splice_type, by_splice_types, splice_relationship,
  transform_remove_remove, transform_remove_splice, transform_splice_remove,
  transform_splice_splice, string_splice_splice_otf, string_splice_set_otf, string_set_splice_otf,
  string_set_set_otf, string_otf,
}
use convergence_client_javas.Strings.Convergence.{
  apply_op, apply_op-live, apply_op-no_op, Fits, Input,
}
use convergence_client_javas.Strings.Convergence.Inserts.{
  insert_insert-Converges, insert_remove-Converges, insert_splice-Converges,
  remove_insert-Converges, splice_insert-Converges,
}
use convergence_client_javas.Strings.Convergence.Ranges.{
  remove_remove_rows-Converges, remove_splice_rows-Converges, splice_remove_rows-Converges,
  splice_splice_rows-Converges,
}

-- What an operation of each type deletes and inserts.
abbrev pub Kind : SpliceType → StringSpliceOperation → Type 0
Kind insert o = (o.delete_count ≡ 0) × (0 < length o.insert_value)
Kind remove o = (0 < o.delete_count) × (length o.insert_value ≡ 0)
Kind splice o = (0 < o.delete_count) × (0 < length o.insert_value)
Kind no_op o = (o.delete_count ≡ 0) × (length o.insert_value ≡ 0)

pub get_splice_type-Kind : (o : StringSpliceOperation) → Kind (get_splice_type o) o
unfolding get_splice_type
get_splice_type-Kind o = ground arith

-- The pairs of splices for which the code is right: both change the text; where two replacements
-- meet, and the server's lies behind the client's, they insert texts of one length; and where a
-- replacement of the server deletes what the client removed, the place of the client's operation
-- is still in the text.
pub record IsSupported (s c : StringSpliceOperation) (str : Text) : Type 0 where
  pub s_edits : 0 < s.delete_count + length s.insert_value
  pub c_edits : 0 < c.delete_count + length c.insert_value
  pub same_length :
      0 < length s.insert_value
      → 0 < length c.insert_value
      → 0 < c.delete_count
      → 0 < s.delete_count
      → c.index + c.delete_count < s.index
      → length s.insert_value ≡ length c.insert_value
  pub still_in :
      0 < length s.insert_value
      → length c.insert_value ≡ 0
      → s.index < c.index
      → c.index + c.delete_count ≤ s.index + s.delete_count
      → c.index + s.delete_count ≤ length str + length s.insert_value

module _ {s c : StringSpliceOperation} {str : Text} (inp : Input s c str)
    (sup : IsSupported s c str) where
  open sup use {s_edits, c_edits, same_length, still_in}

  by_splice_types-Converges :
      (t u : SpliceType)
      → Kind t s
      → Kind u c
      → Converges apply_op (by_splice_types t u s c) s c str
  unfolding by_splice_types transform_remove_remove transform_remove_splice transform_splice_remove
      transform_splice_splice splice_relationship
  by_splice_types-Converges no_op u k l = absurd (omega arith)
  by_splice_types-Converges insert no_op k l = absurd (omega arith)
  by_splice_types-Converges remove no_op k l = absurd (omega arith)
  by_splice_types-Converges splice no_op k l = absurd (omega arith)
  by_splice_types-Converges insert insert k l = insert_insert-Converges inp k.0 l.0
  by_splice_types-Converges insert remove k l = insert_remove-Converges inp k.0 l.1
  by_splice_types-Converges insert splice k l = insert_splice-Converges inp k.0
  by_splice_types-Converges remove insert k l = remove_insert-Converges inp k.1 l.0
  by_splice_types-Converges remove remove k l =
      remove_remove_rows-Converges inp _
        (get_range_range_relationship-Allen _ _ _ _ (omega arith) (omega arith)) k.1 l.1
  by_splice_types-Converges remove splice k l =
      remove_splice_rows-Converges inp _
        (get_range_range_relationship-Allen _ _ _ _ (omega arith) (omega arith)) k.1
  by_splice_types-Converges splice insert k l = splice_insert-Converges inp l.0
  by_splice_types-Converges splice remove k l =
      splice_remove_rows-Converges inp _
        (get_range_range_relationship-Allen _ _ _ _ (omega arith) (omega arith)) l.1
        (still_in k.1 l.1)
  by_splice_types-Converges splice splice k l =
      splice_splice_rows-Converges inp _
        (get_range_range_relationship-Allen _ _ _ _ (omega arith) (omega arith))
        (same_length k.1 l.1 l.0 k.0)

  -- Two supported splices that fit a text are transformed so that both sites end with one text.
  pub string_splice_splice_otf-Converges : Converges apply_op (string_splice_splice_otf s c) s c str
  unfolding string_splice_splice_otf
  string_splice_splice_otf-Converges =
      by_splice_types-Converges (get_splice_type s) (get_splice_type c) (get_splice_type-Kind s)
        (get_splice_type-Kind c)

-- An operation of a string can be applied to a text.
abbrev pub FitsText : StringOperation → Text → Type 0
FitsText (string_splice o) str = Fits o str
FitsText (string_value o) str = Unit {0}

abbrev pub SupportedPair : StringOperation → StringOperation → Text → Type 0
SupportedPair (string_splice s) (string_splice c) str = IsSupported s c str
SupportedPair (string_splice s) (string_value c) str = Unit {0}
SupportedPair (string_value s) c str = Unit {0}

module _ (v : StringSetOperation) (str : Text) where
  apply_value-live : v.no_op ≡ false → apply_text (string_value v) str ≡ ok v.value
  unfolding apply_text
  apply_value-live e = rw e

  apply_value-no_op : v.no_op ≡ true → apply_text (string_value v) str ≡ ok str
  unfolding apply_text
  apply_value-no_op e = rw e

set_set-Converges :
    (s c : StringSetOperation) (str : Text)
    → s.no_op ≡ false
    → c.no_op ≡ false
    → Converges apply_text (string_set_set_otf s c) (string_value s) (string_value c) str
unfolding string_set_set_otf
set_set-Converges s c str s_live c_live = elim (Bool-cases (same_text s.value c.value)) [
  | inl e ↦ rw e (
    s.value,
    rw (apply_value-live s str s_live) (apply_value-no_op _ s.value refl),
    rw (apply_value-live c str c_live)
        (apply_value-no_op _ c.value refl ∙ ap ok (sym (same_text-eq s.value c.value e))),
  )
  | inr e ↦ rw e (
    s.value,
    rw (apply_value-live s str s_live) (apply_value-no_op _ s.value refl),
    rw (apply_value-live c str c_live) (apply_value-live s c.value s_live),
  )
]

-- For two string operations on a text that both fit, of which neither is a no-op, the function of
-- the registry gives a pair with which both sites end with one text, and none of the four
-- applications throws. Of two splices this asks that they be supported.
pub string_otf-Converges :
    (s c : StringOperation) (str : Text)
    → is_no_op s ≡ false
    → is_no_op c ≡ false
    → FitsText s str
    → FitsText c str
    → SupportedPair s c str
    → Converges apply_text (string_otf s c) s c str
unfolding string_otf string_splice_set_otf string_set_splice_otf
string_otf-Converges (string_splice s) (string_splice c) str s_live c_live s_fits c_fits sup =
    string_splice_splice_otf-Converges
      (record { s_live = s_live; c_live = c_live; s_fits = s_fits; c_fits = c_fits }) sup
string_otf-Converges (string_splice s) (string_value c) str s_live c_live s_fits c_fits sup = (
  c.value,
  rw (apply_op-live s str s_live s_fits) (apply_value-live c _ c_live),
  rw (apply_value-live c str c_live) (apply_op-no_op _ c.value refl),
)
string_otf-Converges (string_value s) (string_splice c) str s_live c_live s_fits c_fits sup = (
  s.value,
  rw (apply_value-live s str s_live) (apply_op-no_op _ s.value refl),
  rw (apply_op-live c str c_live c_fits) (apply_value-live s _ s_live),
)
string_otf-Converges (string_value s) (string_value c) str s_live c_live s_fits c_fits sup =
    set_set-Converges s c str s_live c_live
