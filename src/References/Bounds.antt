-- ===== src/References/Bounds.antt =====
-- Index and range references on a string, moved through operations
-- (src/main/model/ot/xform/ReferenceTransformer.ts and ClientConcurrencyControl.ts).
use Prim.Native.String.{String}
use text.Mathlib.Text.{◌==◌ as same_string}
use convergence_client_javas.Base.{
  ℕ, ◌+◌, ◌≤◌, ◌≡◌, refl, sym, ap, subst, ◌∙◌, inl, inr, true, false, Bool-cases, Option, none,
  some, List, [], ◌∷◌, map, length, splice, if◌then◌else◌, Result, ok, ok-injective, returned,
  ◌>>=◌,
}
use convergence_client_javas.Transformer.{Operation, discrete, compound}
use convergence_client_javas.Transformer.Meets.{apply_all, apply_operation}
use convergence_client_javas.Concurrency.{ClientConcurrencyControl}
use convergence_client_javas.Strings.{
  Text, StringSpliceOperation, StringOperation, string_splice, string_value, is_no_op, apply_text,
}
use convergence_client_javas.Strings.Convergence.{Fits, apply_op-live}
use convergence_client_javas.Strings.Plain.{string_operation_id}
use convergence_client_javas.Strings.Plain.Meets.{applied-FitsText}
use convergence_client_javas.References.{
  IndexRange, ReferenceValues, index_values, range_values, element_values, property_values,
  ModelReferenceData, handle_splice, move_ends, handle_splice_ranges,
}
use convergence_client_javas.References.Indices.{splice_index-within_text, splice_index-order}
use convergence_client_javas.References.Transform.{
  string_reference_function, string_references, targets, call_function,
  transform_with_identical_path_operation, transform_discrete_operation, transform_each,
  transform_reference, process_outgoing_set_reference, process_remote_reference_set,
}

-- What a string operation, for whichever node, does to the text of the node with an id.
unfoldable pub apply_for : String → StringOperation → Text → Result Text
apply_for id o str = if same_string (string_operation_id o) id then apply_text o str else ok str

-- Indices within a text of a length, and ranges within it that do not end before they start.
abbrev pub IndicesWithin : ℕ → List ℕ → Type 0
IndicesWithin n [] = Unit {0}
IndicesWithin n (k ∷ ks) = (k ≤ n) × IndicesWithin n ks

abbrev pub RangesWithin : ℕ → List IndexRange → Type 0
RangesWithin n [] = Unit {0}
RangesWithin n (r ∷ rs) = (r.start ≤ r.end) × (r.end ≤ n) × RangesWithin n rs

abbrev pub ValuesWithin : ℕ → ReferenceValues → Type 0
ValuesWithin n (index_values ks) = IndicesWithin n ks
ValuesWithin n (range_values rs) = RangesWithin n rs
ValuesWithin n (element_values _) = ⊥
ValuesWithin n (property_values _) = ⊥

-- A call that did not throw: the reference is gone, or it still is one into the text with an id, of
-- this length.
pub data Moved (id : String) (n : ℕ) : Result (Option ModelReferenceData) → Type 0 where
  gone : Moved id n (ok none)
  placed :
      (r : ModelReferenceData)
      → r.value_id ≡ some id
      → ValuesWithin n r.values
      → Moved id n (ok (some r))

module _ (str : Text) (i d : ℕ) (ins : Text) (h : i + d ≤ length str) where
  indices_moved :
      (ks : List ℕ)
      → IndicesWithin (length str) ks
      → IndicesWithin (length (splice str i d ins)) (handle_splice ks i d (length ins))
  unfolding handle_splice
  indices_moved [] w = tt
  indices_moved (k ∷ ks) w = (splice_index-within_text str i d ins h k w.0, indices_moved ks w.1)

  ranges_moved :
      (rs : List IndexRange)
      → RangesWithin (length str) rs
      → RangesWithin (length (splice str i d ins)) (handle_splice_ranges rs i d (length ins))
  unfolding handle_splice_ranges move_ends
  ranges_moved [] w = tt
  ranges_moved (r ∷ rs) w = (
    splice_index-order i d (length ins) r.start r.end w.0,
    splice_index-within_text str i d ins h r.end w.1,
    ranges_moved rs w.2,
  )

-- What a splice that was applied leaves.
spliced :
    (o : StringSpliceOperation) (str a : Text)
    → o.no_op ≡ false
    → apply_text (string_splice o) str ≡ ok a
    → Fits o str × (splice str o.index o.delete_count o.insert_value ≡ a)
spliced o str a live h =
    let fits = applied-FitsText (string_splice o) str a live h in
    (fits, ok-injective (sym (apply_op-live o str live fits) ∙ h))

module _ (id : String) (r : ModelReferenceData) (into : r.value_id ≡ some id) where
  called-Moved :
      (o : StringOperation) (values : ReferenceValues) (str a : Text)
      → is_no_op o ≡ false
      → apply_text o str ≡ ok a
      → ValuesWithin (length str) values
      → Moved id (length a) (call_function (string_reference_function o values) r)
  unfolding call_function string_reference_function
  called-Moved (string_value o) (index_values ks) str a live h w = gone
  called-Moved (string_value o) (range_values rs) str a live h w = gone
  called-Moved o (element_values _) str a live h w = absurd w
  called-Moved o (property_values _) str a live h w = absurd w
  called-Moved (string_splice o) (index_values ks) str a live h w =
      let q = spliced o str a live h in
      placed _ into (
        subst
          (λ z.
            IndicesWithin (length z)
              (handle_splice ks o.index o.delete_count (length o.insert_value)))
          q.1 (indices_moved str o.index o.delete_count o.insert_value q.0 ks w))
  called-Moved (string_splice o) (range_values rs) str a live h w =
      let q = spliced o str a live h in
      placed _ into (
        subst
          (λ z.
            RangesWithin (length z)
              (handle_splice_ranges rs o.index o.delete_count (length o.insert_value)))
          q.1 (ranges_moved str o.index o.delete_count o.insert_value q.0 rs w))

silent_kept :
    (o : StringOperation) (str a : Text) → is_no_op o ≡ true → apply_text o str ≡ ok a → str ≡ a
unfolding apply_text
silent_kept o str a e h =
    let step : apply_text o str ≡ ok str = rw e refl in ok-injective (sym step ∙ h)

module _ (id : String) where
  placed_still :
      (r : ModelReferenceData) (str a : Text)
      → r.value_id ≡ some id
      → ValuesWithin (length str) r.values
      → str ≡ a
      → Moved id (length a) (ok (some r))
  placed_still r str a into w e = placed r into (subst (λ z. ValuesWithin (length z) r.values) e w)

  at_target :
      (o : StringOperation) (r : ModelReferenceData)
      → r.value_id ≡ some id
      → targets (string_operation_id o) r.value_id ≡ same_string (string_operation_id o) id
  unfolding targets
  at_target o r into = ap (targets (string_operation_id o)) into

  discrete-Moved :
      (o : StringOperation) (r : ModelReferenceData) (str a : Text)
      → r.value_id ≡ some id
      → apply_for id o str ≡ ok a
      → ValuesWithin (length str) r.values
      → Moved id (length a) (transform_discrete_operation string_references o r)
  unfolding transform_discrete_operation transform_with_identical_path_operation apply_for
  discrete-Moved o r str a into h w = elim (Bool-cases (same_string (string_operation_id o) id)) [
    | inl e ↦
        let step : apply_for id o str ≡ apply_text o str = rw e refl in
        elim (Bool-cases (is_no_op o)) [
          | inl f ↦ rw f (placed_still r str a into w (silent_kept o str a f (sym step ∙ h)))
          | inr f ↦
              rw (f, at_target o r into ∙ e)
                (called-Moved id r into o r.values str a f (sym step ∙ h) w)
        ]
    | inr e ↦
        let step : apply_for id o str ≡ ok str = rw e refl in
        let same : str ≡ a = ok-injective (sym step ∙ h) in
        elim (Bool-cases (is_no_op o)) [
          | inl f ↦ rw f (placed_still r str a into w same)
          | inr f ↦ rw (f, at_target o r into ∙ e) (placed_still r str a into w same)
        ]
  ]

  -- A loop whose step moves references, over operations that are applied one after the other.
  module _ {O : Type 0} (apply : O → Text → Result Text)
      (step : O → ModelReferenceData → Result (Option ModelReferenceData))
      (moved : (o : O) (r : ModelReferenceData) (str a : Text)
        → r.value_id ≡ some id
        → apply o str ≡ ok a
        → ValuesWithin (length str) r.values
        → Moved id (length a) (step o r)) where
    none_stays : (os : List O) (n : ℕ) → Moved id n (transform_each step os none)
    unfolding transform_each
    none_stays [] n = gone
    none_stays (o ∷ os) n = gone

    rest-Moved :
        (os : List O) (n m : ℕ) {q : Result (Option ModelReferenceData)}
        → ((r : ModelReferenceData)
            → r.value_id ≡ some id
            → ValuesWithin n r.values
            → Moved id m (transform_each step os (some r)))
        → Moved id n q
        → Moved id m (q >>= transform_each step os)
    rest-Moved os n m k gone = none_stays os m
    rest-Moved os n m k (placed r into w) = k r into w

    each-Moved :
        (os : List O) (r : ModelReferenceData) (str a : Text)
        → r.value_id ≡ some id
        → apply_all apply os str ≡ ok a
        → ValuesWithin (length str) r.values
        → Moved id (length a) (transform_each step os (some r))
    unfolding transform_each apply_all
    each-Moved [] r str a into h w = placed_still r str a into w (ok-injective h)
    each-Moved (o ∷ os) r str a into h w =
        let f = returned (apply o str) (apply_all apply os) a h in
        rest-Moved os (length f.value) (length a)
          (λ r' i' w'. each-Moved os r' f.value a i' f.rest w')
          (moved o r str f.value into f.first w)

  transform_reference-Moved :
      (o : Operation StringOperation) (r : ModelReferenceData) (str a : Text)
      → r.value_id ≡ some id
      → apply_operation (apply_for id) o str ≡ ok a
      → ValuesWithin (length str) r.values
      → Moved id (length a) (transform_reference string_references o r)
  unfolding transform_reference apply_operation
  transform_reference-Moved (discrete o) r str a into h w = discrete-Moved o r str a into h w
  transform_reference-Moved (compound os) r str a into h w =
      each-Moved (apply_for id) (transform_discrete_operation string_references) discrete-Moved os r
        str a into h w

  module _ (control : ClientConcurrencyControl StringOperation) (r : ModelReferenceData)
      (str a : Text) (into : r.value_id ≡ some id) (w : ValuesWithin (length str) r.values) where
    -- An index or range reference into a text, with indices within it and no range that ends before
    -- it starts: when the unapplied operations can be applied to the text, then making the reference
    -- ready to be sent does not throw, and gives null or a reference into the same string with
    -- indices within the text that they lead to and no range that ends before it starts.
    pub process_outgoing_set_reference-Moved :
        apply_all
            (apply_operation (apply_for id))
            (map (λ e. e.operation) control.unapplied_operations)
            str
          ≡ ok a
        → Moved id (length a) (process_outgoing_set_reference string_references control r)
    unfolding process_outgoing_set_reference
    process_outgoing_set_reference-Moved h =
        each-Moved (apply_operation (apply_for id)) (transform_reference string_references)
          transform_reference-Moved (map (λ e. e.operation) control.unapplied_operations) r str a
          into h w

    -- The same of a reference that another user sent, and the operations in flight.
    pub process_remote_reference_set-Moved :
        apply_all
            (apply_operation (apply_for id))
            (map (λ e. e.operation) control.inflight_operations)
            str
          ≡ ok a
        → Moved id (length a) (process_remote_reference_set string_references control r)
    unfolding process_remote_reference_set
    process_remote_reference_set-Moved h =
        each-Moved (apply_operation (apply_for id)) (transform_reference string_references)
          transform_reference-Moved (map (λ e. e.operation) control.inflight_operations) r str a
          into h w
