-- ===== src/Objects/Convergence/Edits.antt =====
-- What the property operations of an object do (src/main/model/internal/ObjectNode.ts): each writes
-- one key, and may be issued where the key is present, or where it is absent.
use Prim.Native.String.{String}
use text.Mathlib.Text.{◌==◌ as same_string}
use text.Mathlib.TextEquality.{eq_iff}
use convergence_client_javas.Base.{
  ◌≡◌, refl, sym, ap, subst, ◌∙◌, inl, inr, Bool, true, false, true≢false, not, Bool-cases, Option,
  none, some, if◌then◌else◌, ok, throws, not_allowed, ok≢throws, ok-injective,
}
use convergence_client_javas.Nodes.Pairs.{same_string_swap}
use convergence_client_javas.Objects.{
  ObjectAddPropertyOperation, ObjectSetPropertyOperation, ObjectRemovePropertyOperation,
  ObjectOperation, object_add, object_set, object_remove, Children, is_present, has_key, apply_set,
  apply_remove, handle_model_operation_event, allowed, handle_allowed,
}

false_of_negation : (b : Bool) → not b ≡ true → b ≡ false
false_of_negation true h = absurd (true≢false (sym h))
false_of_negation false h = refl

module _ {V : Type 0} where
  -- A value, or its absence, written at a key.
  unfoldable pub write : String → Option V → Children V → Children V
  write key value x = λ k. if same_string key k then value else x k

  pub write_twice :
      (key : String) (v w : Option V) (x : Children V) → write key w (write key v x) ≡ write key w x
  unfolding write
  write_twice key v w x = λ i. λ k. at k i
    where
      at : (k : String) → write key w (write key v x) k ≡ write key w x k
      at k = elim (Bool-cases (same_string key k)) [ inl e ↦ rw e refl | inr e ↦ rw e refl ]

  pub write_swap :
      (p q : String) (v w : Option V) (x : Children V)
      → same_string p q ≡ false
      → write q w (write p v x) ≡ write p v (write q w x)
  unfolding write
  write_swap p q v w x h = λ i. λ k. at k i
    where
      at : (k : String) → write q w (write p v x) k ≡ write p v (write q w x) k
      at k = elim (Bool-cases (same_string p k)) [
        | inl e ↦ elim (Bool-cases (same_string q k)) [
          | inl f ↦
              let eq : p ≡ q = (eq_iff p k).0 e ∙ sym ((eq_iff q k).0 f) in
              absurd (true≢false (sym ((eq_iff p q).1 eq) ∙ h))
          | inr f ↦ rw (e, f) refl
        ]
        | inr e ↦ elim (Bool-cases (same_string q k)) [
          | inl f ↦ rw (e, f) refl
          | inr f ↦ rw (e, f) refl
        ]
      ]

  write_same : (key : String) (v : Option V) (x : Children V) → write key v x key ≡ v
  unfolding write
  write_same key v x = rw ((eq_iff key key).1 refl) refl

  pub has_key-write_same :
      (key : String) (v : Option V) (x : Children V) → has_key key (write key v x) ≡ is_present v
  unfolding has_key
  has_key-write_same key v x = ap is_present (write_same key v x)

  pub has_key-write_other :
      (p q : String) (v : Option V) (x : Children V)
      → same_string p q ≡ false
      → has_key q (write p v x) ≡ has_key q x
  unfolding has_key write
  has_key-write_other p q v x h = ap is_present (rw h refl)

  -- An operation that was not refused.
  pub handle_allowed-cases :
      (o : ObjectOperation V) (x a : Children V)
      → handle_allowed o x ≡ ok a
      → (allowed o x ≡ true) × (handle_model_operation_event o x ≡ a)
  unfolding handle_allowed
  handle_allowed-cases o x a h = elim (Bool-cases (allowed o x)) [
    | inl e ↦
        let step : handle_allowed o x ≡ ok (handle_model_operation_event o x) = rw e refl in
        (e, ok-injective (sym step ∙ h))
    | inr e ↦
        let step : handle_allowed o x ≡ throws not_allowed = rw e refl in
        absurd (ok≢throws (sym h ∙ step))
  ]

  pub allowed-handle :
      (o : ObjectOperation V) (x a : Children V)
      → allowed o x ≡ true
      → handle_model_operation_event o x ≡ a
      → handle_allowed o x ≡ ok a
  unfolding handle_allowed
  allowed-handle o x a e h = rw e (ap ok h)

  -- What a property operation writes where, and what is needed of the key.
  pub record Edit (o : ObjectOperation V) (key : String) (needs : Bool) (after : Option V)
      : Type 0 where
    pub applied :
        (x : Children V) → has_key key x ≡ needs → handle_allowed o x ≡ ok (write key after x)
    pub inverse :
        (x a : Children V)
        → handle_allowed o x ≡ ok a
        → (has_key key x ≡ needs) × (write key after x ≡ a)

  apply_remove_present :
      (key : String) (x : Children V) → has_key key x ≡ true → apply_remove key x ≡ write key none x
  unfolding apply_remove write
  apply_remove_present key x h = rw h refl

  pub object_add-Edit :
      (o : ObjectAddPropertyOperation V) → Edit (object_add o) o.prop false (some o.value)
  unfolding allowed handle_model_operation_event apply_set write
  object_add-Edit o = record {
    applied = λ x h. allowed-handle (object_add o) x _ (ap not h) refl;
    inverse = λ x a h.
        let r = handle_allowed-cases (object_add o) x a h in
        (false_of_negation (has_key o.prop x) r.0, r.1);
  }

  pub object_set-Edit :
      (o : ObjectSetPropertyOperation V) → Edit (object_set o) o.prop true (some o.value)
  unfolding allowed handle_model_operation_event apply_set write
  object_set-Edit o = record {
    applied = λ x h. allowed-handle (object_set o) x _ h refl;
    inverse = λ x a h. handle_allowed-cases (object_set o) x a h;
  }

  pub object_remove-Edit :
      (o : ObjectRemovePropertyOperation) → Edit (object_remove o) o.prop true none
  unfolding allowed handle_model_operation_event
  object_remove-Edit o = record {
    applied = λ x h. allowed-handle (object_remove o) x _ h (apply_remove_present o.prop x h);
    inverse = λ x a h.
        let r = handle_allowed-cases (object_remove o) x a h in
        (r.0, sym (apply_remove_present o.prop x r.0) ∙ r.1);
  }

  -- Two operations at different keys.
  pub edits_swap :
      (s c : ObjectOperation V) {p q : String} {m n : Bool} {v w : Option V} (es : Edit s p m v)
      (ec : Edit c q n w) (x a b : Children V)
      → same_string p q ≡ false
      → handle_allowed s x ≡ ok a
      → handle_allowed c x ≡ ok b
      → (y : Children V) × (handle_allowed c a ≡ ok y) × (handle_allowed s b ≡ ok y)
  edits_swap s c {p} {q} {m} {n} {v} {w} es ec x a b h hs hc =
      let is = es.inverse x a hs in
      let ic = ec.inverse x b hc in
      let at_a : has_key q a ≡ n =
        subst (λ z. has_key q z ≡ n) is.1 (has_key-write_other p q v x h ∙ ic.0) in
      let at_b : has_key p b ≡ m =
        subst (λ z. has_key p z ≡ m) ic.1
          (has_key-write_other q p w x (same_string_swap p q h) ∙ is.0) in
      (
        write q w a,
        ec.applied a at_a,
        es.applied b at_b
            ∙ ap ok
                (ap (write p v) (sym ic.1) ∙ sym (write_swap p q v w x h) ∙ ap (write q w) is.1),
      )
