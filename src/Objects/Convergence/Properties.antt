-- ===== src/Objects/Convergence/Properties.antt =====
-- Two property operations on an object (src/main/model/ot/xform/object): those at different keys do
-- not disturb each other, and at one key the server's value stays.
use text.Mathlib.Text.{◌==◌ as same_string}
use text.Mathlib.TextEquality.{eq_iff}
use convergence_client_javas.Base.{◌≡◌, refl, sym, ap, inl, inr, false, Bool-cases, some, ok}
use convergence_client_javas.Nodes.Pairs.{Meet}
use convergence_client_javas.Objects.{
  ObjectAddPropertyOperation, ObjectSetPropertyOperation, ObjectRemovePropertyOperation, object_add,
  object_set, object_remove, Children, is_present, is_no_op, object_operation_id, handle_allowed,
  object_kind,
}
use convergence_client_javas.Objects.Transform.{
  StrictEquals, silent_add, silent_set, silent_remove, add_property_add_property,
  set_property_set_property, remove_property_remove_property, remove_property_set_property,
  set_property_remove_property,
}
use convergence_client_javas.Objects.Convergence.Edits.{
  object_add-Edit, object_set-Edit, object_remove-Edit,
}
use convergence_client_javas.Nodes.Sites.{both_silent, server_stays, client_stays}
use convergence_client_javas.Objects.Convergence.Sites.{unmoved, overwritten, one_value}

module _ {V : Type 0} (e : StrictEquals V) (s c : ObjectAddPropertyOperation V) (x a b : Children V)
    (s_live : s.no_op ≡ false) (c_live : c.no_op ≡ false)
    (hs : handle_allowed (object_add s) x ≡ ok a)
    (hc : handle_allowed (object_add c) x ≡ ok b) where
  pub add_property_add_property-Meet :
      Meet object_kind (object_add s) (object_add c) a b (add_property_add_property e s c)
  unfolding add_property_add_property is_no_op object_operation_id is_present
  add_property_add_property-Meet = elim (Bool-cases (same_string s.prop c.prop)) [
    | inl h ↦ elim (Bool-cases (e.strict_equals s.value c.value)) [
      | inl g ↦
          rw (h, g)
            (both_silent object_kind a b (silent_add s) (silent_add c) refl refl refl refl (
              one_value (object_add-Edit s) (object_add-Edit c) x a b hs hc
                ((eq_iff s.prop c.prop).0 h) (ap some (e.strict_equals-eq s.value c.value g))))
      | inr g ↦
          rw (h, g)
            (server_stays object_kind a b _ (silent_add c) s_live refl refl refl (
              overwritten (object_add-Edit s) (object_add-Edit c) x a b hs hc _ (object_set-Edit _)
                ((eq_iff s.prop c.prop).0 h)))
    ]
    | inr h ↦ rw h (unmoved (object_add-Edit s) (object_add-Edit c) x a b hs hc s_live c_live h)
  ]

module _ {V : Type 0} (e : StrictEquals V) (s : ObjectSetPropertyOperation V)
    (c : ObjectSetPropertyOperation V) (x a b : Children V) (s_live : s.no_op ≡ false)
    (c_live : c.no_op ≡ false) (hs : handle_allowed (object_set s) x ≡ ok a)
    (hc : handle_allowed (object_set c) x ≡ ok b) where
  pub set_property_set_property-Meet :
      Meet object_kind (object_set s) (object_set c) a b (set_property_set_property e s c)
  unfolding set_property_set_property is_no_op object_operation_id is_present
  set_property_set_property-Meet = elim (Bool-cases (same_string s.prop c.prop)) [
    | inl h ↦ elim (Bool-cases (e.strict_equals s.value c.value)) [
      | inl g ↦
          rw (h, g)
            (both_silent object_kind a b (silent_set s) (silent_set c) refl refl refl refl (
              one_value (object_set-Edit s) (object_set-Edit c) x a b hs hc
                ((eq_iff s.prop c.prop).0 h) (ap some (e.strict_equals-eq s.value c.value g))))
      | inr g ↦
          rw (h, g)
            (server_stays object_kind a b (object_set s) (silent_set c) s_live refl refl refl (
              overwritten (object_set-Edit s) (object_set-Edit c) x a b hs hc (object_set s)
                (object_set-Edit s) ((eq_iff s.prop c.prop).0 h)))
    ]
    | inr h ↦ rw h (unmoved (object_set-Edit s) (object_set-Edit c) x a b hs hc s_live c_live h)
  ]

module _ {V : Type 0} (s : ObjectRemovePropertyOperation) (c : ObjectRemovePropertyOperation)
    (x a b : Children V) (s_live : s.no_op ≡ false) (c_live : c.no_op ≡ false)
    (hs : handle_allowed (object_remove s) x ≡ ok a)
    (hc : handle_allowed (object_remove c) x ≡ ok b) where
  pub remove_property_remove_property-Meet :
      Meet object_kind (object_remove s) (object_remove c) a b (remove_property_remove_property s c)
  unfolding remove_property_remove_property is_no_op object_operation_id is_present
  remove_property_remove_property-Meet = elim (Bool-cases (same_string s.prop c.prop)) [
    | inl h ↦ rw h (
        both_silent object_kind a b (silent_remove s) (silent_remove c) refl refl refl refl (
          one_value (object_remove-Edit s) (object_remove-Edit c) x a b hs hc
            ((eq_iff s.prop c.prop).0 h) refl))
    | inr h ↦
        rw h (unmoved (object_remove-Edit s) (object_remove-Edit c) x a b hs hc s_live c_live h)
  ]

module _ {V : Type 0} (s : ObjectRemovePropertyOperation) (c : ObjectSetPropertyOperation V)
    (x a b : Children V) (s_live : s.no_op ≡ false) (c_live : c.no_op ≡ false)
    (hs : handle_allowed (object_remove s) x ≡ ok a)
    (hc : handle_allowed (object_set c) x ≡ ok b) where
  pub remove_property_set_property-Meet :
      Meet object_kind (object_remove s) (object_set c) a b (remove_property_set_property s c)
  unfolding remove_property_set_property is_no_op object_operation_id is_present
  remove_property_set_property-Meet = elim (Bool-cases (same_string s.prop c.prop)) [
    | inl h ↦ rw h (
        client_stays object_kind a b (silent_remove s) _ refl c_live refl refl (
          overwritten (object_set-Edit c) (object_remove-Edit s) x b a hc hs _ (object_add-Edit _)
            (sym ((eq_iff s.prop c.prop).0 h))))
    | inr h ↦ rw h (unmoved (object_remove-Edit s) (object_set-Edit c) x a b hs hc s_live c_live h)
  ]

module _ {V : Type 0} (s : ObjectSetPropertyOperation V) (c : ObjectRemovePropertyOperation)
    (x a b : Children V) (s_live : s.no_op ≡ false) (c_live : c.no_op ≡ false)
    (hs : handle_allowed (object_set s) x ≡ ok a)
    (hc : handle_allowed (object_remove c) x ≡ ok b) where
  pub set_property_remove_property-Meet :
      Meet object_kind (object_set s) (object_remove c) a b (set_property_remove_property s c)
  unfolding set_property_remove_property is_no_op object_operation_id is_present
  set_property_remove_property-Meet = elim (Bool-cases (same_string s.prop c.prop)) [
    | inl h ↦ rw h (
        server_stays object_kind a b _ (silent_remove c) s_live refl refl refl (
          overwritten (object_set-Edit s) (object_remove-Edit c) x a b hs hc _ (object_add-Edit _)
            ((eq_iff s.prop c.prop).0 h)))
    | inr h ↦ rw h (unmoved (object_set-Edit s) (object_remove-Edit c) x a b hs hc s_live c_live h)
  ]
