-- ===== src/Objects/Convergence/Meets.antt =====
-- The functions for objects fill what the transformer
-- (src/main/model/ot/xform/OperationTransformer.ts) asks of a registry, on a model of any number of
-- objects.
use convergence_client_javas.Base.{
  ◌≡◌, refl, sym, ap, ◌∙◌, inl, inr, false, true≢false, Bool-cases, ok, ok-injective,
}
use convergence_client_javas.Nodes.Pairs.{Meet}
use convergence_client_javas.Objects.{
  ObjectSetOperation, ObjectOperation, object_add, object_set, object_remove, object_value,
  Children, is_no_op, object_operation_id, handle_allowed, object_kind, allowed,
  handle_model_operation_event, apply_set_value,
}
use convergence_client_javas.Nodes.{apply_to_nodes}
use convergence_client_javas.Nodes.Pairs.{NodeMeets, FunctionsMeet, Meet-NodeMeets}
use convergence_client_javas.Nodes.Meets.{node_registry-Transforms}
use convergence_client_javas.Transformer.{
  transform_identical_path_operations, transform_two_discrete_ops,
}
use convergence_client_javas.Transformer.Meets.{Transforms}
use convergence_client_javas.Objects.Transform.{
  StrictEquals, PropertiesEqual, silent_add, silent_set, silent_remove, silent_value,
  object_set_set, object_otf, object_functions, object_registry,
}
use convergence_client_javas.Objects.Convergence.Edits.{
  object_add-Edit, object_set-Edit, object_remove-Edit,
}
use convergence_client_javas.Nodes.Sites.{both_silent, server_stays, client_stays}
use convergence_client_javas.Objects.Convergence.Sites.{unless_same_property-Meet}
use convergence_client_javas.Objects.Convergence.Properties.{
  add_property_add_property-Meet, set_property_set_property-Meet,
  remove_property_remove_property-Meet, remove_property_set_property-Meet,
  set_property_remove_property-Meet,
}

module _ {V : Type 0} where
  -- A set of the object leaves nothing of what was there.
  value_handled :
      (o : ObjectSetOperation V) (x : Children V)
      → handle_allowed (object_value o) x ≡ ok (apply_set_value o.value)
  unfolding handle_allowed allowed handle_model_operation_event
  value_handled o x = refl

  value_anywhere :
      (o : ObjectSetOperation V) (x y a : Children V)
      → handle_allowed (object_value o) x ≡ ok a
      → handle_allowed (object_value o) y ≡ ok a
  value_anywhere o x y a h = value_handled o y ∙ (sym (value_handled o x) ∙ h)

  module _ (d : PropertiesEqual V) (s c : ObjectSetOperation V) (x a b : Children V)
      (s_live : s.no_op ≡ false) (hs : handle_allowed (object_value s) x ≡ ok a)
      (hc : handle_allowed (object_value c) x ≡ ok b) where
    object_set_set-Meet :
        Meet object_kind (object_value s) (object_value c) a b (object_set_set d s c)
    unfolding object_set_set is_no_op object_operation_id
    object_set_set-Meet = elim (Bool-cases (d.deep_equals s.value c.value)) [
      | inl e ↦ rw e (
          both_silent object_kind a b (silent_value s) (silent_value c) refl refl refl refl (
            ok-injective (
              sym hs
              ∙ (value_handled s x
                  ∙ (ap ok (d.deep_equals-eq s.value c.value e)
                      ∙ (sym (value_handled c x) ∙ hc))))))
      | inr e ↦ rw e (
          server_stays object_kind a b (object_value s) (silent_value c) s_live refl refl refl
            (value_anywhere s x b a hs))
    ]

  module _ (e : StrictEquals V) (d : PropertiesEqual V) where
    object_otf-Meet :
        (s c : ObjectOperation V) (x a b : Children V)
        → is_no_op s ≡ false
        → is_no_op c ≡ false
        → handle_allowed s x ≡ ok a
        → handle_allowed c x ≡ ok b
        → Meet object_kind s c a b (object_otf e d s c)
    unfolding object_otf is_no_op object_operation_id
    object_otf-Meet (object_add s) (object_add c) x a b m n hs hc =
        add_property_add_property-Meet e s c x a b m n hs hc
    object_otf-Meet (object_add s) (object_set c) x a b m n hs hc =
        unless_same_property-Meet (object_add-Edit s) (object_set-Edit c) x a b hs hc m n
          (λ q. true≢false (sym q))
    object_otf-Meet (object_add s) (object_remove c) x a b m n hs hc =
        unless_same_property-Meet (object_add-Edit s) (object_remove-Edit c) x a b hs hc m n
          (λ q. true≢false (sym q))
    object_otf-Meet (object_add s) (object_value c) x a b m n hs hc =
        client_stays object_kind a b (silent_add s) (object_value c) refl n refl refl
          (value_anywhere c x a b hc)
    object_otf-Meet (object_set s) (object_add c) x a b m n hs hc =
        unless_same_property-Meet (object_set-Edit s) (object_add-Edit c) x a b hs hc m n true≢false
    object_otf-Meet (object_set s) (object_set c) x a b m n hs hc =
        set_property_set_property-Meet e s c x a b m n hs hc
    object_otf-Meet (object_set s) (object_remove c) x a b m n hs hc =
        set_property_remove_property-Meet s c x a b m n hs hc
    object_otf-Meet (object_set s) (object_value c) x a b m n hs hc =
        client_stays object_kind a b (silent_set s) (object_value c) refl n refl refl
          (value_anywhere c x a b hc)
    object_otf-Meet (object_remove s) (object_add c) x a b m n hs hc =
        unless_same_property-Meet (object_remove-Edit s) (object_add-Edit c) x a b hs hc m n
          true≢false
    object_otf-Meet (object_remove s) (object_set c) x a b m n hs hc =
        remove_property_set_property-Meet s c x a b m n hs hc
    object_otf-Meet (object_remove s) (object_remove c) x a b m n hs hc =
        remove_property_remove_property-Meet s c x a b m n hs hc
    object_otf-Meet (object_remove s) (object_value c) x a b m n hs hc =
        client_stays object_kind a b (silent_remove s) (object_value c) refl n refl refl
          (value_anywhere c x a b hc)
    object_otf-Meet (object_value s) (object_add c) x a b m n hs hc =
        server_stays object_kind a b (object_value s) (silent_add c) m refl refl refl
          (value_anywhere s x b a hs)
    object_otf-Meet (object_value s) (object_set c) x a b m n hs hc =
        server_stays object_kind a b (object_value s) (silent_set c) m refl refl refl
          (value_anywhere s x b a hs)
    object_otf-Meet (object_value s) (object_remove c) x a b m n hs hc =
        server_stays object_kind a b (object_value s) (silent_remove c) m refl refl refl
          (value_anywhere s x b a hs)
    object_otf-Meet (object_value s) (object_value c) x a b m n hs hc =
        object_set_set-Meet d s c x a b m hs hc

    object_otf-NodeMeets :
        (s c : ObjectOperation V) (x a b : Children V)
        → is_no_op s ≡ false
        → is_no_op c ≡ false
        → handle_allowed s x ≡ ok a
        → handle_allowed c x ≡ ok b
        → NodeMeets object_kind (object_functions e d) s c a b
    unfolding transform_identical_path_operations
    object_otf-NodeMeets s c x a b m n hs hc =
        Meet-NodeMeets object_kind (object_functions e d) s c a b
          (object_otf-Meet s c x a b m n hs hc)

    pub object_functions-Meet : FunctionsMeet object_kind (object_functions e d)
    object_functions-Meet = record {
      meets = λ s c x a b m n same hs hc. object_otf-NodeMeets s c x a b m n hs hc;
      left_out = λ t s c same. absurd (true≢false (sym t));
    }

    -- On a model of any number of objects, where a property is added only when it is absent and set or
    -- removed only when it is present: any two operations that may be issued are transformed, without
    -- throwing, to a pair that may be issued after them and with which both sites hold the same
    -- properties.
    pub object_registry-Transforms :
        Transforms (apply_to_nodes object_kind) (transform_two_discrete_ops (object_registry e d))
    object_registry-Transforms =
        node_registry-Transforms object_kind (object_functions e d) object_functions-Meet
