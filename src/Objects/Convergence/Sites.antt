-- ===== src/Objects/Convergence/Sites.antt =====
-- Two property operations on an object (src/main/model/ot/xform/object): those at different keys do
-- not disturb each other, and at one key the server's value stays.
use Prim.Native.String.{String}
use text.Mathlib.Text.{◌==◌ as same_string}
use text.Mathlib.TextEquality.{eq_iff}
use convergence_client_javas.Base.{
  ◌≡◌, ◌≢◌, refl, sym, ap, subst, ◌∙◌, inl, inr, Bool, false, Bool-cases, Option, ok,
}
use convergence_client_javas.Operations.{pair}
use convergence_client_javas.Nodes.Delivery.{live_at_node}
use convergence_client_javas.Nodes.Pairs.{Meet}
use convergence_client_javas.Objects.{
  ObjectOperation, Children, is_present, has_key, is_no_op, handle_allowed, object_kind,
}
use convergence_client_javas.Objects.Transform.{unless_same_property}
use convergence_client_javas.Objects.Convergence.Edits.{
  write, write_twice, has_key-write_same, Edit, edits_swap,
}

module _ {V : Type 0} {s c : ObjectOperation V} {p q : String} {m n : Bool} {v w : Option V}
    (es : Edit s p m v) (ec : Edit c q n w) (x a b : Children V) (hs : handle_allowed s x ≡ ok a)
    (hc : handle_allowed c x ≡ ok b) where
  -- The function gives the pair back.
  pub unmoved :
      (s_live : is_no_op s ≡ false) (c_live : is_no_op c ≡ false)
      → same_string p q ≡ false
      → Meet object_kind s c a b (ok (pair s c))
  unmoved s_live c_live h =
      let y = edits_swap s c es ec x a b h hs hc in
      record {
        server_op = s;
        client_op = c;
        returned = refl;
        server_id = refl;
        client_id = refl;
        meeting = y.0;
        client_applied = live_at_node object_kind c a y.0 c_live y.1;
        server_applied = live_at_node object_kind s b y.0 s_live y.2;
      }

  -- The value of `s`, written over that of `c`.
  pub overwritten :
      (s' : ObjectOperation V) → Edit s' p (is_present w) v → p ≡ q → handle_allowed s' b ≡ ok a
  overwritten s' es' e =
      let ic = ec.inverse x b hc in
      let eq : write p w x ≡ b = ap (λ k. write k w x) e ∙ ic.1 in
      let found : has_key p b ≡ is_present w =
        subst (λ z. has_key p z ≡ is_present w) eq (has_key-write_same p w x) in
      es'.applied b found
      ∙ ap ok (ap (write p v) (sym eq) ∙ (write_twice p w v x ∙ (es.inverse x a hs).1))

  pub one_value : p ≡ q → v ≡ w → a ≡ b
  one_value e f =
      sym (es.inverse x a hs).1
      ∙ (ap (λ k. write k v x) e ∙ (ap (λ u. write q u x) f ∙ (ec.inverse x b hc).1))

  needs_same : p ≡ q → m ≡ n
  needs_same e = sym (es.inverse x a hs).0 ∙ (ap (λ k. has_key k x) e ∙ (ec.inverse x b hc).0)

  -- The functions that throw at one property are not called there.
  pub unless_same_property-Meet :
      is_no_op s ≡ false
      → is_no_op c ≡ false
      → m ≢ n
      → Meet object_kind s c a b (unless_same_property p q (pair s c))
  unfolding unless_same_property
  unless_same_property-Meet s_live c_live apart = elim (Bool-cases (same_string p q)) [
    | inl h ↦ absurd (apart (needs_same ((eq_iff p q).0 h)))
    | inr h ↦ rw h (unmoved s_live c_live h)
  ]
