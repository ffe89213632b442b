-- ===== src/Objects/Local.antt =====
-- What a user does to an object: `set`, `remove` and `value` of RealTimeObject
-- (src/main/model/rt/RealTimeObject.ts), with the operation that is sent for it.
use Prim.Native.String.{String}
use convergence_client_javas.Base.{
  ◌≡◌, refl, inl, inr, false, Bool-cases, Option, none, some, List, if◌then◌else◌, Result, ok,
}
use convergence_client_javas.Objects.{
  ObjectOperation, object_add, object_set, object_remove, object_value, Children, has_key,
  apply_set, apply_remove, apply_set_value, handle_model_operation_event, allowed, handle_allowed,
}

module _ {V : Type 0} (id : String) where
  -- The object afterwards, and the operation that is sent.
  unfoldable pub set : String → V → Children V → Children V × Option (ObjectOperation V)
  set key value children =
      let prop_set = has_key key children in
      (
        apply_set key value children,
        some (
            if prop_set
            then object_set (record { id = id; no_op = false; prop = key; value = value })
            else object_add (record { id = id; no_op = false; prop = key; value = value })),
      )

  -- The event, and with it the operation, is for a key that was there.
  unfoldable pub remove : String → Children V → Children V × Option (ObjectOperation V)
  remove key children = (
    apply_remove key children,
    if has_key key children
        then some (object_remove (record { id = id; no_op = false; prop = key }))
        else none,
  )

  unfoldable pub set_value :
      List (String × V) → Children V → Children V × Option (ObjectOperation V)
  set_value values children = (
    apply_set_value values,
    some (object_value (record { id = id; no_op = false; value = values })),
  )

-- What another site does that receives what was sent.
unfoldable pub receive :
    {V : Type 0} → Option (ObjectOperation V) → Children V → Result (Children V)
receive none children = ok children
receive (some o) children = handle_allowed o children

-- The calls of a user on an object.
pub data ObjectCall (V : Type 0) : Type 0 where
  call_set : String → V → ObjectCall V
  call_remove : String → ObjectCall V
  call_set_value : List (String × V) → ObjectCall V

unfoldable pub call :
    {V : Type 0} → String → ObjectCall V → Children V → Children V × Option (ObjectOperation V)
call id (call_set key value) = set id key value
call id (call_remove key) = remove id key
call id (call_set_value values) = set_value id values

module _ {V : Type 0} (id : String) where
  set-received :
      (key : String) (value : V) (x : Children V)
      → receive (set id key value x).1 x ≡ ok (set id key value x).0
  unfolding set receive handle_allowed allowed handle_model_operation_event
  set-received key value x = elim (Bool-cases (has_key key x)) [
    | inl e ↦ rw (e, e) refl
    | inr e ↦ rw (e, e) refl
  ]

  remove-received :
      (key : String) (x : Children V) → receive (remove id key x).1 x ≡ ok (remove id key x).0
  unfolding remove receive handle_allowed allowed handle_model_operation_event apply_remove
  remove-received key x = elim (Bool-cases (has_key key x)) [
    | inl e ↦ rw (e, e) refl
    | inr e ↦ rw e refl
  ]

  -- Whatever a user calls on an object, the operation that is sent, if any is, may be issued on it,
  -- and at a site that holds the same properties it has the effect that the call has locally.
  pub call-received :
      (c : ObjectCall V) (x : Children V) → receive (call id c x).1 x ≡ ok (call id c x).0
  unfolding call set_value receive handle_allowed allowed handle_model_operation_event
  call-received (call_set key value) x = set-received key value x
  call-received (call_remove key) x = remove-received key x
  call-received (call_set_value values) x = refl
