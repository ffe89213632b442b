-- ===== src/Values/Convergence.antt =====
-- Where two sites meet after concurrent operations on a number, a boolean or a date
-- (src/main/model/ot/xform/number, bool and date).
use convergence_client_javas.Base.{
  ◌≡◌, refl, sym, ap, ◌∙◌, inl, inr, Bool, true, false, true≢false, Bool-cases, if◌then◌else◌, ok,
  throws, not_a_number, ok≢throws, ok-injective,
}
use convergence_client_javas.Transformer.{transform_identical_path_operations}
use convergence_client_javas.Nodes.Delivery.{live_at_node}
use convergence_client_javas.Nodes.Pairs.{Meet, NodeMeets, FunctionsMeet, Meet-NodeMeets}
use convergence_client_javas.Nodes.Sites.{both_silent, server_stays, client_stays}
use convergence_client_javas.Values.{
  Numbers, AdditionsSwap, NumberSetOperation, NumberOperation, number_delta, number_value,
  number_is_no_op, number_operation_id, silent_delta, silent_number, apply_delta, apply_number_set,
  handle_number, number_set_set, number_otf, number_kind, number_functions, BooleanSetOperation,
  same_boolean, boolean_otf, boolean_kind, boolean_functions, DateSetOperation, Times, date_otf,
  date_kind, date_functions,
}

module _ {N : Type 0} (numbers : Numbers N) (add-swap : AdditionsSwap numbers) where
  open numbers use {add, is_zero, is_nan, strict_equals, strict_equals-eq}

  -- What a delta that is a number adds.
  moved : N → N → N
  moved m x = if is_zero m then x else add x m

  delta_cases : (m x a : N) → apply_delta numbers m x ≡ ok a → (is_nan m ≡ false) × (moved m x ≡ a)
  unfolding apply_delta moved
  delta_cases m x a h = elim (Bool-cases (is_nan m)) [
    | inl e ↦
        let step : apply_delta numbers m x ≡ throws not_a_number = rw e refl in
        absurd (ok≢throws (sym h ∙ step))
    | inr e ↦ elim (Bool-cases (is_zero m)) [
      | inl f ↦
          let step : apply_delta numbers m x ≡ ok x = rw (e, f) refl in
          (e, rw f (ok-injective (sym step ∙ h)))
      | inr f ↦
          let step : apply_delta numbers m x ≡ ok (add x m) = rw (e, f) refl in
          (e, rw f (ok-injective (sym step ∙ h)))
    ]
  ]

  delta_applied : (m x a : N) → is_nan m ≡ false → moved m x ≡ a → apply_delta numbers m x ≡ ok a
  unfolding apply_delta moved
  delta_applied m x a e h = elim (Bool-cases (is_zero m)) [
    | inl f ↦ let step : moved m x ≡ x = rw f refl in rw (e, f) (ap ok (sym step ∙ h))
    | inr f ↦ let step : moved m x ≡ add x m = rw f refl in rw (e, f) (ap ok (sym step ∙ h))
  ]

  moved_swap : (m n x : N) → moved n (moved m x) ≡ moved m (moved n x)
  unfolding moved
  moved_swap m n x = elim (Bool-cases (is_zero m)) [
    | inl e ↦ rw e refl
    | inr e ↦ elim (Bool-cases (is_zero n)) [
      | inl f ↦ rw (e, f) refl
      | inr f ↦ rw (e, f) (add-swap x m n)
    ]
  ]

  -- Deltas may change their order.
  deltas_swap :
      (m n x a b : N)
      → apply_delta numbers m x ≡ ok a
      → apply_delta numbers n x ≡ ok b
      → (y : N) × (apply_delta numbers n a ≡ ok y) × (apply_delta numbers m b ≡ ok y)
  deltas_swap m n x a b hs hc =
      let ds = delta_cases m x a hs in
      let dc = delta_cases n x b hc in
      (
        moved n a,
        delta_applied n a (moved n a) dc.0 refl,
        delta_applied m b (moved n a) ds.0
            (ap (moved m) (sym dc.1) ∙ (sym (moved_swap m n x) ∙ ap (moved n) ds.1)),
      )

  -- A set gives its value whatever was there.
  set_anywhere :
      (o : NumberSetOperation N) (x y a : N)
      → handle_number numbers (number_value o) x ≡ ok a
      → handle_number numbers (number_value o) y ≡ ok a
  unfolding handle_number apply_number_set
  set_anywhere o x y a h = h

  set_gives :
      (o : NumberSetOperation N) (x a : N)
      → handle_number numbers (number_value o) x ≡ ok a
      → o.value ≡ a
  unfolding handle_number apply_number_set
  set_gives o x a h = elim (Bool-cases (is_nan o.value)) [
    | inl e ↦
        let step : apply_number_set numbers o.value x ≡ throws not_a_number = rw e refl in
        absurd (ok≢throws (sym h ∙ step))
    | inr e ↦
        let step : apply_number_set numbers o.value x ≡ ok o.value = rw e refl in
        ok-injective (sym step ∙ h)
  ]

  number_otf-Meet :
      (s c : NumberOperation N) (x a b : N)
      → number_is_no_op s ≡ false
      → number_is_no_op c ≡ false
      → number_operation_id s ≡ number_operation_id c
      → handle_number numbers s x ≡ ok a
      → handle_number numbers c x ≡ ok b
      → Meet (number_kind numbers) s c a b (ok (number_otf numbers s c))
  unfolding number_otf number_set_set number_is_no_op number_operation_id handle_number
  number_otf-Meet (number_delta s) (number_delta c) x a b m n ids hs hc =
      let y = deltas_swap s.delta c.delta x a b hs hc in
      record {
        server_op = number_delta s;
        client_op = number_delta c;
        returned = refl;
        server_id = refl;
        client_id = refl;
        meeting = y.0;
        client_applied = live_at_node (number_kind numbers) (number_delta c) a y.0 n y.1;
        server_applied = live_at_node (number_kind numbers) (number_delta s) b y.0 m y.2;
      }
  number_otf-Meet (number_delta s) (number_value c) x a b m n ids hs hc =
      client_stays (number_kind numbers) a b (silent_delta s) (number_value c) refl n refl refl
        (set_anywhere c x a b hc)
  number_otf-Meet (number_value s) (number_delta c) x a b m n ids hs hc =
      server_stays (number_kind numbers) a b (number_value s) (silent_delta c) m refl refl refl
        (set_anywhere s x b a hs)
  number_otf-Meet (number_value s) (number_value c) x a b m n ids hs hc =
      elim (Bool-cases (strict_equals s.value c.value)) [
        | inl e ↦ rw e (
            both_silent (number_kind numbers) a b (silent_number s) (silent_number s) refl refl refl
              ids
              (sym (set_gives s x a hs)
                ∙ (strict_equals-eq s.value c.value e ∙ set_gives c x b hc)))
        | inr e ↦ rw e (
            server_stays (number_kind numbers) a b (number_value s) (silent_number c) m refl refl
              refl (set_anywhere s x b a hs))
      ]

  number_otf-NodeMeets :
      (s c : NumberOperation N) (x a b : N)
      → number_is_no_op s ≡ false
      → number_is_no_op c ≡ false
      → number_operation_id s ≡ number_operation_id c
      → handle_number numbers s x ≡ ok a
      → handle_number numbers c x ≡ ok b
      → NodeMeets (number_kind numbers) (number_functions numbers) s c a b
  unfolding transform_identical_path_operations
  number_otf-NodeMeets s c x a b m n ids hs hc =
      Meet-NodeMeets (number_kind numbers) (number_functions numbers) s c a b
        (number_otf-Meet s c x a b m n ids hs hc)

  pub number_functions-Meet : FunctionsMeet (number_kind numbers) (number_functions numbers)
  number_functions-Meet = record {
    meets = number_otf-NodeMeets;
    left_out = λ t. absurd (true≢false (sym t));
  }

same_boolean-eq : (x y : Bool) → same_boolean x y ≡ true → x ≡ y
same_boolean-eq true y h = sym h
same_boolean-eq false true h = h
same_boolean-eq false false h = refl

boolean_otf-Meet :
    (s c : BooleanSetOperation) (x a b : Bool)
    → s.no_op ≡ false
    → c.no_op ≡ false
    → s.id ≡ c.id
    → ok s.value ≡ ok a
    → ok c.value ≡ ok b
    → Meet boolean_kind s c a b (ok (boolean_otf s c))
unfolding boolean_otf
boolean_otf-Meet s c x a b m n ids hs hc = elim (Bool-cases (same_boolean s.value c.value)) [
  | inl e ↦ rw e (
      both_silent boolean_kind a b (record s { no_op = true }) (record s { no_op = true }) refl refl
        refl ids (sym (ok-injective hs) ∙ (same_boolean-eq s.value c.value e ∙ ok-injective hc)))
  | inr e ↦ rw e (server_stays boolean_kind a b s (record c { no_op = true }) m refl refl refl hs)
]

boolean_otf-NodeMeets :
    (s c : BooleanSetOperation) (x a b : Bool)
    → s.no_op ≡ false
    → c.no_op ≡ false
    → s.id ≡ c.id
    → ok s.value ≡ ok a
    → ok c.value ≡ ok b
    → NodeMeets boolean_kind boolean_functions s c a b
unfolding transform_identical_path_operations
boolean_otf-NodeMeets s c x a b m n ids hs hc =
    Meet-NodeMeets boolean_kind boolean_functions s c a b (boolean_otf-Meet s c x a b m n ids hs hc)

pub boolean_functions-Meet : FunctionsMeet boolean_kind boolean_functions
boolean_functions-Meet = record {
  meets = boolean_otf-NodeMeets;
  left_out = λ t. absurd (true≢false (sym t));
}

module _ {T : Type 0} (times : Times T) where
  date_otf-Meet :
      (s c : DateSetOperation T) (x a b : T)
      → s.no_op ≡ false
      → c.no_op ≡ false
      → s.id ≡ c.id
      → ok s.value ≡ ok a
      → ok c.value ≡ ok b
      → Meet date_kind s c a b (ok (date_otf times s c))
  unfolding date_otf
  date_otf-Meet s c x a b m n ids hs hc = elim (Bool-cases (times.same_time s.value c.value)) [
    | inl e ↦ rw e (
        both_silent date_kind a b (record s { no_op = true }) (record s { no_op = true }) refl refl
          refl ids
          (sym (ok-injective hs) ∙ (times.same_time-eq s.value c.value e ∙ ok-injective hc)))
    | inr e ↦ rw e (server_stays date_kind a b s (record c { no_op = true }) m refl refl refl hs)
  ]

  date_otf-NodeMeets :
      (s c : DateSetOperation T) (x a b : T)
      → s.no_op ≡ false
      → c.no_op ≡ false
      → s.id ≡ c.id
      → ok s.value ≡ ok a
      → ok c.value ≡ ok b
      → NodeMeets date_kind (date_functions times) s c a b
  unfolding transform_identical_path_operations
  date_otf-NodeMeets s c x a b m n ids hs hc =
      Meet-NodeMeets date_kind (date_functions times) s c a b
        (date_otf-Meet s c x a b m n ids hs hc)

  pub date_functions-Meet : FunctionsMeet date_kind (date_functions times)
  date_functions-Meet = record {
    meets = date_otf-NodeMeets;
    left_out = λ t. absurd (true≢false (sym t));
  }
