-- ===== src/Nodes/Sums.antt =====
-- Nodes of two kinds in one model: Model (src/main/model/internal/Model.ts) holds nodes of every
-- type, a node throws at an operation that is not for its type, and the registry
-- (src/main/model/ot/xform/TransformationFunctionRegistry.ts) has no function for operations of two
-- types of nodes.
use Prim.Native.String.{String}
use convergence_client_javas.Base.{
  ◌≡◌, ◌⊎◌, refl, sym, ap, subst, ◌∙◌, inl, inr, Bool, false, true≢false, Bool-cases, Option, none,
  some, Result, ok, throws, invalid_operation_type, no_function_found, returned, ok-injective,
  ok≢throws, ◌>>=◌,
}
use convergence_client_javas.Operations.{OperationPair, pair, map_pair}
use convergence_client_javas.Transformer.{transform_identical_path_operations}
use convergence_client_javas.Nodes.{NodeKind, apply_at_node}
use convergence_client_javas.Nodes.Pairs.{Functions, Returns, NodeMeets, FunctionsMeet}

module _ {D E : Type 0} where
  unfoldable pub sum_id : (D → String) → (E → String) → D ⊎ E → String
  sum_id f g (inl o) = f o
  sum_id f g (inr o) = g o

  unfoldable pub sum_is_no_op : (D → Bool) → (E → Bool) → D ⊎ E → Bool
  sum_is_no_op f g (inl o) = f o
  sum_is_no_op f g (inr o) = g o

  unfoldable pub sum_handle :
      {N M : Type 0} → (D → N → Result N) → (E → M → Result M) → D ⊎ E → N ⊎ M → Result (N ⊎ M)
  sum_handle f g (inl o) (inl n) = do a ← f o n; ok (inl a)
  sum_handle f g (inr o) (inr n) = do a ← g o n; ok (inr a)
  sum_handle f g (inl o) (inr n) = throws invalid_operation_type
  sum_handle f g (inr o) (inl n) = throws invalid_operation_type

  abbrev pub sum_kind : {N M : Type 0} → NodeKind D N → NodeKind E M → NodeKind (D ⊎ E) (N ⊎ M)
  sum_kind first second = record {
    operation_id = sum_id first.operation_id second.operation_id;
    is_no_op = sum_is_no_op first.is_no_op second.is_no_op;
    handle = sum_handle first.handle second.handle;
    tolerant = false;
  }

-- A function for one kind, on the operations of both.
unfoldable pub lift_function :
    {D B : Type 0}
    → (D → B)
    → D
    → D
    → Option (D → D → Result (OperationPair D))
    → Option (B → B → Result (OperationPair B))
lift_function f s c none = none
lift_function f s c (some tf) = some (λ x y. tf s c >>= (λ p. ok (map_pair f p)))

unfoldable pub sum_functions : {D E : Type 0} → Functions D → Functions E → Functions (D ⊎ E)
sum_functions f g (inl s) (inl c) = lift_function inl s c (f s c)
sum_functions f g (inr s) (inr c) = lift_function inr s c (g s c)
sum_functions f g (inl s) (inr c) = none
sum_functions f g (inr s) (inl c) = none

module _ {D B : Type 0} (f : D → B) (s c s' c' : D) (x y : B) where
  lift_function-called :
      (r : Option (D → D → Result (OperationPair D)))
      → elim (r) as (λ q. Result (OperationPair D)) [
        | none ↦ throws no_function_found
        | some tf ↦ tf s c
      ]
        ≡ ok (pair s' c')
      → elim (lift_function f s c r) as (λ q. Result (OperationPair B)) [
        | none ↦ throws no_function_found
        | some tf ↦ tf x y
      ]
        ≡ ok (pair (f s') (f c'))
  unfolding lift_function
  lift_function-called none h = absurd (ok≢throws (sym h))
  lift_function-called (some tf) h = rw h refl

-- One kind of nodes within another: its operations and nodes are some of the other's.
record Embedding {D N B W : Type 0} (small : NodeKind D N) (big : NodeKind B W) : Type 0 where
  on_operation : D → B
  on_node : N → W
  same_id : (o : D) → big.operation_id (on_operation o) ≡ small.operation_id o
  same_no_op : (o : D) → big.is_no_op (on_operation o) ≡ small.is_no_op o
  same_handle :
      (o : D) (n : N)
      → big.handle (on_operation o) (on_node n) ≡ (small.handle o n >>= (λ a. ok (on_node a)))

module _ {D N B W : Type 0} {small : NodeKind D N} {big : NodeKind B W}
    (e : Embedding small big) where
  open e use {on_operation, on_node, same_id, same_no_op, same_handle}

  embedded_at_node :
      (o : D) (n y : N)
      → apply_at_node small o n ≡ ok y
      → apply_at_node big (on_operation o) (on_node n) ≡ ok (on_node y)
  unfolding apply_at_node
  embedded_at_node o n y h = elim (Bool-cases (small.is_no_op o)) [
    | inl t ↦
        let step : apply_at_node small o n ≡ ok n = rw t refl in
        rw (same_no_op o, t) (ap (λ z. ok (on_node z)) (ok-injective (sym step ∙ h)))
    | inr t ↦
        let step : apply_at_node small o n ≡ small.handle o n = rw t refl in
        rw (same_no_op o, t, same_handle o n, sym step ∙ h) refl
  ]

  module _ (f : Functions D) (g : Functions B) (s c : D)
      (same : g (on_operation s) (on_operation c) ≡ lift_function on_operation s c (f s c)) where
    embedded-Returns : Returns small f s c → Returns big g (on_operation s) (on_operation c)
    unfolding transform_identical_path_operations
    embedded-Returns r = record {
      server_op = on_operation r.server_op;
      client_op = on_operation r.client_op;
      transformed =
          subst
            (λ q.
              elim (q) as (λ z. Result (OperationPair B)) [
                | none ↦ throws no_function_found
                | some tf ↦ tf (on_operation s) (on_operation c)
              ]
              ≡ ok (pair (on_operation r.server_op) (on_operation r.client_op)))
            (sym same)
            (lift_function-called on_operation s c r.server_op r.client_op (on_operation s)
              (on_operation c) (f s c) r.transformed);
      server_id = same_id r.server_op ∙ (r.server_id ∙ sym (same_id s));
      client_id = same_id r.client_op ∙ (r.client_id ∙ sym (same_id c));
    }

    embedded-NodeMeets :
        (a b : N)
        → NodeMeets small f s c a b
        → NodeMeets big g (on_operation s) (on_operation c) (on_node a) (on_node b)
    unfolding embedded-Returns
    embedded-NodeMeets a b m = record {
      returns = embedded-Returns m.returns;
      meeting = on_node m.meeting;
      client_applied = embedded_at_node m.returns.client_op a m.meeting m.client_applied;
      server_applied = embedded_at_node m.returns.server_op b m.meeting m.server_applied;
    }

    embedded-meets :
        FunctionsMeet small f
        → (n : N) (a b : W) → big.is_no_op (on_operation s) ≡ false
        → big.is_no_op (on_operation c) ≡ false
        → big.operation_id (on_operation s) ≡ big.operation_id (on_operation c)
        → big.handle (on_operation s) (on_node n) ≡ ok a
        → big.handle (on_operation c) (on_node n) ≡ ok b
        → NodeMeets big g (on_operation s) (on_operation c) a b
    embedded-meets law n a b s_live c_live ids hs hc =
        let rs = returned (small.handle s n) (λ z. ok (on_node z)) a (sym (same_handle s n) ∙ hs) in
        let rc = returned (small.handle c n) (λ z. ok (on_node z)) b (sym (same_handle c n) ∙ hc) in
        let m =
          law.meets s c n rs.value rc.value (sym (same_no_op s) ∙ s_live)
            (sym (same_no_op c) ∙ c_live) (sym (same_id s) ∙ (ids ∙ same_id c)) rs.first rc.first in
        subst (λ z. NodeMeets big g (on_operation s) (on_operation c) a z) (ok-injective rc.rest)
          (subst (λ z. NodeMeets big g (on_operation s) (on_operation c) z (on_node rc.value))
            (ok-injective rs.rest) (embedded-NodeMeets rs.value rc.value m))

module _ {D E N M : Type 0} (first : NodeKind D N) (second : NodeKind E M) where
  first-Embedding : Embedding first (sum_kind first second)
  unfolding sum_id sum_is_no_op sum_handle
  first-Embedding = record {
    on_operation = inl;
    on_node = inl;
    same_id = λ o. refl;
    same_no_op = λ o. refl;
    same_handle = λ o n. refl;
  }

  second-Embedding : Embedding second (sum_kind first second)
  unfolding sum_id sum_is_no_op sum_handle
  second-Embedding = record {
    on_operation = inr;
    on_node = inr;
    same_id = λ o. refl;
    same_no_op = λ o. refl;
    same_handle = λ o n. refl;
  }

  module _ (f : Functions D) (g : Functions E) (law : FunctionsMeet first f)
      (law' : FunctionsMeet second g) where
    sum_meets :
        (s c : D ⊎ E) (n a b : N ⊎ M)
        → sum_is_no_op first.is_no_op second.is_no_op s ≡ false
        → sum_is_no_op first.is_no_op second.is_no_op c ≡ false
        → sum_id first.operation_id second.operation_id s
          ≡ sum_id first.operation_id second.operation_id c
        → sum_handle first.handle second.handle s n ≡ ok a
        → sum_handle first.handle second.handle c n ≡ ok b
        → NodeMeets (sum_kind first second) (sum_functions f g) s c a b
    unfolding sum_handle sum_functions first-Embedding second-Embedding
    sum_meets (inl s) (inl c) (inl n) a b p q r hs hc =
        embedded-meets first-Embedding f (sum_functions f g) s c refl law n a b p q r hs hc
    sum_meets (inr s) (inr c) (inr n) a b p q r hs hc =
        embedded-meets second-Embedding g (sum_functions f g) s c refl law' n a b p q r hs hc
    sum_meets (inl s) (inl c) (inr n) a b p q r hs hc = absurd (ok≢throws (sym hs))
    sum_meets (inl s) (inr c) (inl n) a b p q r hs hc = absurd (ok≢throws (sym hc))
    sum_meets (inl s) (inr c) (inr n) a b p q r hs hc = absurd (ok≢throws (sym hs))
    sum_meets (inr s) (inl c) (inl n) a b p q r hs hc = absurd (ok≢throws (sym hs))
    sum_meets (inr s) (inl c) (inr n) a b p q r hs hc = absurd (ok≢throws (sym hc))
    sum_meets (inr s) (inr c) (inl n) a b p q r hs hc = absurd (ok≢throws (sym hs))

    -- When the functions of two kinds of nodes meet, so do those of a model that has both.
    pub sum-FunctionsMeet : FunctionsMeet (sum_kind first second) (sum_functions f g)
    sum-FunctionsMeet = record { meets = sum_meets; left_out = λ t. absurd (true≢false (sym t)) }
