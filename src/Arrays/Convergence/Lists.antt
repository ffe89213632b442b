-- ===== src/Arrays/Convergence/Lists.antt =====
-- Insertions, removals and replacements against a move, on plain lists.
use convergence_client_javas.Base.{
  ℕ, zero, suc, ◌+◌, ◌≤◌, ◌<◌, ◌≡◌, ◌⊎◌, ◌∙◌, sym, ap, ltb, ◌==◌, if◌then◌else◌, some, List, [],
  ◌∷◌, length, splice, length-splice, get_elem?, eq_of_get_elem?, arith,
}
use convergence_client_javas.Arrays.{reorder}
use convergence_client_javas.Arrays.Positions.{
  source, places, get_elem?-insert, get_elem?-remove, get_elem?-replace, get_elem?-reorder,
  length-reorder,
}

abbrev pub inserted : {V : Type 0} → List V → ℕ → V → List V
inserted xs i v = splice xs i 0 (v ∷ [])

abbrev pub removed : {V : Type 0} → List V → ℕ → List V
removed xs i = splice xs i 1 []

abbrev pub replaced : {V : Type 0} → List V → ℕ → V → List V
replaced xs i v = splice xs i 1 (v ∷ [])

-- The place before a removal.
unfoldable pub skip : ℕ → ℕ → ℕ
skip i k = if ltb k i then k else k + 1

pub skip_cases : (i k : ℕ) → ((k < i) × (skip i k ≡ k)) ⊎ ((i ≤ k) × (skip i k ≡ k + 1))
unfolding skip
skip_cases i k = ground arith

module _ {V : Type 0} (xs : List V) where
  pub length-inserted : (i : ℕ) (v : V) → i ≤ length xs → length (inserted xs i v) ≡ length xs + 1
  length-inserted i v h = omega (arith, length-splice xs i 0 (v ∷ []))

  pub length-removed : (i : ℕ) → i < length xs → length (removed xs i) + 1 ≡ length xs
  length-removed i h = omega (arith, length-splice xs i 1 [])

  pub length-replaced : (i : ℕ) (v : V) → i < length xs → length (replaced xs i v) ≡ length xs
  length-replaced i v h = omega (arith, length-splice xs i 1 (v ∷ []))

  -- An insertion moves the new entry from the head.
  get_elem?-inserted :
      (i : ℕ) (v : V) (k : ℕ)
      → i ≤ length xs
      → get_elem? (inserted xs i v) k ≡ get_elem? (v ∷ xs) (source 0 i k)
  unfolding source
  get_elem?-inserted i v k h = ground (arith, get_elem?-insert xs i v k h)

  get_elem?-removed :
      (i k : ℕ) → i < length xs → get_elem? (removed xs i) k ≡ get_elem? xs (skip i k)
  unfolding skip
  get_elem?-removed i k h = ground (arith, get_elem?-remove xs i k h)

module _ {V : Type 0} (xs : List V) (f t : ℕ) (hf : f < length xs) (ht : t < length xs) where
  get_elem?-cons-reorder :
      (v : V) (j : ℕ)
      → get_elem? (v ∷ reorder xs f t) j ≡ get_elem? (v ∷ xs) (source (f + 1) (t + 1) j)
  get_elem?-cons-reorder v zero =
      ap (get_elem? (v ∷ xs)) {x = 0} {y = source (f + 1) (t + 1) 0} (omega places)
  get_elem?-cons-reorder v (suc j) =
      get_elem?-reorder xs f t hf ht j
      ∙ ap (get_elem? (v ∷ xs)) {x = suc (source f t j)} {y = source (f + 1) (t + 1) (suc j)}
          (omega places)

  after_move : length (reorder xs f t) ≡ length xs
  after_move = length-reorder xs f t hf ht

  -- An insertion and a move.
  pub inserted-reorder :
      (i : ℕ) (v : V) (i' f' t' : ℕ)
      → i ≤ length xs
      → i' ≤ length xs
      → f' ≤ length xs
      → t' ≤ length xs
      → ((k : ℕ) → source 0 i (source f' t' k) ≡ source (f + 1) (t + 1) (source 0 i' k))
      → reorder (inserted xs i v) f' t' ≡ inserted (reorder xs f t) i' v
  inserted-reorder i v i' f' t' hi hi' hf' ht' e = eq_of_get_elem? _ _ λ k.
      get_elem?-reorder (inserted xs i v) f' t' (omega (arith, length-inserted xs i v hi))
        (omega (arith, length-inserted xs i v hi)) k
      ∙ get_elem?-inserted xs i v (source f' t' k) hi
      ∙ ap (get_elem? (v ∷ xs)) (e k)
      ∙ sym (get_elem?-cons-reorder v (source 0 i' k))
      ∙ sym (get_elem?-inserted (reorder xs f t) i' v k (omega (arith, after_move)))

  -- A removal and a move.
  pub removed-reorder :
      (i i' f' t' : ℕ)
      → i < length xs
      → i' < length xs
      → f' + 1 < length xs
      → t' + 1 < length xs
      → ((k : ℕ) → skip i (source f' t' k) ≡ source f t (skip i' k))
      → reorder (removed xs i) f' t' ≡ removed (reorder xs f t) i'
  removed-reorder i i' f' t' hi hi' hf' ht' e = eq_of_get_elem? _ _ λ k.
      get_elem?-reorder (removed xs i) f' t' (omega (arith, length-removed xs i hi))
        (omega (arith, length-removed xs i hi)) k
      ∙ get_elem?-removed xs i (source f' t' k) hi
      ∙ ap (get_elem? xs) (e k)
      ∙ sym (get_elem?-reorder xs f t hf ht (skip i' k))
      ∙ sym (get_elem?-removed (reorder xs f t) i' k (omega (arith, after_move)))

  -- A removal of the entry that a move takes along.
  pub removed-moved :
      (i i' : ℕ)
      → i < length xs
      → i' < length xs
      → ((k : ℕ) → skip i k ≡ source f t (skip i' k))
      → removed xs i ≡ removed (reorder xs f t) i'
  removed-moved i i' hi hi' e = eq_of_get_elem? _ _ λ k.
      get_elem?-removed xs i k hi
      ∙ ap (get_elem? xs) (e k)
      ∙ sym (get_elem?-reorder xs f t hf ht (skip i' k))
      ∙ sym (get_elem?-removed (reorder xs f t) i' k (omega (arith, after_move)))

  -- A replacement and a move, which takes the replaced entry to `i'`.
  pub replaced-reorder :
      (i : ℕ) (v : V) (i' : ℕ)
      → i < length xs
      → i' < length xs
      → source f t i' ≡ i
      → reorder (replaced xs i v) f t ≡ replaced (reorder xs f t) i' v
  replaced-reorder i v i' hi hi' e = eq_of_get_elem? _ _ λ k.
      get_elem?-reorder (replaced xs i v) f t (omega (arith, length-replaced xs i v hi))
        (omega (arith, length-replaced xs i v hi)) k
      ∙ get_elem?-replace xs i v (source f t k) hi
      ∙ one_place k
      ∙ sym (get_elem?-replace (reorder xs f t) i' v k (omega (arith, after_move)))
    where
      back : (k : ℕ) → source f t k ≡ i → k ≡ i'
      back k h = omega (places, e)

      one_place :
          (k : ℕ)
          → (if source f t k == i then some v else get_elem? xs (source f t k))
            ≡ (if k == i' then some v else get_elem? (reorder xs f t) k)
      one_place k = ground (arith, back k, e, get_elem?-reorder xs f t hf ht k)
