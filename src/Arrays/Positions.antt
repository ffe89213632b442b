-- ===== src/Arrays/Positions.antt =====
-- Where the entry at a place of the list after an operation stood before it.
use convergence_client_javas.Base.{
  ℕ, zero, suc, ◌+◌, ◌-◌, ◌≤◌, ◌<◌, ◌≡◌, ◌⊎◌, refl, ap, ◌∙◌, ◌&&◌, ltb, leb, ◌==◌, if◌then◌else◌,
  List, [], ◌∷◌, Option, none, some, take, drop, length, get_elem?, splice, get_elem?-take,
  get_elem?-drop, length-splice, get_elem?-splice_before, get_elem?-splice_within,
  get_elem?-splice_after, arith, ltb-cases, inl, inr, length-take, length-drop,
}
use convergence_client_javas.Arrays.{reorder}

module _ {V : Type 0} (xs : List V) where
  pub get_elem?-insert :
      (i : ℕ) (v : V) (k : ℕ)
      → i ≤ length xs
      → get_elem? (splice xs i 0 (v ∷ [])) k
        ≡ (if ltb k i then get_elem? xs k else if k == i then some v else get_elem? xs (k - 1))
  get_elem?-insert i v k h = ground (
    arith,
    get_elem?-splice_before xs i 0 (v ∷ []) h k,
    get_elem?-splice_within xs i 0 (v ∷ []) h k,
    get_elem?-splice_after xs i 0 (v ∷ []) h k,
  )

  pub get_elem?-remove :
      (i k : ℕ)
      → i < length xs
      → get_elem? (splice xs i 1 []) k ≡ (if ltb k i then get_elem? xs k else get_elem? xs (k + 1))
  get_elem?-remove i k h = ground (
    arith,
    get_elem?-splice_before xs i 1 [] (omega arith) k,
    get_elem?-splice_after xs i 1 [] (omega arith) k,
  )

  pub get_elem?-replace :
      (i : ℕ) (v : V) (k : ℕ)
      → i < length xs
      → get_elem? (splice xs i 1 (v ∷ [])) k ≡ (if k == i then some v else get_elem? xs k)
  get_elem?-replace i v k h = ground (
    arith,
    get_elem?-splice_before xs i 1 (v ∷ []) (omega arith) k,
    get_elem?-splice_within xs i 1 (v ∷ []) (omega arith) k,
    get_elem?-splice_after xs i 1 (v ∷ []) (omega arith) k,
  )

-- The place from which a move takes the entry at `k`.
unfoldable pub source : ℕ → ℕ → ℕ → ℕ
source f t k =
    if k == t
    then f
    else if leb f k && ltb k t
    then k + 1
    else if ltb t k && leb k f
    then k - 1
    else k

module _ {V : Type 0} (xs : List V) (f t : ℕ) (f_in : f < length xs) (t_in : t < length xs) where
  length-moved : length (take 1 (drop f xs)) ≡ 1
  length-moved = omega (arith, length-take 1 (drop f xs), length-drop f xs)

  get_elem?-moved : get_elem? (take 1 (drop f xs)) 0 ≡ get_elem? xs f
  get_elem?-moved =
      get_elem?-take 1 (drop f xs) 0 ∙ get_elem?-drop f xs 0 ∙ ap (get_elem? xs) (omega arith)

  pub length-reorder : length (reorder xs f t) ≡ length xs
  unfolding reorder
  length-reorder = omega (
    arith,
    length-splice (splice xs f 1 []) t 0 (take 1 (drop f xs)),
    length-splice xs f 1 [],
    length-moved,
  )

  pub get_elem?-reorder : (k : ℕ) → get_elem? (reorder xs f t) k ≡ get_elem? xs (source f t k)
  unfolding reorder source
  get_elem?-reorder k = ground (
    arith,
    get_elem?-splice_before (splice xs f 1 []) t 0 (take 1 (drop f xs)) t_fits k,
    get_elem?-splice_within (splice xs f 1 []) t 0 (take 1 (drop f xs)) t_fits k,
    get_elem?-splice_after (splice xs f 1 []) t 0 (take 1 (drop f xs)) t_fits k,
    get_elem?-remove xs f k f_in,
    get_elem?-remove xs f (k - 1) f_in,
    length-moved,
    get_elem?-moved,
  )
    where
      t_fits : t ≤ length (splice xs f 1 [])
      t_fits = omega (arith, length-splice xs f 1 [])

-- The place before a move, case by case.
pub source_cases :
    (f t k : ℕ)
    → ((k < f) × (k < t) × (source f t k ≡ k))
      ⊎ ((f < k) × (t < k) × (source f t k ≡ k))
      ⊎ ((k ≡ t) × (source f t k ≡ f))
      ⊎ ((f ≤ k) × (k < t) × (source f t k ≡ k + 1))
      ⊎ ((t < k) × (k ≤ f) × (source f t k + 1 ≡ k))
unfolding source
source_cases f t k = ground arith

-- What the tactics know of moves.
pub ruleset places = (arith, source_cases)
