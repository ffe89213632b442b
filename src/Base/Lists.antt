-- ===== src/Base/Lists.antt =====
-- Lists measured and indexed by native numbers, and the `splice` of JavaScript.
use Prim.Native.Nat.{ℕ, zero, suc, ◌+◌, ◌-◌, ◌≤◌, ◌<◌, min}
use mathlib.Core.Path.{◌≡◌, refl, ap}
use mathlib.Core.List.{List, [], ◌∷◌, ◌++◌}
use mathlib.Core.Option.{Option, none, some}
use native.Mathlib.Omega.{arith}
use convergence_client_javas.Base.Tests.{ltb, lt→ltb, le→ltb, if◌then◌else◌}

module _ {ℓ} {A : Type ℓ} where
  abbrev pub length : List A → ℕ
  length [] = 0
  length (x ∷ xs) = suc (length xs)

  abbrev pub get_elem? : List A → ℕ → Option A
  get_elem? [] i = none
  get_elem? (x ∷ xs) zero = some x
  get_elem? (x ∷ xs) (suc i) = get_elem? xs i

  abbrev pub take : ℕ → List A → List A
  take zero xs = []
  take (suc n) [] = []
  take (suc n) (x ∷ xs) = x ∷ take n xs

  abbrev pub drop : ℕ → List A → List A
  drop zero xs = xs
  drop (suc n) [] = []
  drop (suc n) (x ∷ xs) = drop n xs

  pub length-append : (xs ys : List A) → length (xs ++ ys) ≡ length xs + length ys
  length-append [] ys = omega arith
  length-append (x ∷ xs) ys = omega (arith, length-append xs ys)

  pub length-take : (n : ℕ) (xs : List A) → length (take n xs) ≡ min n (length xs)
  length-take zero xs = omega arith
  length-take (suc n) [] = omega arith
  length-take (suc n) (x ∷ xs) = omega (arith, length-take n xs)

  pub length-drop : (n : ℕ) (xs : List A) → length (drop n xs) ≡ length xs - n
  length-drop zero xs = omega arith
  length-drop (suc n) [] = omega arith
  length-drop (suc n) (x ∷ xs) = omega (arith, length-drop n xs)

  pub get_elem?-append :
      (xs ys : List A) (k : ℕ)
      → get_elem? (xs ++ ys) k
        ≡ (if ltb k (length xs) then get_elem? xs k else get_elem? ys (k - length xs))
  get_elem?-append [] ys k = ground arith
  get_elem?-append (x ∷ xs) ys zero = ground arith
  get_elem?-append (x ∷ xs) ys (suc k) = ground (arith, get_elem?-append xs ys k)

  pub get_elem?-take :
      (n : ℕ) (xs : List A) (k : ℕ)
      → get_elem? (take n xs) k ≡ (if ltb k n then get_elem? xs k else none)
  get_elem?-take zero xs k = ground arith
  get_elem?-take (suc n) [] k = ground arith
  get_elem?-take (suc n) (x ∷ xs) zero = ground arith
  get_elem?-take (suc n) (x ∷ xs) (suc k) = ground (arith, get_elem?-take n xs k)

  pub get_elem?-drop :
      (n : ℕ) (xs : List A) (k : ℕ) → get_elem? (drop n xs) k ≡ get_elem? xs (n + k)
  get_elem?-drop zero xs k = ground arith
  get_elem?-drop (suc n) [] k = refl
  get_elem?-drop (suc n) (x ∷ xs) k = ground (arith, get_elem?-drop n xs k)

  -- Lists with the same entries are equal.
  pub eq_of_get_elem? : (xs ys : List A) → ((k : ℕ) → get_elem? xs k ≡ get_elem? ys k) → xs ≡ ys
  eq_of_get_elem? [] [] h = refl
  eq_of_get_elem? [] (y ∷ ys) h = cc (h 0)
  eq_of_get_elem? (x ∷ xs) [] h = cc (h 0)
  eq_of_get_elem? (x ∷ xs) (y ∷ ys) h = cc (h 0, eq_of_get_elem? xs ys (λ k. h (suc k)))

  -- `array.splice(start, deleteCount, ...items)`, and the same edit of a string, for a start and an
  -- end within the bounds.
  unfoldable pub splice : List A → ℕ → ℕ → List A → List A
  splice xs start count items = take start xs ++ (items ++ drop (start + count) xs)

  pub length-splice :
      (xs : List A) (i d : ℕ) (ys : List A)
      → i + d ≤ length xs
      → length (splice xs i d ys) + d ≡ length xs + length ys
  unfolding splice
  length-splice xs i d ys h = omega (
    arith,
    length-append (take i xs) (ys ++ drop (i + d) xs),
    length-append ys (drop (i + d) xs),
    length-take i xs,
    length-drop (i + d) xs,
  )

module _ {ℓ} {A : Type ℓ} (xs : List A) (i d : ℕ) (ys : List A) (h : i ≤ length xs) where
  length-take-le : length (take i xs) ≡ i
  length-take-le = omega (arith, length-take i xs)

  pub get_elem?-splice_before : (k : ℕ) → k < i → get_elem? (splice xs i d ys) k ≡ get_elem? xs k
  unfolding splice
  get_elem?-splice_before k hk = rw (
    get_elem?-append (take i xs) (ys ++ drop (i + d) xs) k,
    length-take-le,
    lt→ltb k i hk,
    get_elem?-take i xs k,
    lt→ltb k i hk,
  )

  pub get_elem?-splice_within :
      (k : ℕ) → i ≤ k → k < i + length ys → get_elem? (splice xs i d ys) k ≡ get_elem? ys (k - i)
  unfolding splice
  get_elem?-splice_within k hk hl = rw (
    get_elem?-append (take i xs) (ys ++ drop (i + d) xs) k,
    length-take-le,
    le→ltb k i hk,
    get_elem?-append ys (drop (i + d) xs) (k - i),
    lt→ltb (k - i) (length ys) (omega arith),
  )

  pub get_elem?-splice_after :
      (k : ℕ)
      → i + length ys ≤ k
      → get_elem? (splice xs i d ys) k ≡ get_elem? xs (k - length ys + d)
  unfolding splice
  get_elem?-splice_after k hk =
      rw
        (
          get_elem?-append (take i xs) (ys ++ drop (i + d) xs) k,
          length-take-le,
          le→ltb k i (omega arith),
          get_elem?-append ys (drop (i + d) xs) (k - i),
          le→ltb (k - i) (length ys) (omega arith),
          get_elem?-drop (i + d) xs (k - i - length ys),
        )
        (ap (get_elem? xs) (omega arith))
