-- ===== src/Base/Splice.antt =====
-- How two splices of one list commute: the list facts behind the transformations of strings and
-- arrays. A list is cut at the four ends of the two ranges, and a splice replaces some of the parts.
use Prim.Native.Nat.{ℕ, zero, suc, ◌+◌, ◌-◌, ◌≤◌}
use mathlib.Core.Path.{◌≡◌, refl, sym, ap, ◌∙◌}
use mathlib.Core.List.{List, [], ◌∷◌, ◌++◌, append_assoc}
use native.Mathlib.Nat.{add-zero}
use native.Mathlib.Omega.{arith}
use convergence_client_javas.Base.Lists.{length, take, drop, splice, length-append}

module _ {ℓ} {A : Type ℓ} where
  take-length-append : (p q : List A) → take (length p) (p ++ q) ≡ p
  take-length-append [] q = refl
  take-length-append (x ∷ p) q = ap (x ∷◌) (take-length-append p q)

  drop-length-append : (p q : List A) → drop (length p) (p ++ q) ≡ q
  drop-length-append [] q = refl
  drop-length-append (x ∷ p) q = drop-length-append p q

  take-append-drop : (n : ℕ) (xs : List A) → take n xs ++ drop n xs ≡ xs
  take-append-drop zero xs = refl
  take-append-drop (suc n) [] = refl
  take-append-drop (suc n) (x ∷ xs) = rw (take-append-drop n xs)

  -- A splice replaces the middle part.
  splice-parts :
      (xs p m q b : List A) (i d : ℕ)
      → xs ≡ p ++ (m ++ q)
      → length p ≡ i
      → length m ≡ d
      → splice xs i d b ≡ p ++ (b ++ q)
  unfolding splice
  splice-parts xs p m q b i d e hi hd = rw (
    e,
    ← hi,
    ← hd,
    take-length-append p (m ++ q),
    ← length-append p m,
    ← append_assoc p m q,
    drop-length-append (p ++ m) q,
  )

  -- A splice that replaces nothing by nothing changes nothing.
  pub splice-nothing : (xs : List A) (i : ℕ) → splice xs i 0 [] ≡ xs
  unfolding splice
  splice-nothing xs i = rw add-zero (take-append-drop i xs)

  record Cut (xs : List A) (a b c d : ℕ) : Type ℓ where
    p : List A
    u : List A
    v : List A
    w : List A
    r : List A
    whole : xs ≡ p ++ (u ++ (v ++ (w ++ r)))
    at_p : length p ≡ a
    at_u : a + length u ≡ b
    at_v : b + length v ≡ c
    at_w : c + length w ≡ d

  cut_at :
      (n : ℕ) (xs : List A)
      → n ≤ length xs
      → (p q : List A) × (xs ≡ p ++ q) × (length p ≡ n) × (n + length q ≡ length xs)
  cut_at zero xs h = ([], xs, refl, refl, omega arith)
  cut_at (suc n) [] h = absurd (omega arith)
  cut_at (suc n) (x ∷ xs) h =
      let (p, q, e, l, m) = cut_at n xs (omega arith) in
      (x ∷ p, q, ap (x ∷◌) e, omega arith, omega arith)

  cut_join :
      (xs p q u q' v q'' w r : List A)
      → xs ≡ p ++ q
      → q ≡ u ++ q'
      → q' ≡ v ++ q''
      → q'' ≡ w ++ r
      → xs ≡ p ++ (u ++ (v ++ (w ++ r)))
  cut_join xs p q u q' v q'' w r e e' e'' e''' =
      e ∙ ap (p ++◌) (e' ∙ ap (u ++◌) (e'' ∙ ap (v ++◌) e'''))

  cut : (xs : List A) (a b c d : ℕ) → a ≤ b → b ≤ c → c ≤ d → d ≤ length xs → Cut xs a b c d
  cut xs a b c d ab bc cd dl =
      let (p, q, e, l, m) = cut_at a xs (omega arith) in
      let (u, q', e', l', m') = cut_at (b - a) q (omega arith) in
      let (v, q'', e'', l'', m'') = cut_at (c - b) q' (omega arith) in
      let (w, r, e''', l''', m''') = cut_at (d - c) q'' (omega arith) in
      record {
        p = p;
        u = u;
        v = v;
        w = w;
        r = r;
        whole = cut_join xs p q u q' v q'' w r e e' e'' e''';
        at_p = l;
        at_u = omega arith;
        at_v = omega arith;
        at_w = omega arith;
      }

module _ {ℓ} {A : Type ℓ} (xs a b : List A) (i₁ d₁ i₂ d₂ : ℕ) where
  splice_disjoint_parts :
      (j : ℕ)
      → j + d₁ ≡ i₂ + length a
      → Cut xs i₁ (i₁ + d₁) i₂ (i₂ + d₂)
      → splice (splice xs i₁ d₁ a) j d₂ b ≡ splice (splice xs i₂ d₂ b) i₁ d₁ a
  splice_disjoint_parts j hj c =
      splice-parts _ (p ++ (a ++ v)) w r b j d₂ (first ∙ simp append_assoc)
        (omega (arith, length-append p (a ++ v), length-append a v, at_p, at_u, at_v, at_w))
        (omega (arith, at_w))
      ∙ sym (
          splice-parts _ p u (v ++ (b ++ r)) a i₁ d₁ (second ∙ simp append_assoc) at_p
            (omega (arith, at_u))
          ∙ simp append_assoc)
    where
      open c use {p, u, v, w, r, whole, at_p, at_u, at_v, at_w}

      first : splice xs i₁ d₁ a ≡ p ++ (a ++ (v ++ (w ++ r)))
      first = splice-parts xs p u (v ++ (w ++ r)) a i₁ d₁ whole at_p (omega (arith, at_u))

      second : splice xs i₂ d₂ b ≡ (p ++ (u ++ v)) ++ (b ++ r)
      second =
          splice-parts xs (p ++ (u ++ v)) w r b i₂ d₂ (whole ∙ simp append_assoc)
            (omega (arith, length-append p (u ++ v), length-append u v, at_p, at_u, at_v))
            (omega (arith, at_w))

  splice_overlap_parts :
      (j e₁ e₂ : ℕ)
      → j ≡ i₁ + length a
      → i₁ + e₁ ≡ i₂
      → i₁ + d₁ + e₂ ≡ i₂ + d₂
      → Cut xs i₁ i₂ (i₁ + d₁) (i₂ + d₂)
      → splice (splice xs i₁ d₁ a) j e₂ b ≡ splice (splice xs i₂ d₂ b) i₁ e₁ a
  splice_overlap_parts j e₁ e₂ hj he₁ he₂ c =
      splice-parts _ (p ++ a) w r b j e₂ (first ∙ simp append_assoc)
        (omega (arith, length-append p a, at_p)) (omega (arith, at_w))
      ∙ sym (
          splice-parts _ p u (b ++ r) a i₁ e₁ (second ∙ simp append_assoc) at_p
            (omega (arith, at_u))
          ∙ simp append_assoc)
    where
      open c use {p, u, v, w, r, whole, at_p, at_u, at_v, at_w}

      first : splice xs i₁ d₁ a ≡ p ++ (a ++ (w ++ r))
      first =
          splice-parts xs p (u ++ v) (w ++ r) a i₁ d₁ (whole ∙ simp append_assoc) at_p
            (omega (arith, length-append u v, at_u, at_v))

      second : splice xs i₂ d₂ b ≡ (p ++ u) ++ (b ++ r)
      second =
          splice-parts xs (p ++ u) (v ++ w) r b i₂ d₂ (whole ∙ simp append_assoc)
            (omega (arith, length-append p u, at_p, at_u))
            (omega (arith, length-append v w, at_v, at_w))

  splice_contained_parts :
      (e : ℕ)
      → e + d₂ ≡ d₁ + length b
      → Cut xs i₁ i₂ (i₂ + d₂) (i₁ + d₁)
      → splice (splice xs i₂ d₂ b) i₁ e a ≡ splice xs i₁ d₁ a
  splice_contained_parts e he c =
      splice-parts _ p (u ++ (b ++ w)) r a i₁ e (inner ∙ simp append_assoc) at_p
        (omega (arith, length-append u (b ++ w), length-append b w, at_u, at_v, at_w))
      ∙ sym (
          splice-parts xs p (u ++ (v ++ w)) r a i₁ d₁ (whole ∙ simp append_assoc) at_p
            (omega (arith, length-append u (v ++ w), length-append v w, at_u, at_v, at_w)))
    where
      open c use {p, u, v, w, r, whole, at_p, at_u, at_v, at_w}

      inner : splice xs i₂ d₂ b ≡ (p ++ u) ++ (b ++ (w ++ r))
      inner =
          splice-parts xs (p ++ u) v (w ++ r) b i₂ d₂ (whole ∙ simp append_assoc)
            (omega (arith, length-append p u, at_p, at_u)) (omega (arith, at_v))

  -- Two ranges of which the first ends at or before the start of the second.
  pub splice_disjoint :
      (j : ℕ)
      → i₁ + d₁ ≤ i₂
      → i₂ + d₂ ≤ length xs
      → j + d₁ ≡ i₂ + length a
      → splice (splice xs i₁ d₁ a) j d₂ b ≡ splice (splice xs i₂ d₂ b) i₁ d₁ a
  splice_disjoint j before fits hj =
      splice_disjoint_parts j hj
        (cut xs i₁ (i₁ + d₁) i₂ (i₂ + d₂) (omega arith) before (omega arith) fits)

  -- Two ranges of which the second starts and ends at or after the first: what is left of each is
  -- replaced, and the two texts stand in order.
  pub splice_overlap :
      (j e₁ e₂ : ℕ)
      → i₁ ≤ i₂
      → i₂ ≤ i₁ + d₁
      → i₁ + d₁ ≤ i₂ + d₂
      → i₂ + d₂ ≤ length xs
      → j ≡ i₁ + length a
      → i₁ + e₁ ≡ i₂
      → i₁ + d₁ + e₂ ≡ i₂ + d₂
      → splice (splice xs i₁ d₁ a) j e₂ b ≡ splice (splice xs i₂ d₂ b) i₁ e₁ a
  splice_overlap j e₁ e₂ h₁ h₂ h₃ fits hj he₁ he₂ =
      splice_overlap_parts j e₁ e₂ hj he₁ he₂ (cut xs i₁ i₂ (i₁ + d₁) (i₂ + d₂) h₁ h₂ h₃ fits)

  -- The second range lies in the first: its text is replaced with the rest.
  pub splice_contained :
      (e : ℕ)
      → i₁ ≤ i₂
      → i₂ + d₂ ≤ i₁ + d₁
      → i₁ + d₁ ≤ length xs
      → e + d₂ ≡ d₁ + length b
      → splice (splice xs i₂ d₂ b) i₁ e a ≡ splice xs i₁ d₁ a
  splice_contained e h₁ h₂ fits he =
      splice_contained_parts e he (cut xs i₁ i₂ (i₂ + d₂) (i₁ + d₁) h₁ (omega arith) h₂ fits)
