-- ===== src/Base/Integers.antt =====
-- The integers over the native numbers, with the arithmetic that dates need.
use Prim.Native.Nat.{ℕ, suc, ◌+◌, ◌-◌, ◌*◌, ◌/◌}
use convergence_client_javas.Base.{leb, if◌then◌else◌}

-- `negsuc n` is minus one more than n.
pub data ℤ : Type 0 where
  pos negsuc : ℕ → ℤ

-- The first less the second.
abbrev pub difference : ℕ → ℕ → ℤ
difference m n = if leb n m then pos (m - n) else negsuc (n - suc m)

infixl 65 ◌+ℤ◌ ◌-ℤ◌
abbrev pub ◌+ℤ◌ : ℤ → ℤ → ℤ
(pos m) +ℤ (pos n) = pos (m + n)
(pos m) +ℤ (negsuc n) = difference m (suc n)
(negsuc m) +ℤ (pos n) = difference n (suc m)
(negsuc m) +ℤ (negsuc n) = negsuc (suc (m + n))

abbrev pub ◌-ℤ◌ : ℤ → ℤ → ℤ
(pos m) -ℤ (pos n) = difference m n
(pos m) -ℤ (negsuc n) = pos (m + suc n)
(negsuc m) -ℤ (pos n) = negsuc (m + n)
(negsuc m) -ℤ (negsuc n) = difference n m

abbrev pub times : ℤ → ℕ → ℤ
times (pos m) n = pos (m * n)
times (negsuc m) n = difference 0 (suc m * n)

-- `Math.floor` of a quotient.
abbrev pub floor_divide : ℤ → ℕ → ℤ
floor_divide (pos m) n = pos (m / n)
floor_divide (negsuc m) n = negsuc (m / n)
