-- ===== src/Operations.antt =====
-- What the operation transformation functions share: OperationPair
-- (src/main/model/ot/xform/OperationPair.ts), and the condition under which the two sites that hold
-- a transformed pair end in one state.
use convergence_client_javas.Base.{◌≡◌, sym, ap, ◌∙◌, Result, ok, ◌>>=◌}

pub record OperationPair {ℓ} (Op : Type ℓ) : Type ℓ where
  pub server_op : Op
  pub client_op : Op

abbrev pub pair {ℓ} : {Op : Type ℓ} → Op → Op → OperationPair Op
pair s c = record { server_op = s; client_op = c }

abbrev pub map_pair {ℓ κ} : {A : Type ℓ} {B : Type κ} → (A → B) → OperationPair A → OperationPair B
map_pair f p = pair (f p.server_op) (f p.client_op)

-- The server, which has applied `s`, applies the transformed client operation; the client, which
-- has applied `c`, applies the transformed server operation. Neither throws, and both hold `y`.
abbrev pub Converges {ℓ κ} :
    {Op : Type ℓ} {S : Type κ} → (Op → S → Result S) → OperationPair Op → Op → Op → S → Type κ
Converges {S} apply p s c x =
    (y : S) × ((apply s x >>= apply p.client_op) ≡ ok y)
    × ((apply c x >>= apply p.server_op) ≡ ok y)

module _ {ℓ κ} {Op : Type ℓ} {S : Type κ} (apply : Op → S → Result S) where
  -- The four applications one by one.
  pub Converges-by :
      (s c s' c' : Op) (x a b y z : S)
      → apply s x ≡ ok a
      → apply c' a ≡ ok y
      → apply c x ≡ ok b
      → apply s' b ≡ ok z
      → y ≡ z
      → Converges apply (pair s' c') s c x
  Converges-by s c s' c' x a b y z sa cy cb sz e = (y, rw sa cy, rw cb (sz ∙ ap ok (sym e)))

  -- The two sites may change their roles.
  pub Converges-swap :
      (s c s' c' : Op) (x : S)
      → Converges apply (pair s' c') s c x
      → Converges apply (pair c' s') c s x
  Converges-swap s c s' c' x (y, p, q) = (y, q, p)
