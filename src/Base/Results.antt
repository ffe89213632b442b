-- ===== src/Base/Results.antt =====
-- Calls that may throw. An error names the `throw` statement, or the read of null, that raises it;
-- no_node and not_allowed are the refusals of a model that asks for more than the source does.
use mathlib.Core.Logic.{◌⊎◌, inl, inr, ◌≢◌}
use mathlib.Core.Option.{some}
use mathlib.Core.Path.{◌≡◌, refl, sym}
use mathlib.Core.Bool.{Bool, true, false, true≢false, not, ◌&&◌}

pub data Error : Type 0 where
  index_out_of_bounds : Error
  no_function_found not_discrete no_node not_allowed invalid_operation_type same_property
        not_a_number null_dereferenced not_an_operation invalid_guid not_serializable
        undefined_value unsupported_type not_a_function invalid_convergence_type :
      Error
  batch_in_progress batch_not_in_progress batch_not_empty batch_empty : Error
  nothing_in_flight unexpected_version unexpected_sequence_number : Error

pub data Result {ℓ} (A : Type ℓ) : Type ℓ where
  ok : A → Result A
  throws : Error → Result A

infixl 5 ◌>>=◌
abbrev pub ◌>>=◌ {ℓ κ} : {A : Type ℓ} {B : Type κ} → Result A → (A → Result B) → Result B
ok a >>= f = f a
throws e >>= f = throws e

-- A chain of calls that returned: so did the first, and the rest on what it returned.
pub record Returned {ℓ κ} {A : Type ℓ} {B : Type κ} (r : Result A) (f : A → Result B) (b : B)
    : Type (ℓ ⊔ κ) where
  pub value : A
  pub first : r ≡ ok value
  pub rest : f value ≡ ok b

pub returned {ℓ κ} :
    {A : Type ℓ} {B : Type κ} (r : Result A) (f : A → Result B) (b : B)
    → (r >>= f) ≡ ok b
    → Returned r f b
returned (ok a) f b h = record { value = a; first = refl; rest = h }
returned (throws e) f b h = cc

-- What is left behind when a call throws, and when it returns.
abbrev pub on_result {ℓ κ} : {A : Type ℓ} {B : Type κ} → Result A → (Error → B) → (A → B) → B
on_result (ok a) f g = g a
on_result (throws e) f g = f e

pub ok-injective {ℓ} : {A : Type ℓ} {a b : A} → ok a ≡ ok b → a ≡ b
ok-injective h = cc

pub result_cases {ℓ} :
    {A : Type ℓ} (r : Result A) → ((a : A) × (r ≡ ok a)) ⊎ ((e : Error) × (r ≡ throws e))
result_cases (ok a) = inl (a, refl)
result_cases (throws e) = inr (e, refl)

pub ok≢throws {ℓ} : {A : Type ℓ} {a : A} {e : Error} → ok a ≢ throws e
ok≢throws h = cc

pub some-injective {ℓ} : {A : Type ℓ} {a b : A} → some a ≡ some b → a ≡ b
some-injective h = cc

-- Both of two tests that hold together.
pub both : (a b : Bool) → (a && b) ≡ true → (a ≡ true) × (b ≡ true)
both true true h = (refl, refl)
both true false h = absurd (true≢false (sym h))
both false b h = absurd (true≢false (sym h))

pub not-true : (b : Bool) → not b ≡ true → b ≡ false
not-true true h = absurd (true≢false (sym h))
not-true false h = refl
