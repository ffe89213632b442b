-- ===== src/Values.antt =====
-- Numbers, booleans and dates: their operations (src/main/model/ot/ops), the functions that
-- transform them (src/main/model/ot/xform/number, bool and date) and their nodes
-- (src/main/model/internal/NumberNode.ts, BooleanNode.ts and DateNode.ts).
--
-- The numbers of JavaScript are a parameter, and so are the times of dates: a date is its time.
pub mod Convergence
pub mod Tests
use Prim.Native.String.{String}
use convergence_client_javas.Base.{
  ◌≡◌, Bool, true, false, not, some, if◌then◌else◌, Result, ok, throws, not_a_number,
}
use convergence_client_javas.Operations.{OperationPair, pair}
use convergence_client_javas.Nodes.{NodeKind}
use convergence_client_javas.Nodes.Pairs.{Functions}

-- What the code uses of numbers. `strict_equals` is `===`.
pub record Numbers (N : Type 0) : Type 0 where
  pub add : N → N → N
  pub is_zero : N → Bool
  pub is_nan : N → Bool
  pub strict_equals : N → N → Bool
  pub strict_equals-eq : (x y : N) → strict_equals x y ≡ true → x ≡ y

-- Two additions may be done in either order. It holds where additions are exact, as those of integers
-- up to 2 ^ 53 are, and fails where they are rounded.
abbrev pub AdditionsSwap : {N : Type 0} → Numbers N → Type 0
AdditionsSwap {N} numbers =
    (x m n : N) → numbers.add (numbers.add x m) n ≡ numbers.add (numbers.add x n) m

pub record NumberDeltaOperation (N : Type 0) : Type 0 where
  pub id : String
  pub no_op : Bool
  pub delta : N

pub record NumberSetOperation (N : Type 0) : Type 0 where
  pub id : String
  pub no_op : Bool
  pub value : N

pub data NumberOperation (N : Type 0) : Type 0 where
  number_delta : NumberDeltaOperation N → NumberOperation N
  number_value : NumberSetOperation N → NumberOperation N

module _ {N : Type 0} where
  unfoldable pub number_is_no_op : NumberOperation N → Bool
  number_is_no_op (number_delta o) = o.no_op
  number_is_no_op (number_value o) = o.no_op

  unfoldable pub number_operation_id : NumberOperation N → String
  number_operation_id (number_delta o) = o.id
  number_operation_id (number_value o) = o.id

  abbrev pub silent_delta : NumberDeltaOperation N → NumberOperation N
  silent_delta o = number_delta (record o { no_op = true })

  abbrev pub silent_number : NumberSetOperation N → NumberOperation N
  silent_number o = number_value (record o { no_op = true })

module _ {N : Type 0} (numbers : Numbers N) where
  open numbers use {add, is_zero, is_nan, strict_equals}

  unfoldable pub apply_delta : N → N → Result N
  apply_delta delta x =
      if is_nan delta then throws not_a_number else if is_zero delta then ok x else ok (add x delta)

  unfoldable pub apply_number_set : N → N → Result N
  apply_number_set value x = if is_nan value then throws not_a_number else ok value

  unfoldable pub handle_number : NumberOperation N → N → Result N
  handle_number (number_delta o) x = apply_delta o.delta x
  handle_number (number_value o) x = apply_number_set o.value x

  unfoldable pub number_set_set :
      NumberSetOperation N → NumberSetOperation N → OperationPair (NumberOperation N)
  number_set_set s c =
      if strict_equals s.value c.value
      then pair (silent_number s) (silent_number s)
      else pair (number_value s) (silent_number c)

  unfoldable pub number_otf :
      NumberOperation N → NumberOperation N → OperationPair (NumberOperation N)
  number_otf (number_delta s) (number_delta c) = pair (number_delta s) (number_delta c)
  number_otf (number_delta s) (number_value c) = pair (silent_delta s) (number_value c)
  number_otf (number_value s) (number_delta c) = pair (number_value s) (silent_delta c)
  number_otf (number_value s) (number_value c) = number_set_set s c

  abbrev pub number_kind : NodeKind (NumberOperation N) N
  number_kind = record {
    operation_id = number_operation_id;
    is_no_op = number_is_no_op;
    handle = handle_number;
    tolerant = false;
  }

  abbrev pub number_functions : Functions (NumberOperation N)
  number_functions s c = some (λ s c. ok (number_otf s c))

pub record BooleanSetOperation : Type 0 where
  pub id : String
  pub no_op : Bool
  pub value : Bool

abbrev pub same_boolean : Bool → Bool → Bool
same_boolean true x = x
same_boolean false x = not x

unfoldable pub boolean_otf :
    BooleanSetOperation → BooleanSetOperation → OperationPair BooleanSetOperation
boolean_otf s c =
    if same_boolean s.value c.value
    then pair (record s { no_op = true }) (record s { no_op = true })
    else pair s (record c { no_op = true })

abbrev pub handle_boolean : BooleanSetOperation → Bool → Result Bool
handle_boolean o x = ok o.value

abbrev pub boolean_kind : NodeKind BooleanSetOperation Bool
boolean_kind = record {
  operation_id = λ o. o.id;
  is_no_op = λ o. o.no_op;
  handle = handle_boolean;
  tolerant = false;
}

abbrev pub boolean_functions : Functions BooleanSetOperation
boolean_functions s c = some (λ s c. ok (boolean_otf s c))

pub record DateSetOperation (T : Type 0) : Type 0 where
  pub id : String
  pub no_op : Bool
  pub value : T

-- `===` on times.
pub record Times (T : Type 0) : Type 0 where
  pub same_time : T → T → Bool
  pub same_time-eq : (x y : T) → same_time x y ≡ true → x ≡ y

module _ {T : Type 0} where
  unfoldable pub date_otf :
      Times T → DateSetOperation T → DateSetOperation T → OperationPair (DateSetOperation T)
  date_otf times s c =
      if times.same_time s.value c.value
      then pair (record s { no_op = true }) (record s { no_op = true })
      else pair s (record c { no_op = true })

  abbrev pub handle_date : DateSetOperation T → T → Result T
  handle_date o x = ok o.value

  abbrev pub date_kind : NodeKind (DateSetOperation T) T
  date_kind = record {
    operation_id = λ o. o.id;
    is_no_op = λ o. o.no_op;
    handle = handle_date;
    tolerant = false;
  }

  abbrev pub date_functions : Times T → Functions (DateSetOperation T)
  date_functions times s c = some (λ s c. ok (date_otf times s c))
