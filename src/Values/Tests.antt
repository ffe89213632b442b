-- ===== src/Values/Tests.antt =====
-- The theorem on numbers at concrete numbers.
use convergence_client_javas.Base.{ℕ, ◌+◌, false, ◌==◌, ==_iff, arith}
use convergence_client_javas.Nodes.Pairs.{FunctionsMeet}
use convergence_client_javas.Values.{Numbers, number_kind, number_functions}
use convergence_client_javas.Values.Convergence.{number_functions-Meet}

abbrev whole_numbers : Numbers ℕ
whole_numbers = record {
  add = λ x y. x + y;
  is_zero = λ x. x == 0;
  is_nan = λ x. false;
  strict_equals = λ x y. x == y;
  strict_equals-eq = λ x y e. (==_iff x y).0 e;
}

number_functions-Meet_example :
    FunctionsMeet (number_kind whole_numbers) (number_functions whole_numbers)
number_functions-Meet_example = number_functions-Meet whole_numbers (λ x m n. omega arith)
