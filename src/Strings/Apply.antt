-- ===== src/Strings/Apply.antt =====
-- What a string node does with an operation, on its text.
use convergence_client_javas.Base.{
  ℕ, ◌+◌, ◌≤◌, ◌<◌, ◌≡◌, ok, throws, index_out_of_bounds, length, splice, arith,
}
use convergence_client_javas.Strings.{Text, splice_text}

-- A splice succeeds exactly when its range lies in the text.
pub splice_text-ok :
    (str : Text) (i d : ℕ) (ins : Text)
    → i + d ≤ length str
    → splice_text str i d ins ≡ ok (splice str i d ins)
unfolding splice_text splice
splice_text-ok str i d ins h = ground arith

pub splice_text-throws :
    (str : Text) (i d : ℕ) (ins : Text)
    → length str < i + d
    → splice_text str i d ins ≡ throws index_out_of_bounds
unfolding splice_text
splice_text-throws str i d ins h = ground arith
