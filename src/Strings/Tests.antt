-- ===== src/Strings/Tests.antt =====
-- Runs of the string operations, and the theorems at concrete inputs.
use convergence_client_javas.Base.{
  ℕ, ◌≡◌, refl, false, [], ◌∷◌, throws, index_out_of_bounds, ◌>>=◌, arith,
}
use convergence_client_javas.Operations.{Converges, pair}
use convergence_client_javas.Strings.{
  Text, StringSpliceOperation, string_splice, StringNode, apply_text,
}
use convergence_client_javas.Strings.Transform.{
  string_otf, string_splice_splice_otf, get_splice_type, by_splice_types, transform_insert_insert,
}
use convergence_client_javas.Strings.Events.{Replayed, apply_discrete_operation-Replayed}
use convergence_client_javas.Strings.Convergence.{apply_op, Input}
use convergence_client_javas.Strings.Convergence.Otf.{IsSupported, string_otf-Converges}
use convergence_client_javas.Strings.Plain.Closed.{StayPlain, string_splice_splice_otf-StayPlain}
use convergence_client_javas.Strings.Plain.{is_plain_splice}
use convergence_client_javas.Strings.Faults.{
  string_splice_splice_otf-preceded_by_throws, string_splice_splice_otf-contains_throws,
}

abbrev op : ℕ → ℕ → Text → StringSpliceOperation
op i d ins = record { id = "vid"; no_op = false; index = i; delete_count = d; insert_value = ins }

abbrev abcdef : Text
abcdef = b'a' ∷ b'b' ∷ b'c' ∷ b'd' ∷ b'e' ∷ b'f' ∷ []

-- Case S-II-2 of the OT specification: insertions at one place.
insert_insert_case :
    string_splice_splice_otf (op 3 0 (1 ∷ 2 ∷ [])) (op 3 0 (3 ∷ 4 ∷ []))
    ≡ pair (op 3 0 (1 ∷ 2 ∷ [])) (op 5 0 (3 ∷ 4 ∷ []))
unfolding string_splice_splice_otf get_splice_type by_splice_types transform_insert_insert
insert_insert_case = refl

-- The server replaces "bc", the client "cd".
overlap_IsSupported : IsSupported (op 1 2 (1 ∷ [])) (op 2 2 (2 ∷ 3 ∷ [])) abcdef
overlap_IsSupported = record {
  s_edits = omega arith;
  c_edits = omega arith;
  same_length = λ _ _ _ _ h. absurd (omega arith);
  still_in = λ _ h _ _. absurd (omega arith);
}

string_otf-Converges_example :
    Converges apply_text
      (string_otf (string_splice (op 1 2 (1 ∷ []))) (string_splice (op 2 2 (2 ∷ 3 ∷ []))))
      (string_splice (op 1 2 (1 ∷ [])))
      (string_splice (op 2 2 (2 ∷ 3 ∷ [])))
      abcdef
string_otf-Converges_example =
    string_otf-Converges (string_splice (op 1 2 (1 ∷ []))) (string_splice (op 2 2 (2 ∷ 3 ∷ [])))
      abcdef refl refl (omega arith) (omega arith) overlap_IsSupported

behind_Input : Input (op 4 2 (1 ∷ 2 ∷ 3 ∷ [])) (op 0 2 (4 ∷ [])) abcdef
behind_Input = record { s_live = refl; c_live = refl; s_fits = omega arith; c_fits = omega arith }

string_splice_splice_otf-preceded_by_throws_example :
    (apply_op (op 0 2 (4 ∷ [])) abcdef
      >>= apply_op (string_splice_splice_otf (op 4 2 (1 ∷ 2 ∷ 3 ∷ [])) (op 0 2 (4 ∷ []))).server_op)
    ≡ throws index_out_of_bounds
string_splice_splice_otf-preceded_by_throws_example =
    string_splice_splice_otf-preceded_by_throws behind_Input (omega arith) (omega arith)
      (omega arith) (omega arith) (omega arith) (omega arith)

around_Input : Input (op 0 6 (1 ∷ [])) (op 3 2 []) abcdef
around_Input = record { s_live = refl; c_live = refl; s_fits = omega arith; c_fits = omega arith }

string_splice_splice_otf-contains_throws_example :
    (apply_op (op 0 6 (1 ∷ [])) abcdef
      >>= apply_op (string_splice_splice_otf (op 0 6 (1 ∷ [])) (op 3 2 [])).client_op)
    ≡ throws index_out_of_bounds
string_splice_splice_otf-contains_throws_example =
    string_splice_splice_otf-contains_throws around_Input (omega arith) (omega arith) refl
      (omega arith) (omega arith) (omega arith)

abbrev word : StringNode
word = record { node_id = "vid"; text = abcdef; emitted = [] }

apply_discrete_operation-Replayed_example : Replayed (string_splice (op 2 2 [])) word
apply_discrete_operation-Replayed_example =
    apply_discrete_operation-Replayed word (string_splice (op 2 2 [])) (omega arith)

-- The server inserts within what the client removes.
string_splice_splice_otf-StayPlain_example :
    StayPlain (op 2 0 (1 ∷ [])) (op 1 3 []) (string_splice_splice_otf (op 2 0 (1 ∷ [])) (op 1 3 []))
unfolding is_plain_splice
string_splice_splice_otf-StayPlain_example =
    string_splice_splice_otf-StayPlain (op 2 0 (1 ∷ [])) (op 1 3 []) refl refl
