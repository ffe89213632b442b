-- ===== src/Strings/Plain/Meets.antt =====
-- The functions for strings fill what the transformer
-- (src/main/model/ot/xform/OperationTransformer.ts) asks of a registry, where the edits are plain.
use convergence_client_javas.Base.{
  ◌≡◌, Bool, refl, sym, subst, ◌∙◌, inl, inr, true, false, true≢false, Bool-cases, ◌||◌, ok, throws,
  not_allowed, ok≢throws, ◌>>=◌, same_text, arith,
}
use convergence_client_javas.Operations.{OperationPair}
use convergence_client_javas.Transformer.{transform_identical_path_operations}
use convergence_client_javas.Nodes.{apply_at_node}
use convergence_client_javas.Nodes.Pairs.{NodeMeets, FunctionsMeet, Meet-NodeMeets}
use convergence_client_javas.Strings.{
  Text, StringSpliceOperation, StringOperation, string_splice, string_value, is_no_op, splice_text,
  apply_text,
}
use convergence_client_javas.Strings.Transform.{
  string_splice_set_otf, string_set_splice_otf, string_set_set_otf, string_otf,
}
use convergence_client_javas.Strings.Convergence.Otf.{
  IsSupported, FitsText, SupportedPair, string_otf-Converges,
}
use convergence_client_javas.Strings.Plain.{
  is_plain_splice, is_plain, string_operation_id, handle_plain, string_kind, string_functions,
}
use convergence_client_javas.Strings.Plain.Closed.{string_splice_splice_otf-StayPlain}

-- An edit that was not refused.
handle_plain-cases :
    (o : StringOperation) (str a : Text)
    → handle_plain o str ≡ ok a
    → (is_plain o ≡ true) × (apply_text o str ≡ ok a)
unfolding handle_plain
handle_plain-cases o str a h = elim (Bool-cases (is_plain o)) [
  | inl e ↦ let step : handle_plain o str ≡ apply_text o str = rw e refl in (e, sym step ∙ h)
  | inr e ↦
      let step : handle_plain o str ≡ throws not_allowed = rw e refl in
      absurd (ok≢throws (sym h ∙ step))
]

live_plain : (b c : Bool) → b ≡ false → (b || c) ≡ true → c ≡ true
live_plain true c e h = absurd (true≢false e)
live_plain false c e h = h

silent_text : (o : StringOperation) (str : Text) → is_no_op o ≡ true → apply_text o str ≡ ok str
unfolding apply_text
silent_text o str e = rw e refl

applied_at_node :
    (o : StringOperation) (str a : Text)
    → (is_no_op o || is_plain o) ≡ true
    → apply_text o str ≡ ok a
    → apply_at_node string_kind o str ≡ ok a
unfolding apply_at_node handle_plain
applied_at_node o str a p h = elim (Bool-cases (is_no_op o)) [
  | inl e ↦ rw e (sym (silent_text o str e) ∙ h)
  | inr e ↦ rw (e, live_plain (is_no_op o) (is_plain o) e p) h
]

pub applied-FitsText :
    (o : StringOperation) (str a : Text)
    → is_no_op o ≡ false
    → apply_text o str ≡ ok a
    → FitsText o str
unfolding apply_text splice_text
applied-FitsText (string_splice o) str a e h = ground arith
applied-FitsText (string_value o) str a e h = tt

plain-IsSupported :
    (s c : StringSpliceOperation) (str : Text)
    → is_plain_splice s ≡ true
    → is_plain_splice c ≡ true
    → IsSupported s c str
unfolding is_plain_splice
plain-IsSupported s c str p q = record {
  s_edits = ground arith;
  c_edits = ground arith;
  same_length = λ a b d e f. absurd (ground arith);
  still_in = λ a b d e. absurd (ground arith);
}

plain-SupportedPair :
    (s c : StringOperation) (str : Text)
    → is_plain s ≡ true
    → is_plain c ≡ true
    → SupportedPair s c str
unfolding is_plain
plain-SupportedPair (string_splice s) (string_splice c) str p q = plain-IsSupported s c str p q
plain-SupportedPair (string_splice s) (string_value c) str p q = tt
plain-SupportedPair (string_value s) c str p q = tt

-- What comes out is plain or left out, and for the same nodes.
record Closed (s c : StringOperation) (p : OperationPair StringOperation) : Type 0 where
  pub server_plain : (is_no_op p.server_op || is_plain p.server_op) ≡ true
  pub client_plain : (is_no_op p.client_op || is_plain p.client_op) ≡ true
  pub server_id : string_operation_id p.server_op ≡ string_operation_id s
  pub client_id : string_operation_id p.client_op ≡ string_operation_id c

plain_left : (b : Bool) → (b || true) ≡ true
plain_left true = refl
plain_left false = refl

string_otf-Closed :
    (s c : StringOperation)
    → is_plain s ≡ true
    → is_plain c ≡ true
    → string_operation_id s ≡ string_operation_id c
    → Closed s c (string_otf s c)
unfolding string_otf string_splice_set_otf string_set_splice_otf string_set_set_otf is_plain
    string_operation_id
string_otf-Closed (string_splice s) (string_splice c) p q ids =
    let r = string_splice_splice_otf-StayPlain s c p q in
    record {
      server_plain = r.server_plain;
      client_plain = r.client_plain;
      server_id = r.server_id;
      client_id = r.client_id;
    }
string_otf-Closed (string_splice s) (string_value c) p q ids = record {
  server_plain = refl;
  client_plain = plain_left c.no_op;
  server_id = refl;
  client_id = refl;
}
string_otf-Closed (string_value s) (string_splice c) p q ids = record {
  server_plain = plain_left s.no_op;
  client_plain = refl;
  server_id = refl;
  client_id = refl;
}
string_otf-Closed (string_value s) (string_value c) p q ids =
    elim (Bool-cases (same_text s.value c.value)) [
      | inl e ↦
          rw e
            (record { server_plain = refl; client_plain = refl; server_id = refl; client_id = ids })
      | inr e ↦ rw e (record {
        server_plain = plain_left s.no_op;
        client_plain = refl;
        server_id = refl;
        client_id = refl;
      })
    ]

-- After an operation that was applied, the rest of the two.
then_applied :
    (o : StringOperation) (str a y : Text) (o' : StringOperation)
    → apply_text o str ≡ ok a
    → (apply_text o str >>= apply_text o') ≡ ok y
    → apply_text o' a ≡ ok y
then_applied o str a y o' h k = subst (λ q. (q >>= apply_text o') ≡ ok y) h k

string_otf-NodeMeets :
    (s c : StringOperation) (str a b : Text)
    → is_no_op s ≡ false
    → is_no_op c ≡ false
    → string_operation_id s ≡ string_operation_id c
    → handle_plain s str ≡ ok a
    → handle_plain c str ≡ ok b
    → NodeMeets string_kind string_functions s c a b
unfolding transform_identical_path_operations
string_otf-NodeMeets s c str a b s_live c_live ids hs hc =
    let ps = handle_plain-cases s str a hs in
    let pc = handle_plain-cases c str b hc in
    let closed = string_otf-Closed s c ps.0 pc.0 ids in
    let m =
      string_otf-Converges s c str s_live c_live (applied-FitsText s str a s_live ps.1)
        (applied-FitsText c str b c_live pc.1) (plain-SupportedPair s c str ps.0 pc.0) in
    Meet-NodeMeets string_kind string_functions s c a b (record {
      server_op = (string_otf s c).server_op;
      client_op = (string_otf s c).client_op;
      returned = refl;
      server_id = closed.server_id;
      client_id = closed.client_id;
      meeting = m.0;
      client_applied =
          applied_at_node _ a m.0 closed.client_plain (then_applied s str a m.0 _ ps.1 m.1);
      server_applied =
          applied_at_node _ b m.0 closed.server_plain (then_applied c str b m.0 _ pc.1 m.2);
    })

pub string_functions-Meet : FunctionsMeet string_kind string_functions
string_functions-Meet = record {
  meets = string_otf-NodeMeets;
  left_out = λ t. absurd (true≢false (sym t));
}
