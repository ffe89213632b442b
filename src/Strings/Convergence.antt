-- ===== src/Strings/Convergence.antt =====
-- Both sites end with one text: what a pair of splices needs for that.
pub mod Moves
pub mod Inserts
pub mod Ranges
pub mod Otf
use Prim.Native.String.{String}
use convergence_client_javas.Base.{
  ℕ, ◌+◌, ◌≤◌, ◌≡◌, refl, true, false, Result, ok, ◌>>=◌, length, splice, arith, length-splice,
}
use convergence_client_javas.Operations.{OperationPair, pair, Converges}
use convergence_client_javas.Strings.{
  Text, StringSpliceOperation, string_splice, splice_text, apply_text,
}
use convergence_client_javas.Strings.Switches.{Splices}
use convergence_client_javas.Strings.Apply.{splice_text-ok}

abbrev pub apply_op : StringSpliceOperation → Text → Result Text
apply_op o str = apply_text (string_splice o) str

-- The range of an operation lies in the text.
abbrev pub Fits : StringSpliceOperation → Text → Type 0
Fits o str = o.index + o.delete_count ≤ length str

abbrev pub run : StringSpliceOperation → Text → Text
run o str = splice str o.index o.delete_count o.insert_value

module _ (o : StringSpliceOperation) (str : Text) where
  pub apply_op-live : o.no_op ≡ false → Fits o str → apply_op o str ≡ ok (run o str)
  unfolding apply_text
  apply_op-live live h = rw live (splice_text-ok str o.index o.delete_count o.insert_value h)

  pub apply_op-no_op : o.no_op ≡ true → apply_op o str ≡ ok str
  unfolding apply_text
  apply_op-no_op e = rw e

-- Operations that are applied, on a text that both fit.
module _ (s c : StringSpliceOperation) (str : Text) where
  pub record Input : Type 0 where
    pub s_live : s.no_op ≡ false
    pub c_live : c.no_op ≡ false
    pub s_fits : Fits s str
    pub c_fits : Fits c str

module _ {s c : StringSpliceOperation} {str : Text} (inp : Input s c str) where
  open inp use {s_live, c_live, s_fits, c_fits}

  pub length-run-s : length (run s str) + s.delete_count ≡ length str + length s.insert_value
  length-run-s = length-splice str s.index s.delete_count s.insert_value s_fits

  pub length-run-c : length (run c str) + c.delete_count ≡ length str + length c.insert_value
  length-run-c = length-splice str c.index c.delete_count c.insert_value c_fits

  -- Both transformed operations are applied.
  pub both_applied :
      (s' c' : StringSpliceOperation)
      → s'.no_op ≡ false
      → c'.no_op ≡ false
      → s'.index + s'.delete_count + c.delete_count ≤ length str + length c.insert_value
      → c'.index + c'.delete_count + s.delete_count ≤ length str + length s.insert_value
      → run c' (run s str) ≡ run s' (run c str)
      → Converges apply_op (pair s' c') s c str
  both_applied s' c' s_on c_on hs hc e = (
    run c' (run s str),
    rw (apply_op-live s str s_live s_fits)
        (apply_op-live c' (run s str) c_on (omega (arith, length-run-s))),
    rw (apply_op-live c str c_live c_fits, e)
        (apply_op-live s' (run c str) s_on (omega (arith, length-run-c))),
  )

  -- The transformed server operation is a no-op.
  pub client_applied :
      (s' c' : StringSpliceOperation)
      → s'.no_op ≡ true
      → c'.no_op ≡ false
      → c'.index + c'.delete_count + s.delete_count ≤ length str + length s.insert_value
      → run c' (run s str) ≡ run c str
      → Converges apply_op (pair s' c') s c str
  client_applied s' c' s_off c_on hc e = (
    run c str,
    rw (apply_op-live s str s_live s_fits, ← e)
        (apply_op-live c' (run s str) c_on (omega (arith, length-run-s))),
    rw (apply_op-live c str c_live c_fits) (apply_op-no_op s' (run c str) s_off),
  )

  -- The transformed client operation is a no-op.
  pub server_applied :
      (s' c' : StringSpliceOperation)
      → s'.no_op ≡ false
      → c'.no_op ≡ true
      → s'.index + s'.delete_count + c.delete_count ≤ length str + length c.insert_value
      → run s' (run c str) ≡ run s str
      → Converges apply_op (pair s' c') s c str
  server_applied s' c' s_on c_off hs e = (
    run s str,
    rw (apply_op-live s str s_live s_fits) (apply_op-no_op c' (run s str) c_off),
    rw (apply_op-live c str c_live c_fits, ← e)
        (apply_op-live s' (run c str) s_on (omega (arith, length-run-c))),
  )
