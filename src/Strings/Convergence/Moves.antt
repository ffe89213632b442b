-- ===== src/Strings/Convergence/Moves.antt =====
-- The ways in which a pair of splices is transformed, by how their ranges lie.
use convergence_client_javas.Base.{
  ℕ, ◌+◌, ◌≤◌, ◌≡◌, refl, sym, ◌∙◌, true, [], ◌∷◌, length, splice, arith,
}
use convergence_client_javas.Base.Splice.{
  splice_disjoint, splice_overlap, splice_contained, splice-nothing,
}
use convergence_client_javas.Operations.{pair, Converges}
use convergence_client_javas.Strings.{Text, StringSpliceOperation}
use convergence_client_javas.Strings.Convergence.{
  apply_op, apply_op-live, apply_op-no_op, run, Input, both_applied, client_applied, server_applied,
}

eq_nil_of_length : (xs : Text) → length xs ≡ 0 → xs ≡ []
eq_nil_of_length [] h = refl
eq_nil_of_length (x ∷ xs) h = absurd (omega arith)

module _ {s c : StringSpliceOperation} {str : Text} (inp : Input s c str) where
  open inp use {s_live, c_live, s_fits, c_fits}

  pub s_before_c :
      (j : ℕ)
      → s.index + s.delete_count ≤ c.index
      → j + s.delete_count ≡ c.index + length s.insert_value
      → Converges apply_op (pair s (record c { index = j })) s c str
  s_before_c j h hj =
      both_applied inp s (record c { index = j }) s_live c_live (omega arith) (omega arith)
        (splice_disjoint str s.insert_value c.insert_value s.index s.delete_count c.index
          c.delete_count j h c_fits hj)

  pub c_before_s :
      (j : ℕ)
      → c.index + c.delete_count ≤ s.index
      → j + c.delete_count ≡ s.index + length c.insert_value
      → Converges apply_op (pair (record s { index = j }) c) s c str
  c_before_s j h hj =
      both_applied inp (record s { index = j }) c s_live c_live (omega arith) (omega arith)
        (sym (
          splice_disjoint str c.insert_value s.insert_value c.index c.delete_count s.index
            s.delete_count j h s_fits hj))

  -- The client's range starts and ends at or after the server's.
  pub s_overlaps_c :
      (i e j f : ℕ)
      → s.index ≤ c.index
      → c.index ≤ s.index + s.delete_count
      → s.index + s.delete_count ≤ c.index + c.delete_count
      → i ≡ s.index
      → s.index + e ≡ c.index
      → j ≡ s.index + length s.insert_value
      → s.index + s.delete_count + f ≡ c.index + c.delete_count
      → Converges apply_op
          (pair
            (record s { index = i; delete_count = e })
            (record c { index = j; delete_count = f }))
          s
          c
          str
  s_overlaps_c i e j f h₁ h₂ h₃ hi he hj hf =
      both_applied inp (record s { index = i; delete_count = e })
        (record c { index = j; delete_count = f }) s_live c_live (omega arith) (omega arith)
        (rw hi (
          splice_overlap str s.insert_value c.insert_value s.index s.delete_count c.index
            c.delete_count j e f h₁ h₂ h₃ c_fits hj he hf))

  -- The server's range starts and ends at or after the client's.
  pub c_overlaps_s :
      (i e j f : ℕ)
      → c.index ≤ s.index
      → s.index ≤ c.index + c.delete_count
      → c.index + c.delete_count ≤ s.index + s.delete_count
      → i ≡ c.index + length c.insert_value
      → c.index + c.delete_count + e ≡ s.index + s.delete_count
      → j ≡ c.index
      → c.index + f ≡ s.index
      → Converges apply_op
          (pair
            (record s { index = i; delete_count = e })
            (record c { index = j; delete_count = f }))
          s
          c
          str
  c_overlaps_s i e j f h₁ h₂ h₃ hi he hj hf =
      both_applied inp (record s { index = i; delete_count = e })
        (record c { index = j; delete_count = f }) s_live c_live (omega arith) (omega arith)
        (rw hj (
          sym (
            splice_overlap str c.insert_value s.insert_value c.index c.delete_count s.index
              s.delete_count i f e h₁ h₂ h₃ s_fits hi hf he)))

  -- The server's range lies in the client's.
  pub s_in_c :
      (f : ℕ)
      → c.index ≤ s.index
      → s.index + s.delete_count ≤ c.index + c.delete_count
      → f + s.delete_count ≡ c.delete_count + length s.insert_value
      → Converges apply_op
          (pair (record s { no_op = true }) (record c { delete_count = f }))
          s
          c
          str
  s_in_c f h₁ h₂ hf =
      client_applied inp (record s { no_op = true }) (record c { delete_count = f }) refl c_live
        (omega arith)
        (splice_contained str c.insert_value s.insert_value c.index c.delete_count s.index
          s.delete_count f h₁ h₂ c_fits hf)

  -- The client's range lies in the server's.
  pub c_in_s :
      (e : ℕ)
      → s.index ≤ c.index
      → c.index + c.delete_count ≤ s.index + s.delete_count
      → e + c.delete_count ≡ s.delete_count + length c.insert_value
      → Converges apply_op
          (pair (record s { delete_count = e }) (record c { no_op = true }))
          s
          c
          str
  c_in_s e h₁ h₂ he =
      server_applied inp (record s { delete_count = e }) (record c { no_op = true }) s_live refl
        (omega arith)
        (splice_contained str s.insert_value c.insert_value s.index s.delete_count c.index
          c.delete_count e h₁ h₂ s_fits he)

  -- The client's range lies in the server's, the client inserts nothing, and its operation is left
  -- to delete nothing, at an index that is still in the text.
  pub c_in_s_idle :
      (e : ℕ)
      → s.index ≤ c.index
      → c.index + c.delete_count ≤ s.index + s.delete_count
      → e + c.delete_count ≡ s.delete_count
      → length c.insert_value ≡ 0
      → c.index + s.delete_count ≤ length str + length s.insert_value
      → Converges apply_op
          (pair (record s { delete_count = e }) (record c { delete_count = 0 }))
          s
          c
          str
  c_in_s_idle e h₁ h₂ he hc hb =
      both_applied inp (record s { delete_count = e }) (record c { delete_count = 0 }) s_live c_live
        (omega arith) (omega arith)
        (idle
          ∙ sym (
              splice_contained str s.insert_value c.insert_value s.index s.delete_count c.index
                c.delete_count e h₁ h₂ s_fits (omega arith)))
    where
      idle : splice (run s str) c.index 0 c.insert_value ≡ run s str
      idle = rw (eq_nil_of_length c.insert_value hc) (splice-nothing (run s str) c.index)

  -- Two removals of one range.
  pub both_idle :
      s.index ≡ c.index
      → s.delete_count ≡ c.delete_count
      → length s.insert_value ≡ 0
      → length c.insert_value ≡ 0
      → Converges apply_op (pair (record s { no_op = true }) (record c { no_op = true })) s c str
  both_idle hi hd hs hc = (
    run s str,
    rw (apply_op-live s str s_live s_fits) (apply_op-no_op _ _ refl),
    rw (apply_op-live c str c_live c_fits, same) (apply_op-no_op _ _ refl),
  )
    where
      same : run c str ≡ run s str
      same = rw (hi, hd, eq_nil_of_length s.insert_value hs, eq_nil_of_length c.insert_value hc)
