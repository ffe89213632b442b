-- ===== src/References/Indices.antt =====
-- Where an index refers to after an edit (src/main/model/ot/xform/reference/IndexTransformer.ts).
use convergence_client_javas.Base.{
  ℕ, ◌+◌, ◌-◌, ◌≤◌, ◌<◌, ◌≡◌, ◌⊎◌, refl, ap, ◌∙◌, inl, inr, List, [], ◌∷◌, length, get_elem?, map,
  Option, splice, arith, leb-cases, ltb-cases, length-splice, get_elem?-splice_before,
  get_elem?-splice_after,
}
use convergence_client_javas.References.{
  IndexRange, splice_index, insert_index, remove_index, handle_insert, handle_remove, move_ends,
  handle_insert_ranges, handle_remove_ranges,
}

-- An index behind the range of a splice.
splice_index-behind : (i d n k : ℕ) → i + d ≤ k → splice_index i d n k ≡ k - d + n
unfolding splice_index
splice_index-behind i d n k h = ground arith

-- An index in front of a splice, or within its range, is put behind what was inserted.
pub splice_index-within : (i d n k : ℕ) → k ≤ i + d → splice_index i d n k ≡ i + n
unfolding splice_index
splice_index-within i d n k h = ground arith

-- The order of two indices stays.
pub splice_index-order : (i d n j k : ℕ) → j ≤ k → splice_index i d n j ≤ splice_index i d n k
unfolding splice_index
splice_index-order i d n j k h = ground arith

-- An index in front of a splice does not stay where it is.
pub splice_index-before_moves : (i d n k : ℕ) → k < i → k < splice_index i d n k
unfolding splice_index
splice_index-before_moves i d n k h = ground arith

module _ (str : List ℕ) (i d : ℕ) (ins : List ℕ) (h : i + d ≤ length str) where
  -- An index within the text stays within it.
  pub splice_index-within_text :
      (k : ℕ) → k ≤ length str → splice_index i d (length ins) k ≤ length (splice str i d ins)
  unfolding splice_index
  splice_index-within_text k hk =
      let size = length-splice str i d ins h in
      elim (leb-cases i k) [ inl e ↦ rw e.0 (omega arith) | inr e ↦ rw e.0 (omega arith) ]

  -- An index behind what a splice deletes refers to the character that it referred to.
  pub splice_index-follows :
      (k : ℕ)
      → i + d ≤ k
      → get_elem? (splice str i d ins) (splice_index i d (length ins) k) ≡ get_elem? str k
  splice_index-follows k hk =
      ap (get_elem? (splice str i d ins)) (splice_index-behind i d (length ins) k hk)
      ∙ (get_elem?-splice_after str i d ins (omega arith) (k - d + length ins) (omega arith)
          ∙ ap (get_elem? str) (omega arith))

-- After an insertion every index refers to the character that it referred to.
pub insert_index-follows :
    (str : List ℕ) (i : ℕ) (ins : List ℕ) (k : ℕ)
    → i ≤ length str
    → get_elem? (splice str i 0 ins) (insert_index i (length ins) k) ≡ get_elem? str k
unfolding insert_index
insert_index-follows str i ins k h = elim (leb-cases i k) [
  | inl e ↦ rw e.0 (
      get_elem?-splice_after str i 0 ins h (k + length ins) (omega arith)
      ∙ ap (get_elem? str) (omega arith))
  | inr e ↦ rw e.0 (get_elem?-splice_before str i 0 ins h k (omega arith))
]

-- After a removal every index that is not within the removed range refers to the character that it
-- referred to.
pub remove_index-follows :
    (str : List ℕ) (i d k : ℕ)
    → i + d ≤ length str
    → (k < i) ⊎ (i + d ≤ k)
    → get_elem? (splice str i d []) (remove_index i d k) ≡ get_elem? str k
unfolding remove_index
remove_index-follows str i d k h (inl b) = elim (ltb-cases i k) [
  | inl e ↦ absurd (omega arith)
  | inr e ↦ rw e.0 (get_elem?-splice_before str i d [] (omega arith) k b)
]
remove_index-follows str i d k h (inr b) = elim (ltb-cases i k) [
  | inl e ↦ rw e.0 (
      ap (get_elem? (splice str i d [])) (omega arith)
      ∙ (get_elem?-splice_after str i d [] (omega arith) (k - d) (omega arith)
          ∙ ap (get_elem? str) (omega arith)))
  | inr e ↦ rw e.0 (
      get_elem?-splice_after str i d [] (omega arith) k (omega arith)
      ∙ ap (get_elem? str) (omega arith))
]

remove_index-insert_index : (i n k : ℕ) → remove_index i n (insert_index i n k) ≡ k
unfolding remove_index insert_index
remove_index-insert_index i n k = ground arith

-- The removal of what was inserted moves indices back to where they were.
pub handle_remove-handle_insert :
    (indices : List ℕ) (i n : ℕ) → handle_remove (handle_insert indices i n) i n ≡ indices
unfolding handle_remove handle_insert
handle_remove-handle_insert [] i n = refl
handle_remove-handle_insert (k ∷ ks) i n =
    λ j. remove_index-insert_index i n k j ∷ handle_remove-handle_insert ks i n j

handle_remove_ranges-handle_insert_ranges :
    (ranges : List IndexRange) (i n : ℕ)
    → handle_remove_ranges (handle_insert_ranges ranges i n) i n ≡ ranges
unfolding handle_remove_ranges handle_insert_ranges move_ends
handle_remove_ranges-handle_insert_ranges [] i n = refl
handle_remove_ranges-handle_insert_ranges (r ∷ rs) i n = λ j.
    record {
      start = remove_index-insert_index i n r.start j;
      end = remove_index-insert_index i n r.end j;
    }
    ∷ handle_remove_ranges-handle_insert_ranges rs i n j

-- The characters that the ends of a range refer to.
abbrev pub ends_of : List ℕ → IndexRange → Option ℕ × Option ℕ
ends_of str r = (get_elem? str r.start, get_elem? str r.end)

handle_insert_ranges-follows :
    (ranges : List IndexRange) (str : List ℕ) (i : ℕ) (ins : List ℕ)
    → i ≤ length str
    → map (ends_of (splice str i 0 ins)) (handle_insert_ranges ranges i (length ins))
      ≡ map (ends_of str) ranges
unfolding handle_insert_ranges move_ends
handle_insert_ranges-follows [] str i ins h = refl
handle_insert_ranges-follows (r ∷ rs) str i ins h = λ j.
    (insert_index-follows str i ins r.start h j, insert_index-follows str i ins r.end h j)
    ∷ handle_insert_ranges-follows rs str i ins h j

-- After an insertion into a text both ends of every range refer to the characters that they referred
-- to, and the removal of what was inserted moves the ranges back to where they were.
pub handle_insert_ranges-follows_and_returns :
    (ranges : List IndexRange) (str : List ℕ) (i : ℕ) (ins : List ℕ)
    → i ≤ length str
    → (map (ends_of (splice str i 0 ins)) (handle_insert_ranges ranges i (length ins))
        ≡ map (ends_of str) ranges)
      × (handle_remove_ranges (handle_insert_ranges ranges i (length ins)) i (length ins) ≡ ranges)
handle_insert_ranges-follows_and_returns ranges str i ins h = (
  handle_insert_ranges-follows ranges str i ins h,
  handle_remove_ranges-handle_insert_ranges ranges i (length ins),
)
