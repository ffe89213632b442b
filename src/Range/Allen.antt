-- ===== src/Range/Allen.antt =====
-- The relations of Allen's interval algebra, as an independent reading of the thirteen
-- relationships, and of the five places of an index.
use convergence_client_javas.Base.{ℕ, ◌<◌, ◌≤◌, ◌≡◌, ◌↔◌, subst, arith}
use convergence_client_javas.Range.{
  RangeIndexRelationship, before, start, within, end, after, RangeRangeRelationship, precedes,
  preceded_by, meets, met_by, overlaps, overlapped_by, starts, started_by, contains, contained_by,
  finishes, finished_by, equal_to, get_range_index_relationship, get_range_range_relationship,
}

-- `Allen r s e c f`: the range from `s` to `e` stands in relation `r` to the one from `c` to `f`.
abbrev pub Allen : RangeRangeRelationship → ℕ → ℕ → ℕ → ℕ → Type 0
Allen precedes s e c f = e < c
Allen preceded_by s e c f = f < s
Allen meets s e c f = e ≡ c
Allen met_by s e c f = f ≡ s
Allen overlaps s e c f = (s < c) × (c < e) × (e < f)
Allen overlapped_by s e c f = (c < s) × (s < f) × (f < e)
Allen starts s e c f = (s ≡ c) × (e < f)
Allen started_by s e c f = (s ≡ c) × (f < e)
Allen contains s e c f = (s < c) × (f < e)
Allen contained_by s e c f = (c < s) × (e < f)
Allen finishes s e c f = (c < s) × (e ≡ f)
Allen finished_by s e c f = (s < c) × (e ≡ f)
Allen equal_to s e c f = (s ≡ c) × (e ≡ f)

module _ (s e c f : ℕ) (server_range : s < e) (client_range : c < f) where
  -- The relationship that the code finds holds.
  pub get_range_range_relationship-Allen : Allen (get_range_range_relationship s e c f) s e c f
  unfolding get_range_range_relationship
  get_range_range_relationship-Allen = ground arith

  get_range_range_relationship_unique :
      (r : RangeRangeRelationship) → Allen r s e c f → get_range_range_relationship s e c f ≡ r
  unfolding get_range_range_relationship
  get_range_range_relationship_unique precedes h = ground arith
  get_range_range_relationship_unique _ h = ground arith

-- For two non-empty ranges the relationship that the code finds is the one relation of Allen's
-- interval algebra in which the ranges stand.
pub get_range_range_relationship-eq_iff :
    (s e c f : ℕ)
    → s < e
    → c < f
    → (r : RangeRangeRelationship) → (get_range_range_relationship s e c f ≡ r) ↔ Allen r s e c f
get_range_range_relationship-eq_iff s e c f h k r = (
  λ eq. subst (λ q. Allen q s e c f) eq (get_range_range_relationship-Allen s e c f h k),
  get_range_range_relationship_unique s e c f h k r,
)

-- `Place r s e i`: where the index `i` lies to the range from `s` to `e`; the one index of a range
-- that starts where it ends is its start.
abbrev pub Place : RangeIndexRelationship → ℕ → ℕ → ℕ → Type 0
Place before s e i = i < s
Place start s e i = i ≡ s
Place within s e i = (s < i) × (i < e)
Place end s e i = (s < e) × (i ≡ e)
Place after s e i = e < i

-- The place that the code finds is right.
pub get_range_index_relationship-Place :
    (s e i : ℕ) → s ≤ e → Place (get_range_index_relationship s e i) s e i
unfolding get_range_index_relationship
get_range_index_relationship-Place s e i h = ground arith

get_range_index_relationship_unique :
    (s e i : ℕ)
    → s ≤ e
    → (r : RangeIndexRelationship) → Place r s e i
    → get_range_index_relationship s e i ≡ r
unfolding get_range_index_relationship
get_range_index_relationship_unique s e i h before p = ground arith
get_range_index_relationship_unique s e i h _ p = ground arith

-- For a range that does not end before it starts, the relationship that the code finds is the one of
-- the five places in which the index lies: before the start, at the start, between the two, at the
-- end and not at the start, or behind the end. So of a range of one index, that index is the start.
pub get_range_index_relationship-eq_iff :
    (s e i : ℕ)
    → s ≤ e
    → (r : RangeIndexRelationship) → (get_range_index_relationship s e i ≡ r) ↔ Place r s e i
get_range_index_relationship-eq_iff s e i h r = (
  λ eq. subst (λ q. Place q s e i) eq (get_range_index_relationship-Place s e i h),
  get_range_index_relationship_unique s e i h r,
)
