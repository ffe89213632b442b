-- ===== src/Range.antt =====
-- RangeRelationshipUtil (src/main/model/ot/util/RangeRelationshipUtil.ts): how an index lies to a
-- range, and how two ranges lie to one another.
pub mod Allen
pub mod Tests
use convergence_client_javas.Base.{ℕ, ltb, ◌==◌, if◌then◌else◌}

pub data RangeIndexRelationship : Type 0 where
  before start within end after : RangeIndexRelationship

pub data RangeRangeRelationship : Type 0 where
  precedes preceded_by meets met_by overlaps overlapped_by starts started_by contains contained_by
        finishes finished_by equal_to :
      RangeRangeRelationship

unfoldable pub get_range_index_relationship : ℕ → ℕ → ℕ → RangeIndexRelationship
get_range_index_relationship r_start r_end index =
    if ltb index r_start
    then before
    else if ltb r_end index
    then after
    else if index == r_start
    then start
    else if index == r_end
    then end
    else within

unfoldable pub get_range_range_relationship : ℕ → ℕ → ℕ → ℕ → RangeRangeRelationship
get_range_range_relationship s_start s_end c_start c_end =
    if s_start == c_start
    then (if s_end == c_end then equal_to else if ltb s_end c_end then starts else started_by)
    else if ltb c_start s_start
    then (if ltb c_end s_start
        then preceded_by
        else if c_end == s_end
        then finishes
        else if ltb s_end c_end
        then contained_by
        else if s_start == c_end
        then met_by
        else overlapped_by)
    else (if ltb s_end c_start
        then precedes
        else if c_end == s_end
        then finished_by
        else if ltb c_end s_end
        then contains
        else if s_end == c_start
        then meets
        else overlaps)
