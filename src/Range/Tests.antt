-- ===== src/Range/Tests.antt =====
-- The relationships of ranges at concrete ranges.
use convergence_client_javas.Base.{◌≡◌, ◌↔◌, arith}
use convergence_client_javas.Range.{
  overlaps, start, get_range_index_relationship, get_range_range_relationship,
}
use convergence_client_javas.Range.Allen.{
  Allen, Place, get_range_range_relationship-eq_iff, get_range_index_relationship-eq_iff,
}

get_range_range_relationship-eq_iff_example :
    (get_range_range_relationship 1 4 2 6 ≡ overlaps) ↔ Allen overlaps 1 4 2 6
get_range_range_relationship-eq_iff_example =
    get_range_range_relationship-eq_iff 1 4 2 6 (omega arith) (omega arith) overlaps

get_range_index_relationship-eq_iff_example :
    (get_range_index_relationship 2 2 2 ≡ start) ↔ Place start 2 2 2
get_range_index_relationship-eq_iff_example =
    get_range_index_relationship-eq_iff 2 2 2 (omega arith) start
