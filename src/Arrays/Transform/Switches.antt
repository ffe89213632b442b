-- ===== src/Arrays/Transform/Switches.antt =====
-- The `switch` statements of ArrayMoveMoveOTF
-- (src/main/model/ot/xform/array/ArrayMoveMoveOTF.ts), a function for each.
--
-- Every subtraction below stands under a relationship that keeps its result at 0 or above.
use convergence_client_javas.Base.{◌+◌, ◌-◌, true}
use convergence_client_javas.Range.{
  RangeIndexRelationship, before, start, within, end, after, RangeRangeRelationship, precedes,
  preceded_by, meets, met_by, overlaps, overlapped_by, starts, started_by, contains, contained_by,
  finishes, finished_by, equal_to,
}
use convergence_client_javas.Operations.{OperationPair, pair}
use convergence_client_javas.Arrays.{ArrayMoveOperation, ArrayOperation}

abbrev pub Move : Type 0
Move = ArrayMoveOperation

abbrev pub Moves : Type 0
Moves = OperationPair ArrayMoveOperation

abbrev pub Pairs : Type 0 → Type 0
Pairs V = OperationPair (ArrayOperation V)

-- transformServerForwardMoveWithClientForwardMove.
unfoldable pub forward_forward : RangeRangeRelationship → Move → Move → Moves
forward_forward precedes s c = pair s c
forward_forward preceded_by s c = pair s c
forward_forward meets s c =
    pair (record s { to_index = s.to_index - 1 }) (record c { from_index = c.from_index - 1 })
forward_forward met_by s c =
    pair (record s { from_index = s.from_index - 1 }) (record c { to_index = c.to_index - 1 })
forward_forward overlaps s c =
    pair (record s { to_index = s.to_index - 1 }) (record c { from_index = c.from_index - 1 })
forward_forward overlapped_by s c =
    pair (record s { from_index = s.from_index - 1 }) (record c { to_index = c.to_index - 1 })
forward_forward starts s c = pair (record s { from_index = c.to_index }) (record c { no_op = true })
forward_forward started_by s c =
    pair (record s { from_index = c.to_index }) (record c { no_op = true })
forward_forward contains s c =
    pair s (record c { from_index = c.from_index - 1; to_index = c.to_index - 1 })
forward_forward contained_by s c =
    pair (record s { from_index = s.from_index - 1; to_index = s.to_index - 1 }) c
forward_forward finishes s c =
    pair (record s { from_index = s.from_index - 1 }) (record c { to_index = c.to_index - 1 })
forward_forward finished_by s c =
    pair s (record c { from_index = c.from_index - 1; to_index = c.to_index - 1 })
forward_forward equal_to s c = pair (record s { no_op = true }) (record c { no_op = true })

-- transformServerForwardMoveWithClientBackwardMove.
unfoldable pub forward_backward : RangeRangeRelationship → Move → Move → Moves
forward_backward precedes s c = pair s c
forward_backward preceded_by s c = pair s c
forward_backward meets s c =
    pair (record s { to_index = s.to_index + 1 }) (record c { to_index = c.to_index - 1 })
forward_backward met_by s c =
    pair (record s { from_index = c.to_index }) (record c { no_op = true })
forward_backward overlaps s c =
    pair (record s { to_index = s.to_index + 1 }) (record c { to_index = c.to_index - 1 })
forward_backward overlapped_by s c =
    pair (record s { from_index = s.from_index + 1 }) (record c { from_index = c.from_index - 1 })
forward_backward starts s c =
    pair (record s { from_index = s.from_index + 1; to_index = s.to_index + 1 }) c
forward_backward started_by s c =
    pair (record s { from_index = s.from_index + 1 }) (record c { from_index = c.from_index - 1 })
forward_backward contains s c =
    pair s (record c { from_index = c.from_index - 1; to_index = c.to_index - 1 })
forward_backward contained_by s c =
    pair (record s { from_index = s.from_index + 1; to_index = s.to_index + 1 }) c
forward_backward finishes s c =
    pair (record s { from_index = s.from_index + 1 }) (record c { from_index = c.from_index - 1 })
forward_backward finished_by s c =
    pair s (record c { from_index = c.from_index - 1; to_index = c.to_index - 1 })
forward_backward equal_to s c =
    pair (record s { from_index = s.from_index + 1 }) (record c { from_index = c.from_index - 1 })

-- transformServerBackwardMoveWithClientForwardMove.
unfoldable pub backward_forward : RangeRangeRelationship → Move → Move → Moves
backward_forward precedes s c = pair s c
backward_forward preceded_by s c = pair s c
backward_forward meets s c = pair (record s { from_index = c.to_index }) (record c { no_op = true })
backward_forward met_by s c =
    pair (record s { to_index = s.to_index - 1 }) (record c { to_index = c.to_index + 1 })
backward_forward overlaps s c =
    pair (record s { from_index = s.from_index - 1 }) (record c { from_index = c.from_index + 1 })
backward_forward overlapped_by s c =
    pair (record s { to_index = s.to_index - 1 }) (record c { to_index = c.to_index + 1 })
backward_forward starts s c =
    pair (record s { from_index = s.from_index - 1 }) (record c { from_index = c.from_index + 1 })
backward_forward started_by s c =
    pair s (record c { from_index = c.from_index + 1; to_index = c.to_index + 1 })
backward_forward contains s c =
    pair s (record c { from_index = c.from_index + 1; to_index = c.to_index + 1 })
backward_forward contained_by s c =
    pair (record s { from_index = s.from_index - 1; to_index = s.to_index - 1 }) c
backward_forward finishes s c =
    pair (record s { from_index = s.from_index - 1; to_index = s.to_index - 1 }) c
backward_forward finished_by s c =
    pair (record s { from_index = s.from_index - 1 }) (record c { from_index = c.from_index + 1 })
backward_forward equal_to s c =
    pair (record s { from_index = s.from_index - 1 }) (record c { from_index = c.from_index + 1 })

-- transformServerBackwardMoveWithClientBackwardMove.
unfoldable pub backward_backward : RangeRangeRelationship → Move → Move → Moves
backward_backward precedes s c = pair s c
backward_backward preceded_by s c = pair s c
backward_backward meets s c =
    pair (record s { from_index = s.from_index + 1 }) (record c { to_index = c.to_index + 1 })
backward_backward met_by s c =
    pair (record s { to_index = s.to_index + 1 }) (record c { from_index = c.from_index + 1 })
backward_backward overlaps s c =
    pair (record s { from_index = s.from_index + 1 }) (record c { to_index = c.to_index + 1 })
backward_backward overlapped_by s c =
    pair (record s { to_index = s.to_index + 1 }) (record c { from_index = c.from_index + 1 })
backward_backward starts s c =
    pair (record s { from_index = s.from_index + 1; to_index = s.to_index + 1 }) c
backward_backward started_by s c =
    pair s (record c { from_index = c.from_index + 1; to_index = c.to_index + 1 })
backward_backward contains s c =
    pair s (record c { from_index = c.from_index + 1; to_index = c.to_index + 1 })
backward_backward contained_by s c =
    pair (record s { from_index = s.from_index + 1; to_index = s.to_index + 1 }) c
backward_backward finishes s c =
    pair (record s { from_index = c.to_index }) (record c { no_op = true })
backward_backward finished_by s c =
    pair (record s { from_index = c.to_index }) (record c { no_op = true })
backward_backward equal_to s c = pair (record s { no_op = true }) (record c { no_op = true })

-- transformServerForwardMoveWithClientIdentityMove.
unfoldable pub forward_identity : RangeIndexRelationship → Move → Move → Moves
forward_identity before s c = pair s c
forward_identity after s c = pair s c
forward_identity start s c = pair s (record c { from_index = s.to_index; to_index = s.to_index })
forward_identity within s c =
    pair s (record c { from_index = c.from_index - 1; to_index = c.to_index - 1 })
forward_identity end s c =
    pair s (record c { from_index = c.from_index - 1; to_index = c.to_index - 1 })

-- transformServerBackwardMoveWithClientIdentityMove.
unfoldable pub backward_identity : RangeIndexRelationship → Move → Move → Moves
backward_identity before s c = pair s c
backward_identity after s c = pair s c
backward_identity start s c =
    pair s (record c { from_index = c.from_index + 1; to_index = c.to_index + 1 })
backward_identity within s c =
    pair s (record c { from_index = c.from_index + 1; to_index = c.to_index + 1 })
backward_identity end s c = pair s (record c { from_index = s.to_index; to_index = s.to_index })

-- transformServerIdentityMoveWithClientForwardMove.
unfoldable pub identity_forward : RangeIndexRelationship → Move → Move → Moves
identity_forward before s c = pair s c
identity_forward after s c = pair s c
identity_forward start s c = pair (record s { from_index = c.to_index; to_index = c.to_index }) c
identity_forward within s c =
    pair (record s { from_index = s.from_index - 1; to_index = s.to_index - 1 }) c
identity_forward end s c =
    pair (record s { from_index = s.from_index - 1; to_index = s.to_index - 1 }) c

-- transformServerIdentityMoveWithClientBackwardMove.
unfoldable pub identity_backward : RangeIndexRelationship → Move → Move → Moves
identity_backward before s c = pair s c
identity_backward after s c = pair s c
identity_backward start s c =
    pair (record s { from_index = s.from_index + 1; to_index = s.to_index + 1 }) c
identity_backward within s c =
    pair (record s { from_index = s.from_index + 1; to_index = s.to_index + 1 }) c
identity_backward end s c = pair (record s { from_index = c.to_index; to_index = c.to_index }) c
