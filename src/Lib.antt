-- ===== src/Lib.antt =====
-- Convergence JavaScript Client: the operational transformation that keeps the copies of a shared
-- model equal while several users edit it.
--
-- A user's edit becomes an operation, which the client applies at once and sends to the server. An
-- operation of the server that the client did not know is transformed against the client's own
-- operations before it is applied. A transformation function takes the server's operation and the
-- client's, both made on one state, and gives the pair with which the other site goes on.
--
-- Parts and files (paths from the root of the repository):
--   Range: RangeRelationshipUtil (src/main/model/ot/util/RangeRelationshipUtil.ts). Range/Allen reads
--   the relationships as relations between numbers.
--   Operations: OperationPair (src/main/model/ot/xform/OperationPair.ts), and the condition that the
--   two sites of a pair end in one state (Converges).
--   Strings: the string operations (src/main/model/ot/ops) and StringNode
--   (src/main/model/internal/StringNode.ts). Strings/Switches and Strings/Transform are the functions
--   of src/main/model/ot/xform/string, with the `switch` statements as functions of the relationship;
--   Strings/Apply, Strings/Convergence and Strings/Faults are about them. A text is a list of UTF-16
--   code units.
--   Arrays: the array operations and ArrayNode (src/main/model/internal/ArrayNode.ts). Arrays/Move is
--   ArrayMoveHelper; Arrays/Transform holds the functions of src/main/model/ot/xform/array;
--   Arrays/Positions says where each entry of an array goes; Arrays/Convergence is about the
--   functions.
--   Transformer: OperationTransformer (src/main/model/ot/xform/OperationTransformer.ts), over any
--   registry of functions. Transformer/Meets and Transformer/Discrete are about it.
--   Concurrency: ClientConcurrencyControl (src/main/model/ot/ClientConcurrencyControl.ts), which holds
--   the operations in flight, those of a batch and those of the server that the user has yet to see.
--   Concurrency/Process holds the methods that transform. Concurrency/Meeting, Consistent, Queues and
--   Batches say what each method keeps, Concurrency/Protocol puts them together: a session is any
--   sequence of calls (the relation Session).
--   Nodes: the nodes of a model by their ids (src/main/model/internal/Model.ts), over any kind of
--   nodes. Nodes/Pairs states what the functions for a kind have to do at one node, Nodes/Meets is
--   about any number of nodes, Nodes/Sums puts two kinds of nodes into one model.
--   Arrays/Model: models of arrays, an instance of Nodes; Concurrency/ArraySessions joins it with the
--   control.
--   Objects: the object operations, ObjectNode (src/main/model/internal/ObjectNode.ts) and the functions
--   of src/main/model/ot/xform/object; Objects/Convergence is about the functions, Objects/Local holds
--   the calls of a user with the operations that are sent (src/main/model/rt/RealTimeObject.ts).
--   Values: numbers, booleans and dates with their nodes and functions.
--   Strings/Plain: strings on which users insert, remove and set, as a kind of nodes.
--   Models: models with nodes of every type, and Models/Sessions the control on such a model.
--   References: indices and ranges into a string, ReferenceTransformer
--   (src/main/model/ot/xform/ReferenceTransformer.ts) with the functions of
--   src/main/model/ot/xform/reference, and the calls of it by the control. References/Remote is the part
--   of RealTimeModel._handleRemoteReferenceEvent that calls it.
--   DataValues: the values of a model with the ids of their nodes, DataValueFactory
--   (src/main/model/DataValueFactory.ts), which makes them, and what is sent of them
--   (src/main/model/ModelMessageConverter.ts).
--   Messages: operations as messages to the server and back (src/main/model/OperationMapper.ts).
--   Offline: operations as they are kept offline (src/main/storage/OfflineOperationMapper.ts).
--   Identity: user ids and their texts (src/main/identity/DomainUserId.ts).
--   Protocol: timestamps and JSON values (src/main/connection/ProtocolUtil.ts).
--   Heartbeat: HeartbeatHelper (src/main/connection/HeartbeatHelper.ts) as a state machine; the calls
--   and the firing of its timers come in any order.
--   Paths: PathComparator (src/main/model/ot/util/PathComparator.ts).
--   Base: names of the library, lists over the native numbers, Boolean tests, calls that may throw,
--   and `splice`, the edit of a list on which strings and arrays stand.
--
-- An index is a natural number. Where the source subtracts, the model subtracts on the naturals, which
-- stops at 0; in the branches that the theorems speak of the difference is never negative. An
-- exception is a value (Base/Results).
--
-- A value in an array or an object is of a type that the model takes as a parameter, with the
-- comparisons EqualsUtil.deepEquals and === and the law that values they call equal are equal. That
-- law fails of two dates of one second, which deepEquals calls equal; it holds of values that carry
-- the ids of their nodes, as those of containers do. The numbers of number nodes are a parameter
-- too; a theorem that needs additions to be done in either order says so, which integers up to 2 ^
-- 53 allow and fractions do not, since floating-point addition rounds. A date is its time, an
-- integer (Base/Integers), before 1970 as well.
--
-- The loops of the transformer and of the control run over a list, so no fuel is needed. What the
-- control asks of the registry is a record (Transforms): two discrete operations that can be applied
-- to one state are transformed, and the sites meet. The functions for every type satisfy it on models
-- with nodes of every type, with two bounds: a string is edited by insertions, removals and sets, since
-- the functions for strings do not meet for every pair of replacements (Strings/Faults); and a property
-- of an object is added only when it is absent, and set or removed only when it is present, as
-- RealTimeObject issues these operations. A site that is given another operation refuses it in the
-- model (not_allowed), and so an operation for a node that is not there (no_node), except on models of
-- arrays alone, where it is left out as in the source. The children that a value brings are part of the
-- value, not nodes of their own.
--
-- Not modelled: the creation of nodes for the values of containers, with their ids and paths; the
-- events of nodes; the other messages to the server and the databases of the browser; chats,
-- presence and activities, which are messages and events; the real-time elements beyond what is
-- named above.
pub mod Base
pub mod Operations
pub mod Range
pub mod Strings
pub mod Arrays
pub mod Paths
pub mod Transformer
pub mod Concurrency
pub mod Nodes
pub mod Objects
pub mod Values
pub mod Models
pub mod References
pub mod Offline
pub mod Identity
pub mod Protocol
pub mod DataValues
pub mod Messages
pub mod Heartbeat
