-- ===== src/Lib.antt =====
-- ToFTDS: a replicated key-value store on a Raft-like consensus node (hw2), and an integral that a
-- leader has computed by workers (hw1).
--
-- Parts, and the files that model them:
--   Timeout: hw2/src/common/timeout.h, the interface of the election timer and the timer itself.
--   Consensus/State, Consensus/Message: hw2/src/consensus/state.h, common.h, message.h.
--   Consensus/Node: hw2/src/consensus/node.h, node_sender.h and the constructor, accessors and
--     queues of node.cpp. Its children are the rest of node.cpp: Roles (BecomeFollower,
--     BecomeCandidate, BecomeLeader and what they send), Requests (HandleAppendEntriesRequest,
--     HandleRequestVoteRequest), Responses (the handlers of the answers), Commit (CommitIfPossible,
--     AddNewCommandsToLog, HandleGetPersistentCommandRequests) and Ticks (HandleIncomingMessages,
--     Tick and the ticks of the roles).
--   KvStore: hw2/src/common/storage.h and the class KeyValueStoreImpl of hw2/src/worker/worker.cpp.
--   Communication: hw2/src/worker/communication.proto and the classes CommunicationImpl and
--     OtherNodesMessageSender of worker.cpp, the way of a message from node to node.
--   Cluster: several such processes, with the messages on the way between their nodes, as steps.
--     Cluster/Ballots says which votes a node's state and messages stand for, and Cluster/Elections
--     follows them over the steps, with a run in which the leader is asked for its vote in
--     Cluster/Elections/Conflict; Cluster/Logs and Cluster/LogMatching do so for the logs, by a book
--     of the log of each term.
--   Startup: main of worker.cpp, from the ports to the node; Startup/Console is the rest of it, the
--     ports of the two servers, DumpState and the loop over the commands.
--   Client: hw2/src/client/cli.cpp, from the flags to the call.
--   Integral: the leader of hw1/src/leader/leader.cpp, leader.h and hw1/src/common/task.h. Its
--     children are Workers (RunOverWorkers up to poll), Serving (from poll on), Evaluation
--     (hw1/src/common/integral.cpp), Worker (hw1/src/worker/worker.cpp and worker.h, with
--     hw1/src/socket/socket.cpp) and Launch (leader_launch.cpp and worker_launch.cpp); Exchange and
--     Discovery are on leader and worker together.
--   Base: what these share: Boolean tests, lists, ordered maps and sets, calls that may fault.
-- The other files below the parts hold the proofs, each on what its name says.
--
-- A node is a record, and a handler returns it changed. What the node does to the outside is kept
-- in it: the messages handed to other nodes' channels, and the promises that were set. The node's
-- own channel adds the message to the node, as TrivialMessageSender does. A promise is a number. A
-- call that may fault returns an Outcome: out_of_range is the exception of std::map::at, bad_access
-- an unchecked read that is undefined behaviour in the source. Strings are lists of bytes.
--
-- The leader and the worker of hw1 are records too, with the descriptors that they have closed and
-- the texts that they have sent. What socket, connect, poll, accept, recv and send give is an
-- argument, as are the arithmetic of double (the record Double) and what the streams read and write
-- (the fields of Network and Streams). A list of results that ends stands for a call that does not
-- return yet.
--
-- Terms and indices are 64-bit; the wrap-around is written out where a value from outside can reach
-- it (the term of a new candidate, next_index, the range of a query, the tick number). Sizes of
-- vectors are taken not to wrap. Every loop runs over a list or a number of rounds that the source
-- fixes beforehand, but for two on fuel. For the loop of main over the ports, more rounds than
-- there are nodes are enough, unless max_port is the largest uint16_t; for the loop of
-- EvaluateIntegral, more rounds than points, where the sums of the steps are exact.
--
-- Not modelled: threads within a tick (what other threads add under the locks during a tick stands
-- before or after it) or within a step of the leader of hw1, log lines, gRPC itself (that a server
-- listens, and what its shutdown waits for), the pauses between rounds, and the leader's broadcast,
-- which changes none of its state. In the loops of the two main functions, the list of what was
-- read ends where nothing more has come yet, so the loop then waits; the end of the input is left
-- out.
mod Base
pub mod Timeout
pub mod Consensus
pub mod KvStore
pub mod Communication
pub mod Client
pub mod Cluster
pub mod Startup
pub mod Integral
