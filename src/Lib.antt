-- ===== src/Lib.antt =====
-- RustRaft (the crate `rustraft`): quorum rules, replica logs, replication pipelines, snapshot
-- transfer, read decisions, write-ahead logs, the cluster engine, the executor of membership
-- changes and the worker of a node, all of src/lib.rs.
--
-- The program's parts. A `RaftCluster` holds the nodes of one group in one process (`RaftNode`: the
-- log, the snapshot and the indexes of a replica) and for each of them a `RaftReplicationPipeline`
-- (what the leader keeps for a peer: an append queue, appends in flight, a queue of entries that
-- came early, the state of a snapshot transfer). The methods of the cluster check their arguments,
-- change nodes and pipelines, and recompute the cluster's commit, applied and last index from the
-- nodes. `RustRaftMembership` and `RustRaftJointMembership` are the rules of members and quorums;
-- `RaftSnapshotLifecycle` sends a snapshot in chunks and installs one; fences and read decisions are
-- functions of the numbers that they are given; `RaftFsmAdapter` applies entries to a state machine,
-- each of them once. `LocalRaftWal` and `PersistentRaftWal` keep records of a node's state in
-- segments, in memory and in files; `RaftMembershipExecutor` checks changes of a cluster's members,
-- makes them and takes them back. The worker of a `RaftNodeRuntime` holds one cluster and one
-- `PersistentRaftWal`, answers commands one after another, and campaigns when its timer runs out.
--
-- The files.
--   Base        conditionals and Boolean tests (Conditions), u64 arithmetic (U64), lists (Lists),
--               std's BTreeMap (BTreeMap): the helpers that the components share.
--   Types       roles, log ids, entries, snapshots, RustRaftError, and Result.
--   Membership  RustRaftMembership, RustRaftJointMembership, remove_node; theorems in Quorum and
--               Members.
--   Node        RaftNode; theorems in Log and Indexes.
--   Snapshot    RaftSnapshotInstallState and the cutting into chunks; RoundTrip; Lifecycle is
--               RaftSnapshotLifecycle, with Sending and Receiving.
--   Pipeline    RaftReplicationPipeline: State, Reorder, Append, Transfer; theorems in Progress,
--               Append/Backpressure and Append/Responses.
--   Config      RustRaftConfig and RaftConfigError.
--   Fences      the rustraft_validate_ functions of fences, snapshots and tails.
--   Reads       the report and decision functions of reads.
--   Cluster     RaftCluster: State (the refresh methods), Election, Replicate, Reads, Members,
--               Install, Chunks, Restore (WAL records), Status, Peers (calls passed on to a pipeline);
--               theorems in Commit, Terms, Proposals, Appends, Changes, Chunks, Restore and Reads.
--   Fsm         RaftFsmAdapter over any state machine; Replay.
--   Wal         Record (RustRaftWalRecord and its checksum), Recovery (the record to recover),
--               Segments; Local is LocalRaftWal, with theorems in Chain, Append, Recover and
--               Refinement; Persistent is PersistentRaftWal: Disk (the files of a directory), Lines
--               and Files (what a file holds), Log and Maintain (its methods), with theorems in
--               Scan, Layout, Roll, Append, Filed, Reopen, Torn, Crash and Compact.
--   Executor    RaftMembershipExecutor; theorems in Rollback and Checks.
--   Runtime     the worker of RaftNodeRuntime: its commands and intervals; Startup (the cluster and
--               the log opened); theorems in Timer and Durable.
-- A method keeps its name; where one is cut into parts, the parts stand before it. A struct keeps
-- its name less the prefix RustRaft or Raft, and the function and the type stand with the file above.
-- The modules named Tests run definitions on concrete inputs.
--
-- How the code is read. A method on `&mut self` that may fail is a function to the object after it
-- and the result (`Outcome`), so an error that leaves a change behind shows it; a method that
-- changes nothing on an error returns a Result. u64 and usize are natural numbers: `+` is `add_u64`,
-- which wraps as in a release build, and the saturating operations are written out. A Vec and a
-- VecDeque are lists; no Vec is longer than isize::MAX bytes, and theorems that need it say so. A
-- BTreeMap is a list of keys and values in the order of the keys, with std's insert, remove and
-- get. An error's text is the literal, or the template of `format!` with its arguments.
--
-- Files. A WAL directory is a map from segment ids to bytes, and every call of std::fs takes its
-- outcome from a list: it succeeds, or it fails, a write after some of its bytes. serde_json is the
-- parameter `Codec`; the theorems ask of the records at hand that their text reads back, has no
-- newline, and does not read when it is cut short (`IsEncoded`). Other files of the directory, whose
-- names are not those of segments, are not in the map.
--
-- Loops on fuel. `chunks_from` (checkpoint) has one more than the payload's length and every round
-- but the last moves the offset on; `flush_loop` has one more than the queue's length and every
-- round but the last takes an entry off the queue; `drain_loop` has the queue's length and every
-- round takes an entry out.
--
-- Not modelled. Of the runtime: the Status command, and RaftNodeRuntime, the side of the caller
-- with its thread and channels. Of `RaftCluster`: checkpoint_snapshot (serde_json), and the reports
-- made from `status` and from the pipelines. Of the crate: the file store of snapshots, the
-- transports, the tables of parity and readiness, src/benchmark.rs and src/fault.rs. Of the logs:
-- the description of the checksum in their reports, and corrupt_tail_for_test. Fields of the
-- pipeline status that no method of the pipeline touches are left out.
pub mod Base
pub mod Types
pub mod Membership
pub mod Node
pub mod Snapshot
pub mod Pipeline
pub mod Config
pub mod Fences
pub mod Reads
pub mod Fsm
pub mod Executor
pub mod Wal
pub mod Cluster
pub mod Runtime
