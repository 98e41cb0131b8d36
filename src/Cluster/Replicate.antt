-- ===== src/Cluster/Replicate.antt =====
-- Proposals and append requests of RaftCluster (src/lib.rs).
use rust_raft.Types.{
  LogEntry, LogId, Outcome, Result, can_serve_data, err, invalid_request, literal, no_leader,
  node_not_found, not_leader, ok, ok_or, reject_if, ◌>>=◌, ◌>>◌,
}
use rust_raft.Base.BTreeMap.{get, insert}
use rust_raft.Base.{
  Bool, List, Option, [], add_u64, false, if◌then◌else◌, length, ltb, max, none, not, some, ℕ, ◌&&◌,
  ◌==◌, ◌∷◌,
}
use rust_raft.Node.{
  RaftNode, advance_commit, append_entries, append_entry, match_index, resting_role,
}
use rust_raft.Pipeline.State.{AppendEntriesResponse, ReplicationPipeline}
use rust_raft.Pipeline.Append.{flush_append_batch, queue_append}
use rust_raft.Cluster.State.{
  Cluster, accepted_up_to, node_ids, refresh_cluster_indexes, refresh_commit_index, respond_to,
}

-- What the leader does for one peer that serves data: the peer's pipeline takes the entry, the
-- peer appends it if it is healthy, and its answer comes back.
unfoldable pub replicate_to :
    Cluster
    → LogEntry
    → RaftNode
    → ℕ
    → Outcome ReplicationPipeline (Unit {0})
    → Outcome Cluster (Unit {0})
unfolding flush_append_batch append_entry match_index respond_to insert
replicate_to c entry node id (p, err e) =
    (record c { peer_pipelines = insert id p c.peer_pipelines }, err e)
replicate_to c entry node id (p, ok _) =
    let flushed = (flush_append_batch p 64 (max c.config.max_payload_bytes 1)).0 in
    let node' = append_entry node entry in
    let answer = accepted_up_to node'.hard_state.current_term (match_index node') in
    if node.healthy
    then (
      record c {
        nodes = insert id node' c.nodes;
        peer_pipelines = insert id (respond_to answer flushed) c.peer_pipelines;
      },
      ok tt,
    )
    else (record c { peer_pipelines = insert id flushed c.peer_pipelines }, ok tt)

-- One round of the loop over the node ids.
unfoldable pub propose_to : Cluster → ℕ → LogEntry → ℕ → Outcome Cluster (Unit {0})
unfolding replicate_to get insert can_serve_data append_entry queue_append
propose_to c leader entry id = elim (get id c.nodes) [
  | none ↦ (c, ok tt)
  | some node ↦
      if id == leader
      then (record c { nodes = insert id (append_entry node entry) c.nodes }, ok tt)
      else if not (can_serve_data node.replica_role)
      then (c, ok tt)
      else elim (get id c.peer_pipelines) [
        | none ↦ (c, ok tt)
        | some p ↦ replicate_to c entry node id (queue_append p entry)
      ]
]

-- A queue that refuses the entry ends the loop, and leaves what was done before.
unfoldable pub propose_loop : Cluster → ℕ → LogEntry → List ℕ → Outcome Cluster (Unit {0})
propose_loop c leader entry [] = (c, ok tt)
propose_loop c leader entry (id ∷ ids) = elim (propose_to c leader entry id).1 [
  | ok _ ↦ propose_loop (propose_to c leader entry id).0 leader entry ids
  | err e ↦ ((propose_to c leader entry id).0, err e)
]

unfoldable pub propose_checks : Cluster → List ℕ → Result ℕ
unfolding get
propose_checks c payload = do
  leader ← ok_or no_leader c.leader_id
  reject_if (not c.is_running) (invalid_request (literal "cannot propose while cluster is stopped"))
  reject_if (ltb c.config.max_payload_bytes (length payload))
      (invalid_request (literal "payload exceeds max_payload_bytes"))
  node ← ok_or (node_not_found leader) (get leader c.nodes)
  reject_if (not node.healthy) (not_leader leader)
  ok leader

-- The id of the next entry.
abbrev pub next_log_id : Cluster → LogId
next_log_id c = record { term = c.current_term; index = add_u64 c.last_log_index 1 }

unfoldable pub finish_propose : LogId → Outcome Cluster (Unit {0}) → Outcome Cluster LogId
unfolding refresh_commit_index
finish_propose log_id (c, err e) = (c, err e)
finish_propose log_id (c, ok _) = (refresh_commit_index c, ok log_id)

unfoldable pub start_propose : Cluster → List ℕ → Result ℕ → Outcome Cluster LogId
unfolding propose_loop finish_propose node_ids
start_propose c payload (err e) = (c, err e)
start_propose c payload (ok leader) =
    let log_id = next_log_id c in
    let c' : Cluster = record c { last_log_index = log_id.index } in
    finish_propose log_id
      (propose_loop c' leader (record { log_id = log_id; payload = payload }) (node_ids c'))

unfoldable pub propose : Cluster → List ℕ → Outcome Cluster LogId
unfolding propose_checks start_propose
propose c payload = start_propose c payload (propose_checks c payload)

pub record AppendEntriesRequest : Type 0 where
  pub group_id : ℕ
  pub term : ℕ
  pub leader_id : ℕ
  pub prev_log_id : Option LogId
  pub entries : List LogEntry
  pub leader_commit : ℕ

unfoldable pub rejection : RaftNode → AppendEntriesResponse
unfolding match_index
rejection node = record {
  term = node.hard_state.current_term;
  success = false;
  match_index = match_index node;
  rejection_hint = some (match_index node);
}

-- A previous log id that the node does not reach.
unfoldable pub missing_prev : RaftNode → Option LogId → Bool
unfolding match_index
missing_prev node none = false
missing_prev node (some prev) = ltb 0 prev.index && ltb (match_index node) prev.index

-- The node after a request that it takes.
unfoldable pub take_request : RaftNode → AppendEntriesRequest → RaftNode
unfolding resting_role can_serve_data append_entries advance_commit
take_request node r =
    let following : RaftNode = record node {
      hard_state = record node.hard_state { current_term = r.term };
      raft_role = resting_role node.replica_role;
    } in
    let filled =
      if can_serve_data node.replica_role then append_entries following r.entries else following in
    advance_commit filled r.leader_commit

unfoldable pub append_entries_to :
    Cluster → ℕ → AppendEntriesRequest → Outcome Cluster AppendEntriesResponse
unfolding get insert rejection missing_prev take_request match_index refresh_cluster_indexes
append_entries_to c target r = elim (get target c.nodes) [
  | none ↦ (c, err (node_not_found target))
  | some node ↦
      if not (r.group_id == c.group_id)
      then (c, err (invalid_request (literal "append entries group id mismatch")))
      else if ltb r.term node.hard_state.current_term
      then (c, ok (rejection node))
      else if missing_prev node r.prev_log_id
      then (c, ok (rejection node))
      else let node' = take_request node r in
        (
          refresh_cluster_indexes (record c { nodes = insert target node' c.nodes }),
          ok (accepted_up_to node'.hard_state.current_term (match_index node')),
        )
]
