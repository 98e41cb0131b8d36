-- ===== src/Cluster/Members.antt =====
-- Changes of members, learners and witnesses of a cluster (src/lib.rs).
use rust_raft.Cluster.State.{
  Cluster, accepted_up_to, membership, refresh_cluster_indexes, refresh_replication_pipelines,
  respond_to,
}
use rust_raft.Cluster.Election.{Peer}
use rust_raft.Pipeline.State.{ReplicationPipeline, new_pipeline, production_default}
use rust_raft.Node.{RaftNode, advance_commit, append_entries, match_index, new_node, retain_above}
use rust_raft.Base.BTreeMap.{BTreeMap, get, insert, modify, remove}
use rust_raft.Types.{
  Outcome, ReplicaRole, Result, Role, SnapshotMeta, err, format, invalid_request, is_learner,
  no_leader, node_not_found, ok, ok_or, reject_if, ◌>>=◌, ◌>>◌,
}
use rust_raft.Base.{
  Bool, List, Option, String, [], add_u64, false, if◌then◌else◌, is_some, leb, ltb, min, none, not,
  opt_eq, some, ℕ, ◌++◌, ◌∷◌,
}
use rust_raft.Pipeline.Transfer.{record_learner_catchup_round, record_witness_quorum}
use rust_raft.Membership.{LearnerCatchUpReport, Membership}
use rust_raft.Membership

unfoldable pub add_peer : Cluster → Peer → Outcome Cluster (Unit {0})
unfolding get insert new_node new_pipeline refresh_replication_pipelines
add_peer c peer =
    if is_some (get peer.node_id c.nodes)
    then (c, err (invalid_request (format "duplicate raft node id {}" (peer.node_id ∷ []))))
    else (
      refresh_replication_pipelines (record c {
        nodes = insert peer.node_id (new_node peer.node_id peer.role) c.nodes;
        peer_pipelines =
            insert peer.node_id
              (new_pipeline peer.node_id (add_u64 c.last_log_index 1) production_default)
              c.peer_pipelines;
      }),
      ok tt,
    )

unfoldable pub add_learner : Cluster → Peer → Outcome Cluster (Unit {0})
unfolding add_peer
add_learner c peer = add_peer c (record peer { role = ReplicaRole.learner })

unfoldable pub add_witness : Cluster → Peer → Outcome Cluster (Unit {0})
unfolding add_peer
add_witness c peer = add_peer c (record peer { role = ReplicaRole.witness })

unfoldable pub promote_peer : Cluster → ℕ → Outcome Cluster (Unit {0})
unfolding get insert match_index
promote_peer c node_id = elim (get node_id c.nodes) [
  | none ↦ (c, err (node_not_found node_id))
  | some node ↦
      if ltb (match_index node) c.commit_index
      then (
        c,
        err (
            invalid_request
              (format "node {} is behind committed index {}" (node_id ∷ c.commit_index ∷ []))),
      )
      else (
        record c {
          nodes =
              insert node_id
                (record node { replica_role = ReplicaRole.voter; raft_role = Role.follower })
                c.nodes;
        },
        ok tt,
      )
]

unfoldable pub remove_peer : Cluster → ℕ → Outcome Cluster (Unit {0})
unfolding get remove refresh_replication_pipelines
remove_peer c node_id = elim (get node_id c.nodes) [
  | none ↦ (c, err (node_not_found node_id))
  | some node ↦
      let led = opt_eq c.leader_id (some node_id) in
      (
        refresh_replication_pipelines (record c {
          nodes = remove node_id c.nodes;
          peer_pipelines = remove node_id c.peer_pipelines;
          leader_id = if led then none else c.leader_id;
          leader_lease_valid = if led then false else c.leader_lease_valid;
        }),
        ok tt,
      )
]

-- RaftCluster::catchup_report
unfoldable pub catchup_report : Cluster → ℕ → Result LearnerCatchUpReport
unfolding get match_index membership Membership.catchup_report
catchup_report c learner_id = do
  node ← ok_or (node_not_found learner_id) (get learner_id c.nodes)
  ok (Membership.catchup_report (membership c) learner_id (match_index node) c.commit_index)

pub record CatchUpLoopReport : Type 0 where
  pub learner_id : ℕ
  pub leader_commit_index : ℕ
  pub learner_match_index_before : ℕ
  pub learner_match_index_after : ℕ
  pub rounds : ℕ
  pub caught_up : Bool
  pub reason : String

-- A newer snapshot of the leader becomes the learner's.
unfoldable pub take_snapshot : RaftNode → Option SnapshotMeta → RaftNode
unfolding match_index
take_snapshot learner none = learner
take_snapshot learner (some s) =
    if ltb (match_index learner) s.last_log_id.index
    then record learner { installed_snapshot = some s }
    else learner

-- The learner with the leader's snapshot and entries that it lacks, and the commit index.
unfoldable pub catch_up : RaftNode → RaftNode → ℕ → RaftNode
unfolding take_snapshot match_index append_entries retain_above advance_commit
catch_up learner leader commit =
    let based = take_snapshot learner leader.installed_snapshot in
    let filled = append_entries based (retain_above (match_index based) leader.log) in
    advance_commit filled (min commit (match_index filled))

-- The learner's pipeline after the round, and whether the learner has caught up.
unfoldable pub catch_up_pipeline : Cluster → ℕ → ℕ → BTreeMap ReplicationPipeline × Bool × ℕ
unfolding get insert respond_to record_learner_catchup_round
catch_up_pipeline c learner_id matched = elim (get learner_id c.peer_pipelines) [
  | none ↦ (c.peer_pipelines, leb c.commit_index matched, 0)
  | some p ↦
      let answered = respond_to (accepted_up_to c.current_term matched) p in
      let (p', caught_up) = record_learner_catchup_round answered c.commit_index in
      (insert learner_id p' c.peer_pipelines, caught_up, p'.status.learner_catchup_rounds)
]

unfoldable pub finish_catch_up :
    Cluster → ℕ → RaftNode → RaftNode → Outcome Cluster CatchUpLoopReport
unfolding insert match_index catch_up catch_up_pipeline refresh_cluster_indexes
finish_catch_up c learner_id learner leader =
    let learner' = catch_up learner leader c.commit_index in
    let after = match_index learner' in
    let (pipelines, caught_up, rounds) = catch_up_pipeline c learner_id after in
    (
      refresh_cluster_indexes
          (record c { nodes = insert learner_id learner' c.nodes; peer_pipelines = pipelines }),
      ok (record {
        learner_id = learner_id;
        leader_commit_index = c.commit_index;
        learner_match_index_before = match_index learner;
        learner_match_index_after = after;
        rounds = rounds;
        caught_up = caught_up;
        reason = if caught_up then "learner_caught_up" else "learner_still_lagging";
      }),
    )

unfoldable pub loop_nodes : Cluster → ℕ → Result (RaftNode × RaftNode)
unfolding get is_learner
loop_nodes c learner_id = do
  leader_id ← ok_or no_leader c.leader_id
  leader ← ok_or (node_not_found leader_id) (get leader_id c.nodes)
  learner ← ok_or (node_not_found learner_id) (get learner_id c.nodes)
  reject_if (not (is_learner learner.replica_role))
      (invalid_request (format "node {} is not a learner" (learner_id ∷ [])))
  ok (learner, leader)

unfoldable pub start_catch_up :
    Cluster → ℕ → Result (RaftNode × RaftNode) → Outcome Cluster CatchUpLoopReport
unfolding finish_catch_up
start_catch_up c learner_id (err e) = (c, err e)
start_catch_up c learner_id (ok (learner, leader)) = finish_catch_up c learner_id learner leader

unfoldable pub learner_catch_up_loop : Cluster → ℕ → Outcome Cluster CatchUpLoopReport
unfolding loop_nodes start_catch_up
learner_catch_up_loop c learner_id = start_catch_up c learner_id (loop_nodes c learner_id)

pub record WitnessQuorumReport : Type 0 where
  pub required : ℕ
  pub acknowledged : ℕ
  pub reached : Bool
  pub voters : List ℕ
  pub witnesses : List ℕ

-- record_witness_quorum on the pipeline of each witness
unfoldable pub record_witnesses :
    ℕ → ℕ → List ℕ → BTreeMap ReplicationPipeline → BTreeMap ReplicationPipeline
unfolding modify record_witness_quorum
record_witnesses acknowledged required [] pipelines = pipelines
record_witnesses acknowledged required (w ∷ ws) pipelines =
    record_witnesses acknowledged required ws
      (modify w (λ p. (record_witness_quorum p acknowledged required).0) pipelines)

unfoldable pub witness_quorum_report : Cluster → List ℕ → Cluster × WitnessQuorumReport
unfolding membership Membership.count_acknowledged Membership.quorum_size record_witnesses
witness_quorum_report c acknowledgements =
    let m = membership c in
    let acknowledged = Membership.count_acknowledged acknowledgements (m.voters ++ m.witnesses) in
    let required = Membership.quorum_size m in
    (
      record c {
        peer_pipelines = record_witnesses acknowledged required m.witnesses c.peer_pipelines;
      },
      record {
        required = required;
        acknowledged = acknowledged;
        reached = leb required acknowledged;
        voters = m.voters;
        witnesses = m.witnesses;
      },
    )
