-- ===== src/Cluster/Restore.antt =====
-- RaftCluster::wal_record_for and restore_wal_record (src/lib.rs): a node's state written to a record
-- and read back.
mod Tests
use rust_raft.Base.BTreeMap.{get, get-modify_self, modify}
use rust_raft.Base.{
  List, Option, add_u64, ap, arith, first, if◌then◌else◌, ltb, map_or, max, none, not, refl, some,
  true, u64_max, ℕ, ◌<◌, ◌==◌, ◌∙◌, ◌≡◌, ◌≤◌,
}
use rust_raft.Node.Indexes.{IsConsistent}
use rust_raft.Wal.Record.{
  WalRecord, committed_index, stamp, validate_apply_snapshot_fence, validate_fence_snapshot,
  validate_hard_state_persistence,
}
use rust_raft.Wal.Recovery.{is_durable}
use rust_raft.Types.{
  LogEntry, LogId, Outcome, Result, err, invalid_request, literal, node_not_found, ok, ok_or, ◌>>=◌,
  ◌>>◌,
}
use rust_raft.Node.{RaftNode, match_index, snapshot_index}
use rust_raft.Cluster.State.{
  Cluster, membership, refresh_cluster_indexes, refresh_replication_pipelines, respond_leader,
}

-- first_retained_log_index of the record's fence
unfoldable pub first_retained : ℕ → List LogEntry → ℕ
first_retained snapshot log =
    if ltb 0 snapshot
    then add_u64 snapshot 1
    else map_or 0 (λ (e : LogEntry). e.log_id.index) (first log)

unfoldable pub node_record : Cluster → ℕ → RaftNode → WalRecord
unfolding membership snapshot_index first_retained stamp
node_record c node_id node =
    let snapshot = snapshot_index node.installed_snapshot in
    stamp (record {
      group_id = c.group_id;
      node_id = node_id;
      hard_state = node.hard_state;
      membership = membership c;
      entries = node.log;
      installed_snapshot = node.installed_snapshot;
      apply_snapshot_fence = record {
        applied_index = node.applied_index;
        commit_index = node.commit_index;
        installed_snapshot_index = snapshot;
        first_retained_log_index = first_retained snapshot node.log;
      };
      checksum = "";
    })

-- wal_record_for
unfoldable pub wal_record_for : Cluster → ℕ → Result WalRecord
unfolding get node_record
wal_record_for c node_id = do
  node ← ok_or (node_not_found node_id) (get node_id c.nodes)
  ok (node_record c node_id node)

-- The writes to the node.
unfoldable pub restore_node : WalRecord → RaftNode → RaftNode
restore_node r node = record node {
  hard_state = r.hard_state;
  log = r.entries;
  installed_snapshot = r.installed_snapshot;
  commit_index = r.apply_snapshot_fence.commit_index;
  applied_index = r.apply_snapshot_fence.applied_index;
}

-- The cluster with the node restored.
unfoldable pub restored : WalRecord → RaftNode → Cluster → Cluster
unfolding restore_node modify match_index refresh_cluster_indexes refresh_replication_pipelines
restored r node c =
    let node' = restore_node r node in
    refresh_replication_pipelines (
      refresh_cluster_indexes (record c {
        nodes = modify r.node_id (λ n. node') c.nodes;
        current_term = max c.current_term node'.hard_state.current_term;
        last_log_index = max c.last_log_index (match_index node');
      }))

-- restore_wal_record
unfoldable pub restore_wal_record : WalRecord → Cluster → Outcome Cluster (Unit {0})
unfolding get restored
restore_wal_record r c =
    if not (r.group_id == c.group_id)
    then (c, err (invalid_request (literal "WAL record group id mismatch")))
    else elim (get r.node_id c.nodes) [
      | none ↦ (c, err (node_not_found r.node_id))
      | some node ↦ (restored r node c, ok tt)
    ]

respond_leader-nodes : (c : Cluster) (leader : Option ℕ) → (respond_leader c leader).nodes ≡ c.nodes
unfolding respond_leader
respond_leader-nodes c none = refl
respond_leader-nodes c (some leader) = refl

restored-nodes :
    (r : WalRecord) (node : RaftNode) (c : Cluster)
    → (restored r node c).nodes ≡ modify r.node_id (λ n. restore_node r node) c.nodes
unfolding restored refresh_replication_pipelines refresh_cluster_indexes
restored-nodes r node c = respond_leader-nodes _ c.leader_id

restore_wal_record_found :
    (r : WalRecord) (c : Cluster) (old : RaftNode)
    → r.group_id ≡ c.group_id
    → get r.node_id c.nodes ≡ some old
    → restore_wal_record r c ≡ (restored r old c, ok tt)
unfolding restore_wal_record
restore_wal_record_found r c old g f =
    let same : (r.group_id == c.group_id) ≡ true = ground arith in
    rw (same, restore_wal_record) (rw (f, restore_wal_record) refl)

-- Restoring the record of a node, into a cluster of the same group that has a node with its id,
-- succeeds. The node there keeps its id, its roles and its health, and takes the hard state, the log,
-- the snapshot, the commit index and the applied index of the recorded one.
pub restore_wal_record-wal_record_for :
    (c c' : Cluster) (id : ℕ) (node old : RaftNode)
    → get id c.nodes ≡ some node
    → get id c'.nodes ≡ some old
    → c.group_id ≡ c'.group_id
    → (r : WalRecord) × (wal_record_for c id ≡ ok r)
      × ((restore_wal_record r c').1 ≡ ok tt)
      × (get id (restore_wal_record r c').0.nodes
          ≡ some (record node {
            id = old.id;
            replica_role = old.replica_role;
            raft_role = old.raft_role;
            healthy = old.healthy;
          }))
unfolding wal_record_for
restore_wal_record-wal_record_for c c' id node old e f g =
    let r = node_record c id node in
    let whole =
      restore_wal_record_found r c' old (unfold node_record stamp in g)
        (unfold node_record stamp in f) in
    (
      r,
      rw e refl,
      ap (λ o. o.1) whole,
      ap (λ (o : Outcome Cluster (Unit {0})). get id o.0.nodes) whole
          ∙ ap (get id) (restored-nodes r old c')
          ∙ (unfold node_record stamp restore_node in
              get-modify_self id (λ n. restore_node r old) c'.nodes old f),
    )

-- The record of a node whose indexes agree passes the checks of recovery: nothing is committed that
-- the node does not hold, nothing is applied that is not committed, and its hard state names its
-- commit index and no later term than its own.
pub node_record-durable :
    (c : Cluster) (id : ℕ) (node : RaftNode)
    → IsConsistent node
    → map_or 0 (λ (i : LogId). i.index) node.hard_state.committed ≡ node.commit_index
    → map_or 0 (λ (i : LogId). i.term) node.hard_state.committed ≤ node.hard_state.current_term
    → snapshot_index node.installed_snapshot < u64_max
    → is_durable (node_record c id node) ≡ true
unfolding is_durable validate_hard_state_persistence validate_apply_snapshot_fence node_record stamp
    first_retained match_index snapshot_index committed_index validate_fence_snapshot
node_record-durable c id node v same term room = ground (arith, v.held, v.committed_first)
