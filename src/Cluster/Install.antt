-- ===== src/Cluster/Install.antt =====
-- Snapshots of a cluster and the compaction of its logs (src/lib.rs).
use rust_raft.Cluster.State.{Cluster, accepted_up_to, refresh_cluster_indexes, respond_to}
use rust_raft.Pipeline.State.{ReplicationPipeline}
use rust_raft.Node.{
  RaftNode, advance_commit, append_entries, compact_log_through, entry_index, install_snapshot,
  match_index,
}
use rust_raft.Base.BTreeMap.{BTreeMap, get, insert, modify}
use rust_raft.Types.{
  ApplySnapshotFence, LogEntry, Outcome, Result, Snapshot, err, invalid_request, literal,
  node_not_found, ok, ok_or, reject_if, ◌>>◌,
}
use rust_raft.Base.{
  Bool, List, Option, String, [], add_u64, false, first, if◌then◌else◌, leb, max, none, not, some,
  true, ℕ, ◌==◌, ◌∷◌,
}
use rust_raft.Pipeline.Transfer.{
  begin_snapshot_install, mark_snapshot_rejoin_after_compacted_log, receive_snapshot_chunk,
}
use rust_raft.Fences.{validate_snapshot_install}

-- The transfer that an installed snapshot leaves on its pipeline, both results dropped. The id is
-- the text "installed-{target}-{snapshot_index}", which the caller renders.
unfoldable pub mark_installed : String → ℕ → ReplicationPipeline → ReplicationPipeline
unfolding begin_snapshot_install receive_snapshot_chunk
mark_installed snapshot_id index p =
    (receive_snapshot_chunk (begin_snapshot_install p snapshot_id index 1).0 0 true).0

-- The node and its pipeline after the entries behind the snapshot.
unfoldable pub put_tail : Cluster → ℕ → List LogEntry → RaftNode → Outcome Cluster (Unit {0})
unfolding insert append_entries advance_commit match_index modify respond_to
    mark_snapshot_rejoin_after_compacted_log refresh_cluster_indexes
put_tail c target tail node =
    let filled = append_entries node tail in
    let node' = advance_commit filled (max c.commit_index (match_index filled)) in
    let answer = accepted_up_to c.current_term (match_index node') in
    (
      refresh_cluster_indexes (record c {
        nodes = insert target node' c.nodes;
        peer_pipelines =
            modify target (λ p. mark_snapshot_rejoin_after_compacted_log (respond_to answer p))
              c.peer_pipelines;
      }),
      ok tt,
    )

unfoldable pub then_tail :
    ℕ → List LogEntry → Outcome Cluster (Unit {0}) → Outcome Cluster (Unit {0})
unfolding get put_tail
then_tail target tail (c, err e) = (c, err e)
then_tail target tail (c, ok _) = elim (get target c.nodes) [
  | none ↦ (c, err (node_not_found target))
  | some node ↦ put_tail c target tail node
]

unfoldable pub overlaps : ℕ → Option LogEntry → Bool
overlaps index none = false
overlaps index (some e) = leb (entry_index e) index

-- `format!` of the id, left to the standard library.
module _ (installed_id : ℕ → ℕ → String) where
  unfoldable pub put_snapshot : Cluster → ℕ → Snapshot → RaftNode → Cluster
  unfolding insert install_snapshot modify mark_installed refresh_cluster_indexes
  put_snapshot c target snapshot node =
      let index = snapshot.meta.last_log_id.index in
      refresh_cluster_indexes (record c {
        nodes = insert target (install_snapshot node snapshot) c.nodes;
        peer_pipelines =
            modify target (mark_installed (installed_id target index) index) c.peer_pipelines;
      })

  unfoldable pub install_checks : Cluster → ℕ → Snapshot → ApplySnapshotFence → Result RaftNode
  unfolding validate_snapshot_install get
  install_checks c target snapshot fence = do
    reject_if (not (snapshot.group_id == c.group_id))
        (invalid_request (literal "snapshot group id mismatch"))
    validate_snapshot_install snapshot fence
    ok_or (node_not_found target) (get target c.nodes)

  unfoldable pub finish_snapshot :
      Cluster → ℕ → Snapshot → Result RaftNode → Outcome Cluster (Unit {0})
  unfolding put_snapshot
  finish_snapshot c target snapshot (err e) = (c, err e)
  finish_snapshot c target snapshot (ok node) = (put_snapshot c target snapshot node, ok tt)

  unfoldable pub install_snapshot_to :
      Cluster → ℕ → Snapshot → ApplySnapshotFence → Outcome Cluster (Unit {0})
  unfolding install_checks finish_snapshot
  install_snapshot_to c target snapshot fence =
      finish_snapshot c target snapshot (install_checks c target snapshot fence)

  unfoldable pub install_snapshot_with_tail_to :
      Cluster → ℕ → Snapshot → ApplySnapshotFence → List LogEntry → Outcome Cluster (Unit {0})
  unfolding install_snapshot_to then_tail overlaps
  install_snapshot_with_tail_to c target snapshot fence tail =
      if overlaps snapshot.meta.last_log_id.index (first tail)
      then (c, err (invalid_request (literal "tail catch-up entry overlaps installed snapshot")))
      else then_tail target tail (install_snapshot_to c target snapshot fence)

-- The sum of the entries removed, and the nodes left.
unfoldable pub compact_nodes : ℕ → BTreeMap RaftNode → BTreeMap RaftNode × ℕ
unfolding compact_log_through
compact_nodes log_index [] = ([], 0)
compact_nodes log_index ((k, n) ∷ nodes) =
    let (n', removed) = compact_log_through n log_index in
    let (nodes', more) = compact_nodes log_index nodes in ((k, n') ∷ nodes', add_u64 removed more)

unfoldable pub compact_logs_through : Cluster → ℕ → Cluster × ℕ
unfolding compact_nodes refresh_cluster_indexes
compact_logs_through c log_index =
    let (nodes, removed) = compact_nodes log_index c.nodes in
    (refresh_cluster_indexes (record c { nodes = nodes }), removed)
