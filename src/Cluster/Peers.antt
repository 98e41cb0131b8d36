-- ===== src/Cluster/Peers.antt =====
-- The methods of RaftCluster that pass a call on to the pipeline of a peer (src/lib.rs).
use rust_raft.Node.{snapshot_index}
use rust_raft.Base.{Bool, String, none, some, ℕ}
use rust_raft.Base.BTreeMap.{get, insert}
use rust_raft.Types.{LogEntry, Outcome, err, node_not_found, ok}
use rust_raft.Pipeline.State.{ReplicationPipeline}
use rust_raft.Pipeline.Reorder.{expire_reorder_queue, receive_out_of_order}
use rust_raft.Pipeline.Transfer.{
  acknowledge_snapshot_chunk, begin_snapshot_install, begin_snapshot_send, receive_snapshot_chunk,
  record_snapshot_chunk_sent,
}
use rust_raft.Cluster.State.{Cluster}

-- self.peer_pipelines.get_mut(&peer_id).ok_or(..)?.method(..)
on_pipeline :
    {A : Type 0}
    → (ReplicationPipeline → Outcome ReplicationPipeline A)
    → Cluster
    → ℕ
    → Outcome Cluster A
unfolding get insert
on_pipeline f c peer_id = elim (get peer_id c.peer_pipelines) [
  | none ↦ (c, err (node_not_found peer_id))
  | some p ↦ (record c { peer_pipelines = insert peer_id (f p).0 c.peer_pipelines }, (f p).1)
]

unfoldable pub receive_out_of_order_append_for : Cluster → ℕ → LogEntry → Outcome Cluster (Unit {0})
unfolding on_pipeline receive_out_of_order
receive_out_of_order_append_for c peer_id entry =
    on_pipeline (λ p. receive_out_of_order p entry) c peer_id

-- expire_reorder_queue never fails.
unfoldable pub expire_peer_reorder_queue : Cluster → ℕ → Outcome Cluster ℕ
unfolding on_pipeline expire_reorder_queue
expire_peer_reorder_queue c peer_id =
    on_pipeline (λ p. let (p', dropped) = expire_reorder_queue p in (p', ok dropped)) c peer_id

unfoldable pub begin_snapshot_send_to : Cluster → ℕ → String → ℕ → ℕ → Outcome Cluster (Unit {0})
unfolding on_pipeline begin_snapshot_send
begin_snapshot_send_to c peer_id snapshot_id snapshot_index total_chunks =
    on_pipeline (λ p. begin_snapshot_send p snapshot_id snapshot_index total_chunks) c peer_id

unfoldable pub record_snapshot_chunk_sent_to : Cluster → ℕ → ℕ → Outcome Cluster (Unit {0})
unfolding on_pipeline record_snapshot_chunk_sent
record_snapshot_chunk_sent_to c peer_id bytes =
    on_pipeline (λ p. record_snapshot_chunk_sent p bytes) c peer_id

unfoldable pub acknowledge_snapshot_chunk_to : Cluster → ℕ → Outcome Cluster (Unit {0})
unfolding on_pipeline acknowledge_snapshot_chunk
acknowledge_snapshot_chunk_to c peer_id = on_pipeline acknowledge_snapshot_chunk c peer_id

unfoldable pub begin_snapshot_install_from :
    Cluster → ℕ → String → ℕ → ℕ → Outcome Cluster (Unit {0})
unfolding on_pipeline begin_snapshot_install
begin_snapshot_install_from c peer_id snapshot_id snapshot_index total_chunks =
    on_pipeline (λ p. begin_snapshot_install p snapshot_id snapshot_index total_chunks) c peer_id

unfoldable pub receive_snapshot_chunk_from : Cluster → ℕ → ℕ → Bool → Outcome Cluster (Unit {0})
unfolding on_pipeline receive_snapshot_chunk
receive_snapshot_chunk_from c peer_id bytes is_done =
    on_pipeline (λ p. receive_snapshot_chunk p bytes is_done) c peer_id
