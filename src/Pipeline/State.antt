-- ===== src/Pipeline/State.antt =====
-- RustRaftPipelineLimits, RustRaftPeerPipelineStatus, RaftReplicationPipeline (src/lib.rs).
-- Of the status the fields that no method of the pipeline reads or writes after `new` are left out:
-- the apply queue's, the rate limit's, the send timeouts', the elections' and the offline timeout's.
use rust_raft.Types.{LogEntry, LogId}
use rust_raft.Base.BTreeMap.{BTreeMap}
use rust_raft.Base.{Bool, List, Option, String, [], false, none, saturating_sub, true, ℕ}

pub record PipelineLimits : Type 0 where
  pub max_inflights_replicate : ℕ
  pub max_memory_replicate_log_bytes : ℕ
  pub max_inflights_apply_task : ℕ
  pub max_apply_batch_bytes : ℕ
  pub enable_reorder_queue : Bool
  pub reorder_window_size : ℕ
  pub reorder_timeout_us : ℕ

abbrev pub production_default : PipelineLimits
production_default = record {
  max_inflights_replicate = 256;
  max_memory_replicate_log_bytes = 67_108_864;
  max_inflights_apply_task = 1024;
  max_apply_batch_bytes = 8_388_608;
  enable_reorder_queue = true;
  reorder_window_size = 1024;
  reorder_timeout_us = 5_000_000;
}

pub record PipelineStatus : Type 0 where
  pub peer_id : ℕ
  pub match_index : ℕ
  pub next_index : ℕ
  pub append_requests : ℕ
  pub append_batches : ℕ
  pub max_append_batch_entries : ℕ
  pub max_append_batch_bytes : ℕ
  pub append_accepted : ℕ
  pub append_rejected : ℕ
  pub retry_attempts : ℕ
  pub backoff_ms : ℕ
  pub next_retry_after_ms : ℕ
  pub inflight_entries : ℕ
  pub inflight_bytes : ℕ
  pub append_queue_depth : ℕ
  pub append_queue_limit : ℕ
  pub append_queue_max_depth : ℕ
  pub inflight_bytes_limit : ℕ
  pub apply_backpressure_rejections : ℕ
  pub memory_backpressure_rejections : ℕ
  pub oversized_log_rejections : ℕ
  pub reorder_queue_depth : ℕ
  pub out_of_order_append_rejections : ℕ
  pub reorder_entries_rejected : ℕ
  pub reorder_entry_timeouts : ℕ
  pub reorder_dropped_packages : ℕ
  pub stale_term_rejections : ℕ
  pub snapshot_sending : Bool
  pub snapshot_installing : Bool
  pub snapshot_installed_index : ℕ
  pub snapshot_send_attempts : ℕ
  pub snapshot_install_total_chunks : ℕ
  pub snapshot_install_progress_per_mille : ℕ
  pub snapshot_backpressure_rejections : ℕ
  pub snapshot_install_rolled_back : ℕ
  pub snapshot_rejoin_after_compacted_log : Bool
  pub follower_lag : ℕ
  pub learner_catchup_rounds : ℕ
  pub learner_caught_up : Bool
  pub witness_quorum_required : ℕ
  pub witness_quorum_acked : ℕ
  pub witness_quorum_reached : Bool

-- RustRaftPeerPipelineStatus::new
unfoldable pub new_status : ℕ → ℕ → PipelineLimits → PipelineStatus
new_status peer_id next_index limits = record {
  peer_id = peer_id;
  match_index = saturating_sub next_index 1;
  next_index = next_index;
  append_requests = 0;
  append_batches = 0;
  max_append_batch_entries = 0;
  max_append_batch_bytes = 0;
  append_accepted = 0;
  append_rejected = 0;
  retry_attempts = 0;
  backoff_ms = 0;
  next_retry_after_ms = 0;
  inflight_entries = 0;
  inflight_bytes = 0;
  append_queue_depth = 0;
  append_queue_limit = limits.max_inflights_replicate;
  append_queue_max_depth = 0;
  inflight_bytes_limit = limits.max_memory_replicate_log_bytes;
  apply_backpressure_rejections = 0;
  memory_backpressure_rejections = 0;
  oversized_log_rejections = 0;
  reorder_queue_depth = 0;
  out_of_order_append_rejections = 0;
  reorder_entries_rejected = 0;
  reorder_entry_timeouts = 0;
  reorder_dropped_packages = 0;
  stale_term_rejections = 0;
  snapshot_sending = false;
  snapshot_installing = false;
  snapshot_installed_index = 0;
  snapshot_send_attempts = 0;
  snapshot_install_total_chunks = 0;
  snapshot_install_progress_per_mille = 0;
  snapshot_backpressure_rejections = 0;
  snapshot_install_rolled_back = 0;
  snapshot_rejoin_after_compacted_log = false;
  follower_lag = 0;
  learner_catchup_rounds = 0;
  learner_caught_up = false;
  witness_quorum_required = 0;
  witness_quorum_acked = 0;
  witness_quorum_reached = false;
}

pub record InflightAppend : Type 0 where
  pub first_log_id : LogId
  pub last_log_id : LogId
  pub entry_count : ℕ
  pub bytes : ℕ

pub record SnapshotTransferState : Type 0 where
  pub snapshot_id : String
  pub snapshot_index : ℕ
  pub total_chunks : ℕ
  pub acknowledged_chunks : ℕ
  pub bytes_sent : ℕ
  pub bytes_received : ℕ

pub record ReplicationPipeline : Type 0 where
  pub peer_id : ℕ
  pub limits : PipelineLimits
  pub status : PipelineStatus
  pub append_queue : List LogEntry
  pub inflight : List InflightAppend
  pub reorder_queue : BTreeMap LogEntry
  pub snapshot_transfer : Option SnapshotTransferState

unfoldable pub new_pipeline : ℕ → ℕ → PipelineLimits → ReplicationPipeline
unfolding new_status
new_pipeline peer_id next_index limits = record {
  peer_id = peer_id;
  limits = limits;
  status = new_status peer_id next_index limits;
  append_queue = [];
  inflight = [];
  reorder_queue = [];
  snapshot_transfer = none;
}

-- RustRaftAppendEntriesResponse
pub record AppendEntriesResponse : Type 0 where
  pub term : ℕ
  pub success : Bool
  pub match_index : ℕ
  pub rejection_hint : Option ℕ
