-- ===== src/Pipeline/Transfer.antt =====
-- Snapshot transfers of a peer (src/lib.rs).
use rust_raft.Types.{Outcome, err, invalid_request, literal, ok}
use rust_raft.Pipeline.State.{ReplicationPipeline, SnapshotTransferState}
use rust_raft.Base.{
  Bool, String, add_u64, false, if◌then◌else◌, leb, max, min, mul_u64, none, saturating_sub, some,
  true, ℕ, ◌/◌, ◌==◌, ◌||◌,
}

abbrev new_transfer : String → ℕ → ℕ → SnapshotTransferState
new_transfer snapshot_id snapshot_index total_chunks = record {
  snapshot_id = snapshot_id;
  snapshot_index = snapshot_index;
  total_chunks = total_chunks;
  acknowledged_chunks = 0;
  bytes_sent = 0;
  bytes_received = 0;
}

-- The pipeline that refuses a second transfer.
refuse_transfer : ReplicationPipeline → Outcome ReplicationPipeline (Unit {0})
refuse_transfer p = (
  record p {
    status = record p.status {
      snapshot_backpressure_rejections = add_u64 p.status.snapshot_backpressure_rejections 1;
    };
  },
  err (invalid_request (literal "snapshot transfer is already active")),
)

unfoldable pub begin_snapshot_send :
    ReplicationPipeline → String → ℕ → ℕ → Outcome ReplicationPipeline (Unit {0})
unfolding refuse_transfer
begin_snapshot_send p snapshot_id snapshot_index total_chunks =
    if p.status.snapshot_sending || p.status.snapshot_installing then refuse_transfer p else (
      record p {
        snapshot_transfer = some (new_transfer snapshot_id snapshot_index total_chunks);
        status = record p.status {
          snapshot_sending = true;
          snapshot_send_attempts = add_u64 p.status.snapshot_send_attempts 1;
          snapshot_install_total_chunks = total_chunks;
          snapshot_install_progress_per_mille = 0;
        };
      },
      ok tt,
    )

unfoldable pub begin_snapshot_install :
    ReplicationPipeline → String → ℕ → ℕ → Outcome ReplicationPipeline (Unit {0})
unfolding refuse_transfer
begin_snapshot_install p snapshot_id snapshot_index total_chunks =
    if p.status.snapshot_sending || p.status.snapshot_installing then refuse_transfer p else (
      record p {
        snapshot_transfer = some (new_transfer snapshot_id snapshot_index total_chunks);
        status = record p.status {
          snapshot_installing = true;
          snapshot_install_total_chunks = total_chunks;
          snapshot_install_progress_per_mille = 0;
        };
      },
      ok tt,
    )

unfoldable pub record_snapshot_chunk_sent :
    ReplicationPipeline → ℕ → Outcome ReplicationPipeline (Unit {0})
record_snapshot_chunk_sent p bytes = elim p.snapshot_transfer [
  | none ↦ (p, err (invalid_request (literal "snapshot send is not active")))
  | some t ↦ (
    record p { snapshot_transfer = some (record t { bytes_sent = add_u64 t.bytes_sent bytes }) },
    ok tt,
  )
]

unfoldable pub finish_snapshot_install :
    ReplicationPipeline → Outcome ReplicationPipeline (Unit {0})
finish_snapshot_install p = elim p.snapshot_transfer [
  | none ↦ (p, err (invalid_request (literal "snapshot transfer is not active")))
  | some t ↦
      let matched = max p.status.match_index t.snapshot_index in
      (
        record p {
          snapshot_transfer = none;
          status = record p.status {
            snapshot_sending = false;
            snapshot_installing = false;
            snapshot_installed_index = max p.status.snapshot_installed_index t.snapshot_index;
            snapshot_install_progress_per_mille = 1000;
            match_index = matched;
            next_index = add_u64 matched 1;
          };
        },
        ok tt,
      )
]

unfoldable pub per_mille : SnapshotTransferState → ℕ
per_mille t =
    if t.total_chunks == 0
    then 1000
    else min (mul_u64 t.acknowledged_chunks 1000 / t.total_chunks) 1000

-- The transfer with one more chunk acknowledged, and its progress.
set_transfer : ReplicationPipeline → SnapshotTransferState → ReplicationPipeline
unfolding per_mille
set_transfer p t = record p {
  snapshot_transfer = some t;
  status = record p.status { snapshot_install_progress_per_mille = per_mille t };
}

unfoldable pub acknowledge_snapshot_chunk :
    ReplicationPipeline → Outcome ReplicationPipeline (Unit {0})
unfolding set_transfer finish_snapshot_install
acknowledge_snapshot_chunk p = elim p.snapshot_transfer [
  | none ↦ (p, err (invalid_request (literal "snapshot transfer is not active")))
  | some t ↦
      let t' : SnapshotTransferState = record t {
        acknowledged_chunks = add_u64 t.acknowledged_chunks 1;
      } in
      let p' = set_transfer p t' in
      if leb t'.total_chunks t'.acknowledged_chunks then finish_snapshot_install p' else (p', ok tt)
]

unfoldable pub receive_snapshot_chunk :
    ReplicationPipeline → ℕ → Bool → Outcome ReplicationPipeline (Unit {0})
unfolding set_transfer finish_snapshot_install
receive_snapshot_chunk p bytes is_done = elim p.snapshot_transfer [
  | none ↦ (p, err (invalid_request (literal "snapshot install is not active")))
  | some t ↦
      let t' : SnapshotTransferState = record t {
        bytes_received = add_u64 t.bytes_received bytes;
        acknowledged_chunks = add_u64 t.acknowledged_chunks 1;
      } in
      let p' = set_transfer p t' in if is_done then finish_snapshot_install p' else (p', ok tt)
]

unfoldable pub rollback_snapshot_install : ReplicationPipeline → ReplicationPipeline
rollback_snapshot_install p = record p {
  snapshot_transfer = none;
  status = record p.status {
    snapshot_sending = false;
    snapshot_installing = false;
    snapshot_install_rolled_back = add_u64 p.status.snapshot_install_rolled_back 1;
  };
}

unfoldable pub mark_snapshot_rejoin_after_compacted_log : ReplicationPipeline → ReplicationPipeline
mark_snapshot_rejoin_after_compacted_log p = record p {
  status = record p.status { snapshot_rejoin_after_compacted_log = true };
}

unfoldable pub update_follower_lag : ReplicationPipeline → ℕ → ReplicationPipeline × ℕ
update_follower_lag p leader_commit_index =
    let lag = saturating_sub leader_commit_index p.status.match_index in
    (record p { status = record p.status { follower_lag = lag } }, lag)

unfoldable pub record_learner_catchup_round : ReplicationPipeline → ℕ → ReplicationPipeline × Bool
unfolding update_follower_lag
record_learner_catchup_round p leader_commit_index =
    let counted : ReplicationPipeline = record p {
      status = record p.status {
        learner_catchup_rounds = add_u64 p.status.learner_catchup_rounds 1;
      };
    } in
    let (p', _) = update_follower_lag counted leader_commit_index in
    let caught_up = leb leader_commit_index p'.status.match_index in
    (record p' { status = record p'.status { learner_caught_up = caught_up } }, caught_up)

unfoldable pub record_witness_quorum : ReplicationPipeline → ℕ → ℕ → ReplicationPipeline × Bool
record_witness_quorum p acknowledged required =
    let reached = leb required acknowledged in
    (
      record p {
        status = record p.status {
          witness_quorum_acked = acknowledged;
          witness_quorum_required = required;
          witness_quorum_reached = reached;
        };
      },
      reached,
    )
