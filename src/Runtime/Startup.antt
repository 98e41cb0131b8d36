-- ===== src/Runtime/Startup.antt =====
-- The start of raft_node_runtime_loop (src/lib.rs): the cluster built, the log opened and recovered,
-- and the worker made of them.
use rust_raft.Types.{ReplicaRole, Result, and_then, err, ok}
use rust_raft.Base.{
  List, Option, String, [], any, false, if◌then◌else◌, max, none, some, true, ℕ, ◌++◌, ◌==◌, ◌∷◌,
}
use rust_raft.Config.{Config}
use rust_raft.Cluster.State.{Cluster}
use rust_raft.Cluster.Election.{Peer, new_cluster}
use rust_raft.Cluster.Restore.{restore_wal_record}
use rust_raft.Wal.Record.{WalRecord}
use rust_raft.Wal.Local.{RecoveryReport, report}
use rust_raft.Wal.Persistent.Disk.{Disk, Op}
use rust_raft.Wal.Persistent.Lines.{Codec}
use rust_raft.Wal.Persistent.Log.{Stored, WalOptions, open_wal}
use rust_raft.Wal.Persistent.Maintain.{recover_wal}
use rust_raft.Runtime.{RuntimeState, Worker}

-- RustRaftNodeOptions, less the directories
pub record NodeOptions : Type 0 where
  pub group_id : ℕ
  pub node_id : ℕ
  pub raft_addr : String
  pub snapshot_addr : String
  pub role : ReplicaRole
  pub config : Config
  pub peers : List Peer

-- The peers, and the node itself where they lack it.
unfoldable pub all_peers : NodeOptions → List Peer
all_peers o =
    if any (λ (p : Peer). p.node_id == o.node_id) o.peers
    then o.peers
    else o.peers
      ++ record {
        node_id = o.node_id;
        raft_addr = o.raft_addr;
        snapshot_addr = o.snapshot_addr;
        role = o.role;
        auto_promote = false;
      }
        ∷ []

-- The options of the log.
unfoldable pub wal_options : Config → WalOptions
wal_options config = record {
  max_records_per_segment = 10_000;
  max_segment_bytes = config.max_segment_bytes;
  min_keep_segments = config.min_keep_segment_num;
  fsync_on_append = true;
}

unfoldable pub new_worker : NodeOptions → Cluster → Stored → Worker
new_worker o c stored =
    let heartbeat_ms = max o.config.heartbeat_interval_ms 1 in
    record {
      node_id = o.node_id;
      group_id = o.group_id;
      cluster = c;
      stored = stored;
      state = RuntimeState.created;
      heartbeat_interval_ms = heartbeat_ms;
      election_timeout_ms = max o.config.election_timeout_ms heartbeat_ms;
      heartbeat_ticks = 0;
      election_ticks = 0;
      election_elapsed_ms = 0;
      pre_vote_executions = 0;
      campaign_executions = 0;
      leader_transfer_executions = 0;
      last_tick_reason = "runtime_created";
      blockers = [];
      fatal_blockers = [];
    }

-- The recovered record, if there is one, restored; an error of that is dropped.
unfoldable pub restore_recovered : Option WalRecord → Cluster → Cluster
unfolding restore_wal_record
restore_recovered none c = c
restore_recovered (some r) c = (restore_wal_record r c).0

unfoldable pub restore_report : Result RecoveryReport → Cluster → Cluster
unfolding restore_recovered
restore_report (err e) c = c
restore_report (ok report) c = restore_recovered report.recovered c

module _ (codec : Codec) where
  -- The log opened and recovered, and the worker made of it.
  unfoldable pub open_worker : NodeOptions → Cluster → Op Disk Worker
  unfolding open_wal wal_options recover_wal restore_report new_worker
  open_worker o c d = and_then (open_wal codec (wal_options o.config) d) (λ d' wal.
      let (stored, report) = recover_wal codec (wal, d') in
      (stored.1, ok (new_worker o (restore_report report c) stored)))

  -- The start of raft_node_runtime_loop; an error is what every command is answered with.
  unfoldable pub start_worker : NodeOptions → Op Disk Worker
  unfolding new_cluster all_peers open_worker
  start_worker o d = elim (new_cluster o.group_id o.config (all_peers o)) [
    | err e ↦ (d, err e)
    | ok c ↦ open_worker o c d
  ]
