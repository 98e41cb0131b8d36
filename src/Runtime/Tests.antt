-- ===== src/Runtime/Tests.antt =====
-- A worker whose timeout is three heartbeat intervals, in a cluster of three voters without a leader.
use rust_raft.Base.{
  List, Option, [], arith, false, none, refl, some, suc, take, true, zero, ℕ, ◌<◌, ◌∷◌, ◌≡◌, ◌≤◌,
}
use rust_raft.Types.{LogId, ReplicaRole, Role, ok}
use rust_raft.Node.{RaftNode}
use rust_raft.Config.{default_config}
use rust_raft.Base.BTreeMap.{BTreeMap, get}
use rust_raft.Pipeline.State.{new_pipeline, production_default}
use rust_raft.Cluster.State.{Cluster}
use rust_raft.Cluster.Election.{pre_vote}
use rust_raft.Wal.Persistent.Log.{PersistentRaftWal}
use rust_raft.Wal.Persistent.Roll.{IsSynced, calm}
use rust_raft.Cluster.Replicate.{propose, propose_to}
use rust_raft.Cluster.Restore.{node_record}
use rust_raft.Wal.Record.{WalRecord, stamp}
use rust_raft.Wal.Persistent.Lines.{Codec, file_bytes}
use rust_raft.Wal.Persistent.Append.{Extends}
use rust_raft.Runtime.Durable.{propose_payload-Extends}
use rust_raft.Wal.Persistent.Layout.{files_of}
use rust_raft.Wal.Persistent.Scan.{IsEncoded}
use rust_raft.Wal.Segments.{empty_segment}
use rust_raft.Wal.Local.Chain.{empty_segment-IsIndexed}
use rust_raft.Runtime.{RuntimeState, Worker, handle, log_id_reply, propose_payload}
use rust_raft.Runtime.Timer.{HasCampaigned, IsWaiting, ticks, ticks-HasCampaigned}

abbrev voter_node : ℕ → RaftNode
voter_node id = record {
  id = id;
  replica_role = ReplicaRole.voter;
  raft_role = Role.follower;
  hard_state = record { current_term = 0; voted_for = none; committed = none };
  log = [];
  installed_snapshot = none;
  commit_index = 0;
  applied_index = 0;
  healthy = true;
}

abbrev leaderless : Cluster
leaderless = record {
  group_id = 7;
  config = default_config;
  nodes = (1, voter_node 1) ∷ (2, voter_node 2) ∷ (3, voter_node 3) ∷ [];
  peer_pipelines = [];
  leader_id = none;
  current_term = 0;
  commit_index = 0;
  applied_index = 0;
  last_log_index = 0;
  is_running = true;
  leader_lease_valid = false;
}

abbrev empty_wal : PersistentRaftWal
empty_wal = record {
  options = record {
    max_records_per_segment = 10_000;
    max_segment_bytes = 67_108_864;
    min_keep_segments = 2;
    fsync_on_append = true;
  };
  segments =
      record { segment_id = 1; first_index = 0; last_index = 0; records = []; sealed = false } ∷ [];
  active = 1;
  next_segment_id = 2;
  released_segment_count = 0;
  truncated_corrupt_tail = false;
}

abbrev waiting : Worker
waiting = record {
  node_id = 2;
  group_id = 7;
  cluster = leaderless;
  stored = (empty_wal, calm ((1, []) ∷ []));
  state = RuntimeState.running;
  heartbeat_interval_ms = 100;
  election_timeout_ms = 300;
  heartbeat_ticks = 0;
  election_ticks = 0;
  election_elapsed_ms = 0;
  pre_vote_executions = 0;
  campaign_executions = 0;
  leader_transfer_executions = 0;
  last_tick_reason = "runtime_created";
  blockers = [];
  fatal_blockers = [];
}

waiting-IsWaiting : IsWaiting waiting
unfolding pre_vote
waiting-IsWaiting = record {
  runs = refl;
  elects = refl;
  leaderless = refl;
  vote = record { term = 1; vote_granted = true; reason = "pre_vote_granted" };
  answered = refl;
  granted = refl;
  fits = omega arith;
}

ticks-HasCampaigned_example : (k : ℕ) × (k ≤ 2) × HasCampaigned waiting (ticks (suc k) waiting)
ticks-HasCampaigned_example = ticks-HasCampaigned 2 waiting waiting-IsWaiting (omega arith)

-- The node leads after the third interval, and not after the second.
ticks_run :
    ((ticks 2 waiting).cluster.leader_id ≡ none) × ((ticks 3 waiting).cluster.leader_id ≡ some 2)
unfolding ticks
ticks_run = (refl, refl)

-- A leader alone in its cluster, with an empty log on the disk.
abbrev leading : Cluster
leading = record leaderless {
  nodes =
      (
        2,
        record (voter_node 2) {
          hard_state = record { current_term = 1; voted_for = some 2; committed = none };
        },
      )
      ∷ [];
  peer_pipelines = (2, new_pipeline 2 1 production_default) ∷ [];
  leader_id = some 2;
  current_term = 1;
}

abbrev proposer : Worker
proposer = record waiting { cluster = leading }

abbrev first_id : LogId
first_id = record { term = 1; index = 1 }

abbrev after_proposal : Cluster
after_proposal = (propose leading (9 ∷ [])).0

abbrev proposer_node : RaftNode
proposer_node = record (voter_node 2) {
  hard_state = record { current_term = 1; voted_for = some 2; committed = some first_id };
  log = record { log_id = first_id; payload = 9 ∷ [] } ∷ [];
  commit_index = 1;
  applied_index = 1;
}

-- A codec for the one record.
abbrev one_record : List ℕ → Option WalRecord
one_record [] = none
one_record (b ∷ bytes) = some (stamp (node_record after_proposal 2 proposer_node))

abbrev one_codec : Codec
one_codec = record { encode = λ r. 123 ∷ []; decode = one_record }

one_record_torn : (n : ℕ) → n < 1 → one_record (take n (123 ∷ [])) ≡ none
one_record_torn zero h = refl
one_record_torn (suc n) h = absurd (omega arith)

proposed_run : propose leading (9 ∷ []) ≡ (after_proposal, ok first_id)
unfolding propose propose_to
proposed_run = refl

proposed_node : get 2 after_proposal.nodes ≡ some proposer_node
unfolding propose get propose_to
proposed_node = refl

proposed-IsEncoded : IsEncoded one_codec (stamp (node_record after_proposal 2 proposer_node))
proposed-IsEncoded = record {
  decode-encode = refl;
  one_line = (refl, tt);
  not_empty = omega arith;
  torn = one_record_torn;
}

empty_wal-IsSynced : IsSynced one_codec empty_wal ((1, []) ∷ [])
unfolding files_of file_bytes empty_segment
empty_wal-IsSynced = record {
  layout = (refl, record { sealed_lem = refl; indexed = empty_segment-IsIndexed 1; written = tt });
  files_lem = refl;
  next_lem = refl;
}

propose_payload-Extends_example :
    (v : PersistentRaftWal) × (n : BTreeMap (List ℕ)) × (handle one_codec
        (propose_payload (9 ∷ []))
        proposer
      ≡ (
        record proposer { cluster = after_proposal; stored = (v, calm n) },
        log_id_reply (ok first_id),
      ))
    × Extends one_codec (stamp (node_record after_proposal 2 proposer_node)) empty_wal v n
propose_payload-Extends_example =
    propose_payload-Extends one_codec (9 ∷ []) proposer after_proposal first_id proposer_node
      empty_wal ((1, []) ∷ []) proposed_run proposed_node refl proposed-IsEncoded empty_wal-IsSynced
      (omega arith)
