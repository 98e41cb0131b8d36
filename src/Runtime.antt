-- ===== src/Runtime.antt =====
-- The worker of RaftNodeRuntime (src/lib.rs): one node's cluster, its log in files, its timer and the
-- commands it answers.
pub mod Timer
pub mod Durable
pub mod Startup
mod Tests
use rust_raft.Types.{LogId, Outcome, RaftError, Result, and_then, err, ok}
use rust_raft.Base.{
  Bool, List, String, [], add_u64, false, if◌then◌else◌, is_some, leb, saturating_add, true, ℕ,
  ◌++◌, ◌∷◌,
}
use rust_raft.Cluster.State.{Cluster}
use rust_raft.Cluster.Election.{
  VoteResponse, campaign, pre_vote, set_leader_lease_valid, set_node_healthy, start, stop,
  transfer_leader,
}
use rust_raft.Cluster.Replicate.{propose}
use rust_raft.Cluster.Reads.{ReadIndexResponse, read_index}
use rust_raft.Cluster.Restore.{wal_record_for}
use rust_raft.Wal.Persistent.Disk.{done}
use rust_raft.Wal.Persistent.Lines.{Codec}
use rust_raft.Wal.Persistent.Log.{Stored, append_with_report}

-- RaftNodeRuntimeState
pub data RuntimeState : Type 0 where
  created running stopped shutdown : RuntimeState

-- An entry of `blockers`: the operation with its error, or the reason of a refused pre-vote.
pub data RuntimeBlocker : Type 0 where
  failed_operation : String → RaftError → RuntimeBlocker
  refused_vote : String → RuntimeBlocker

-- The variables of raft_node_runtime_loop
pub record Worker : Type 0 where
  pub node_id : ℕ
  pub group_id : ℕ
  pub cluster : Cluster
  pub stored : Stored
  pub state : RuntimeState
  pub heartbeat_interval_ms : ℕ
  pub election_timeout_ms : ℕ
  pub heartbeat_ticks : ℕ
  pub election_ticks : ℕ
  pub election_elapsed_ms : ℕ
  pub pre_vote_executions : ℕ
  pub campaign_executions : ℕ
  pub leader_transfer_executions : ℕ
  pub last_tick_reason : String
  pub blockers : List RuntimeBlocker
  pub fatal_blockers : List RuntimeBlocker

-- record_runtime_result, on the lists; the result itself is passed on.
unfoldable pub note_error : {A : Type 0} → String → Bool → Result A → Worker → Worker
note_error operation fatal (ok a) w = w
note_error operation fatal (err e) w = record w {
  blockers = w.blockers ++ failed_operation operation e ∷ [];
  fatal_blockers =
      if fatal then w.fatal_blockers ++ failed_operation operation e ∷ [] else w.fatal_blockers;
}

-- What the worker does with the answer to its pre-vote.
unfoldable pub after_pre_vote : Result VoteResponse → Worker → Worker
unfolding campaign note_error
after_pre_vote (err e) w = record w { blockers = w.blockers ++ failed_operation "pre_vote" e ∷ [] }
after_pre_vote (ok vote) w =
    if vote.vote_granted
    then (let (c, result) = campaign w.cluster w.node_id false in
        note_error "election_tick_campaign" false result
          (record w { cluster = c; campaign_executions = add_u64 w.campaign_executions 1 }))
    else record w { blockers = w.blockers ++ refused_vote vote.reason ∷ [] }

-- The election tick, when the timeout has elapsed.
unfoldable pub election_tick : Worker → Worker
unfolding after_pre_vote pre_vote
election_tick w =
    let due : Worker = record w {
      election_ticks = add_u64 w.election_ticks 1;
      election_elapsed_ms = 0;
      last_tick_reason = "election_tick";
    } in
    if is_some w.cluster.leader_id
    then due
    else after_pre_vote (pre_vote w.cluster w.node_id)
        (record due { pre_vote_executions = add_u64 w.pre_vote_executions 1 })

unfoldable pub heartbeat : Worker → Worker
heartbeat w = record w {
  heartbeat_ticks = add_u64 w.heartbeat_ticks 1;
  election_elapsed_ms = saturating_add w.election_elapsed_ms w.heartbeat_interval_ms;
  last_tick_reason = "heartbeat_tick";
}

unfoldable pub is_running : RuntimeState → Bool
is_running RuntimeState.created = false
is_running RuntimeState.running = true
is_running RuntimeState.stopped = false
is_running RuntimeState.shutdown = false

-- A heartbeat interval without a command.
unfoldable pub tick : Worker → Worker
unfolding is_running heartbeat election_tick
tick w =
    if is_running w.state
    then if leb w.election_timeout_ms (heartbeat w).election_elapsed_ms
      then election_tick (heartbeat w)
      else heartbeat w
    else w

-- RaftNodeRuntimeOp, less Status, which changes nothing
pub data Command : Type 0 where
  start_node stop_node send_pre_vote shut_down : Command
  propose_payload : List ℕ → Command
  read_at : ℕ → Command
  set_healthy : ℕ → Bool → Command
  set_lease : Bool → Command
  transfer_to : ℕ → Command
  start_campaign : Bool → Command

-- What is sent to the caller.
pub data Reply : Type 0 where
  unit_reply : Result (Unit {0}) → Reply
  log_id_reply : Result LogId → Reply
  read_reply : Result ReadIndexResponse → Reply
  vote_reply : Result VoteResponse → Reply

-- A result of a method of the cluster, noted and sent.
unfoldable pub answer : String → Worker → Outcome Cluster (Unit {0}) → Worker × Reply
unfolding note_error
answer operation w (c, result) =
    (note_error operation false result (record w { cluster = c }), unit_reply result)

-- `state` after a start or a stop
unfoldable pub entered : RuntimeState → Worker → Outcome Cluster (Unit {0}) → Worker
entered next w (c, ok done) = record w { state = next; election_elapsed_ms = 0 }
entered next w (c, err e) = w

-- .map(|_| log_id)
unfoldable pub instead : {A : Type 0} → LogId → Result A → Result LogId
instead log_id (ok a) = ok log_id
instead log_id (err e) = err e

module _ (codec : Codec) where
  -- The append of the node's record to the log, behind a proposal.
  unfoldable pub log_node : LogId → Worker → Outcome Worker LogId
  unfolding wal_record_for append_with_report instead
  log_node log_id w = elim (wal_record_for w.cluster w.node_id) [
    | err e ↦ (w, err e)
    | ok r ↦
        let (stored, result) = append_with_report codec r w.stored in
        (record w { stored = stored }, instead log_id result)
  ]

  -- cluster.propose(payload).and_then(..)
  unfoldable pub propose_and_log : List ℕ → Worker → Outcome Worker LogId
  unfolding propose log_node
  propose_and_log payload w =
      let (c, result) = propose w.cluster payload in
      and_then (record w { cluster = c }, result) (λ w' log_id. log_node log_id w')

  unfoldable pub handle_propose : List ℕ → Worker → Worker × Reply
  unfolding propose_and_log note_error
  handle_propose payload w =
      let (w', result) = propose_and_log payload w in
      (note_error "propose" true result w', log_id_reply result)

  -- One command: the worker after it, and the reply. The loop ends behind `shut_down`.
  unfoldable pub handle : Command → Worker → Worker × Reply
  unfolding start stop answer entered handle_propose read_index note_error set_node_healthy
      set_leader_lease_valid transfer_leader pre_vote campaign
  handle start_node w =
      answer "start" (entered RuntimeState.running w (start w.cluster)) (start w.cluster)
  handle stop_node w =
      (record w { cluster = stop w.cluster; state = RuntimeState.stopped }, unit_reply (ok tt))
  handle shut_down w = (record w { cluster = stop w.cluster }, unit_reply (ok tt))
  handle send_pre_vote w =
      let result = pre_vote w.cluster w.node_id in
      (
        note_error "pre_vote" false result
            (record w { pre_vote_executions = add_u64 w.pre_vote_executions 1 }),
        vote_reply result,
      )
  handle (propose_payload payload) w = handle_propose payload w
  handle (read_at min_commit_index) w =
      let result = read_index w.cluster (record {
        group_id = w.group_id;
        requester_id = w.node_id;
        min_commit_index = min_commit_index;
        allow_lease_read = true;
      }) in
      (note_error "read_index" false result w, read_reply result)
  handle (set_healthy target healthy) w =
      answer "set_node_healthy" w (set_node_healthy w.cluster target healthy)
  handle (set_lease valid) w =
      (record w { cluster = set_leader_lease_valid w.cluster valid }, unit_reply (ok tt))
  handle (transfer_to target) w =
      answer "transfer_leader"
        (record w { leader_transfer_executions = add_u64 w.leader_transfer_executions 1 })
        (transfer_leader w.cluster target)
  handle (start_campaign forced) w =
      answer "campaign" (record w { campaign_executions = add_u64 w.campaign_executions 1 })
        (campaign w.cluster w.node_id forced)
