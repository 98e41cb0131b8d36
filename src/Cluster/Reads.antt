-- ===== src/Cluster/Reads.antt =====
-- Read indexes of a cluster (src/lib.rs).
use rust_raft.Cluster.State.{Cluster, has_live_quorum, membership}
use rust_raft.Node.{RaftNode}
use rust_raft.Base.BTreeMap.{get}
use rust_raft.Types.{
  Result, invalid_request, literal, node_not_found, ok, ok_or, reject_if, ◌>>=◌, ◌>>◌,
}
use rust_raft.Base.{
  Bool, List, Option, String, arith, false, filter, if◌then◌else◌, leb, length, ltb, map_or, none,
  not, opt_eq, some, true, ℕ, ◌&&◌, ◌++◌, ◌==◌, ◌↔◌, ◌≡◌, ◌≤◌,
}
use rust_raft.Reads.{
  AppliedIndexFenceReport, BoundedStaleReadReport, LeaseReadEligibilityReport, ReadIndexRequest,
  applied_index_fence_report, bounded_stale_read_report, lease_read_eligibility_report,
}
use rust_raft.Membership

pub record ReadIndexResponse : Type 0 where
  pub safe : Bool
  pub read_index : ℕ
  pub lease_read : Bool
  pub reason : String

unfoldable pub unsafe_read : RaftNode → String → ReadIndexResponse
unsafe_read node reason = record {
  safe = false;
  read_index = node.commit_index;
  lease_read = false;
  reason = reason;
}

-- The conditions of a lease read.
unfoldable pub may_lease_read : Cluster → ReadIndexRequest → Bool
may_lease_read c r =
    r.allow_lease_read
    && (c.config.enable_lease_read
        && (opt_eq c.leader_id (some r.requester_id) && c.leader_lease_valid))

-- The answer for a node that is there.
unfoldable pub answer_read : Cluster → ReadIndexRequest → RaftNode → ReadIndexResponse
unfolding unsafe_read has_live_quorum may_lease_read
answer_read c r node =
    if not node.healthy
    then unsafe_read node "node_unhealthy"
    else if not (has_live_quorum c)
    then unsafe_read node "no_live_quorum"
    else if ltb node.applied_index r.min_commit_index
    then unsafe_read node "applied_index_behind_min_commit"
    else record {
      safe = true;
      read_index = node.commit_index;
      lease_read = may_lease_read c r;
      reason = if may_lease_read c r then "lease_read" else "read_index";
    }

-- RaftCluster::read_index
unfoldable pub read_index : Cluster → ReadIndexRequest → Result ReadIndexResponse
unfolding answer_read get
read_index c r = do
  reject_if (not (r.group_id == c.group_id))
      (invalid_request (literal "read index group id mismatch"))
  node ← ok_or (node_not_found r.requester_id) (get r.requester_id c.nodes)
  ok (answer_read c r node)

unfoldable pub lease_read_eligible : Cluster → ℕ → ℕ → Result Bool
unfolding read_index
lease_read_eligible c node_id min_commit_index = do
  response ← read_index c (record {
    group_id = c.group_id;
    requester_id = node_id;
    min_commit_index = min_commit_index;
    allow_lease_read = true;
  })
  ok (response.safe && response.lease_read)

pub record ReadQuorumReport : Type 0 where
  pub required : ℕ
  pub live_voters : List ℕ
  pub live_witnesses : List ℕ
  pub acknowledgements : List ℕ
  pub reached : Bool

unfoldable pub is_live : Cluster → ℕ → Bool
unfolding get
is_live c id = map_or false (λ (n : RaftNode). n.healthy) (get id c.nodes)

unfoldable pub read_quorum_report : Cluster → ReadQuorumReport
unfolding is_live membership Membership.quorum_size
read_quorum_report c =
    let m = membership c in
    let live_voters = filter (is_live c) m.voters in
    let live_witnesses = filter (is_live c) m.witnesses in
    let acknowledgements = live_voters ++ live_witnesses in
    let required = Membership.quorum_size m in
    record {
      required = required;
      live_voters = live_voters;
      live_witnesses = live_witnesses;
      acknowledgements = acknowledgements;
      reached = leb required (length acknowledgements);
    }

pub record ReadPathReport : Type 0 where
  pub safe : Bool
  pub read_index : ℕ
  pub lease_read : Bool
  pub stale_leader_rejected : Bool
  pub reason : String
  pub quorum : ReadQuorumReport
  pub applied_index_fence : AppliedIndexFenceReport
  pub lease_read_eligibility : LeaseReadEligibilityReport
  pub bounded_stale : Option BoundedStaleReadReport

-- option.map(|report| report.allowed).unwrap_or(true)
unfoldable pub stale_allowed : Option BoundedStaleReadReport → Bool
stale_allowed report = map_or true (λ (r : BoundedStaleReadReport). r.allowed) report

unfoldable pub stale_report : Cluster → RaftNode → ℕ → ℕ → Option BoundedStaleReadReport
unfolding bounded_stale_read_report
stale_report c node requester max_lag = elim c.leader_id [
  | none ↦ none
  | some leader ↦
      some (bounded_stale_read_report requester leader node.commit_index c.commit_index max_lag)
]

unfoldable pub build_report :
    Cluster → ReadIndexRequest → RaftNode → ℕ → ReadIndexResponse → ReadPathReport
unfolding read_quorum_report applied_index_fence_report lease_read_eligibility_report stale_report
    stale_allowed
build_report c r node max_lag response =
    let quorum = read_quorum_report c in
    let fence =
      applied_index_fence_report r.min_commit_index node.commit_index node.applied_index in
    let stale = stale_report c node r.requester_id max_lag in
    let stale_leader =
      r.allow_lease_read
      && (opt_eq c.leader_id (some r.requester_id) && not c.leader_lease_valid) in
    let safe = response.safe && (quorum.reached && (fence.passed && stale_allowed stale)) in
    record {
      safe = safe;
      read_index = response.read_index;
      lease_read = response.lease_read && safe;
      stale_leader_rejected = stale_leader;
      reason =
          if not node.healthy
          then "node_unhealthy"
          else if not quorum.reached
          then "no_live_quorum"
          else if not fence.passed
          then fence.reason
          else if not (stale_allowed stale)
          then "replica_lagging"
          else if stale_leader
          then "stale_leader_lease"
          else if response.lease_read
          then "lease_read"
          else "read_index_quorum";
      quorum = quorum;
      applied_index_fence = fence;
      lease_read_eligibility =
          lease_read_eligibility_report r.requester_id c.leader_id
            (c.config.enable_lease_read && r.allow_lease_read) c.leader_lease_valid fence.passed;
      bounded_stale = stale;
    }

unfoldable pub read_path_report : Cluster → ReadIndexRequest → ℕ → Result ReadPathReport
unfolding build_report get read_index
read_path_report c r max_lag = do
  reject_if (not (r.group_id == c.group_id))
      (invalid_request (literal "read path group id mismatch"))
  node ← ok_or (node_not_found r.requester_id) (get r.requester_id c.nodes)
  response ← read_index c r
  ok (build_report c r node max_lag response)

-- What a node must show for a read at its commit index.
pub record MayRead (c : Cluster) (r : ReadIndexRequest) (node : RaftNode) : Type 0 where
  pub there : get r.requester_id c.nodes ≡ some node
  pub group : r.group_id ≡ c.group_id
  pub up : node.healthy ≡ true
  pub quorum : has_live_quorum c ≡ true
  pub applied : r.min_commit_index ≤ node.applied_index

-- For a requester that is in the cluster, a read index is called safe exactly when the group is
-- right, the node is healthy, a quorum is live and the node has applied what the read needs; the
-- index is then the node's commit index.
pub read_index-MayRead :
    (c : Cluster) (r : ReadIndexRequest) (node : RaftNode) (a : ReadIndexResponse)
    → get r.requester_id c.nodes ≡ some node
    → read_index c r ≡ ok a
    → ((a.safe ≡ true) ↔ MayRead c r node) × (a.read_index ≡ node.commit_index)
unfolding read_index
read_index-MayRead c r node a g h = ground arith

-- A read-path report calls a lease read possible only when it calls the read safe, and then the
-- requester leads with a valid lease, lease reads are enabled, a quorum is reached, and the report
-- shows the requester as eligible.
pub read_path_report-lease :
    (c : Cluster) (r : ReadIndexRequest) (max_lag : ℕ) (report : ReadPathReport)
    → read_path_report c r max_lag ≡ ok report
    → report.lease_read ≡ true
    → (report.safe ≡ true)
      × (c.leader_id ≡ some r.requester_id)
      × (c.leader_lease_valid ≡ true)
      × (c.config.enable_lease_read ≡ true)
      × (report.quorum.reached ≡ true)
      × (report.lease_read_eligibility.eligible ≡ true)
unfolding read_path_report
read_path_report-lease c r max_lag report h l = ground arith
