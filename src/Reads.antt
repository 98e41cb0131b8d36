-- ===== src/Reads.antt =====
-- Read fences, lease reads, stale reads and the runtime decision (src/lib.rs).
mod Tests
use rust_raft.Base.{
  Bool, Option, String, arith, false, if◌then◌else◌, leb, ltb, not, opt_eq, saturating_sub, some,
  true, ℕ, ◌&&◌, ◌+◌, ◌==◌, ◌||◌, ◌↔◌, ◌≡◌, ◌≢◌, ◌≤◌, ◌⊎◌,
}

pub record ReadIndexRequest : Type 0 where
  pub group_id : ℕ
  pub requester_id : ℕ
  pub min_commit_index : ℕ
  pub allow_lease_read : Bool

pub record AppliedIndexFenceReport : Type 0 where
  pub min_commit_index : ℕ
  pub commit_index : ℕ
  pub applied_index : ℕ
  pub passed : Bool
  pub reason : String

unfoldable pub applied_index_fence_report : ℕ → ℕ → ℕ → AppliedIndexFenceReport
applied_index_fence_report min_commit commit applied = record {
  min_commit_index = min_commit;
  commit_index = commit;
  applied_index = applied;
  passed = leb min_commit applied && leb applied commit;
  reason =
      if ltb applied min_commit
      then "applied_index_behind_min_commit"
      else if ltb commit applied
      then "applied_index_ahead_of_commit"
      else "applied_index_fence_passed";
}

pub record LeaseReadEligibilityReport : Type 0 where
  pub node_id : ℕ
  pub leader_id : Option ℕ
  pub config_enabled : Bool
  pub requester_is_leader : Bool
  pub leader_lease_valid : Bool
  pub applied_index_fence_passed : Bool
  pub eligible : Bool
  pub reason : String

unfoldable pub lease_read_eligibility_report :
    ℕ → Option ℕ → Bool → Bool → Bool → LeaseReadEligibilityReport
lease_read_eligibility_report node_id leader_id config_enabled lease_valid fence_passed =
    let requester_is_leader = opt_eq leader_id (some node_id) in
    record {
      node_id = node_id;
      leader_id = leader_id;
      config_enabled = config_enabled;
      requester_is_leader = requester_is_leader;
      leader_lease_valid = lease_valid;
      applied_index_fence_passed = fence_passed;
      eligible = config_enabled && (requester_is_leader && (lease_valid && fence_passed));
      reason =
          if not config_enabled
          then "lease_read_disabled"
          else if not requester_is_leader
          then "requester_not_leader"
          else if not lease_valid
          then "stale_leader_lease"
          else if not fence_passed
          then "applied_index_fence_failed"
          else "lease_read_eligible";
    }

pub record BoundedStaleReadReport : Type 0 where
  pub node_id : ℕ
  pub leader_id : ℕ
  pub node_commit_index : ℕ
  pub leader_commit_index : ℕ
  pub lag : ℕ
  pub max_stale_index_lag : ℕ
  pub allowed : Bool
  pub reason : String

unfoldable pub bounded_stale_read_report : ℕ → ℕ → ℕ → ℕ → ℕ → BoundedStaleReadReport
bounded_stale_read_report node_id leader_id node_commit leader_commit max_lag =
    let lag = saturating_sub leader_commit node_commit in
    let allowed = leb lag max_lag in
    record {
      node_id = node_id;
      leader_id = leader_id;
      node_commit_index = node_commit;
      leader_commit_index = leader_commit;
      lag = lag;
      max_stale_index_lag = max_lag;
      allowed = allowed;
      reason = if allowed then "bounded_stale_read_allowed" else "replica_lagging";
    }

-- RustRaftReadSafetyOperation
pub data ReadOperation : Type 0 where
  read_index lease_read bounded_stale_read write : ReadOperation

pub record RuntimeInput : Type 0 where
  pub operation : ReadOperation
  pub node_id : ℕ
  pub leader_id : ℕ
  pub node_alive : Bool
  pub role_can_serve_data : Bool
  pub leader_lease_valid : Bool
  pub has_majority : Bool
  pub node_commit_index : ℕ
  pub leader_commit_index : ℕ
  pub max_stale_index_lag : ℕ

pub record RuntimeDecision : Type 0 where
  pub allowed : Bool
  pub read_index : ℕ
  pub reason : String
  pub stale_leader_lease_rejected : Bool
  pub lagging_follower_read_rejected : Bool
  pub stale_follower_write_rejected : Bool
  pub minority_partition_read_rejected : Bool
  pub minority_partition_write_rejected : Bool
  pub healed_follower_catchup_observed : Bool

unfoldable pub is_write : ReadOperation → Bool
is_write ReadOperation.write = true
is_write ReadOperation.read_index = false
is_write ReadOperation.lease_read = false
is_write ReadOperation.bounded_stale_read = false

unfoldable pub is_lease_read : ReadOperation → Bool
is_lease_read ReadOperation.lease_read = true
is_lease_read ReadOperation.write = false
is_lease_read ReadOperation.read_index = false
is_lease_read ReadOperation.bounded_stale_read = false

unfoldable pub is_bounded_stale_read : ReadOperation → Bool
is_bounded_stale_read ReadOperation.bounded_stale_read = true
is_bounded_stale_read ReadOperation.write = false
is_bounded_stale_read ReadOperation.read_index = false
is_bounded_stale_read ReadOperation.lease_read = false

-- A decision with none of its flags set.
plain_decision : Bool → ℕ → String → RuntimeDecision
plain_decision allowed read_at reason = record {
  allowed = allowed;
  read_index = read_at;
  reason = reason;
  stale_leader_lease_rejected = false;
  lagging_follower_read_rejected = false;
  stale_follower_write_rejected = false;
  minority_partition_read_rejected = false;
  minority_partition_write_rejected = false;
  healed_follower_catchup_observed = false;
}

write_decision : RuntimeInput → Bool → RuntimeDecision
unfolding plain_decision
write_decision i is_follower =
    let allowed = not is_follower && i.has_majority in
    let reason =
      if allowed
      then "write_authority"
      else if is_follower
      then "not_leader"
      else "minority_partition" in
    record (plain_decision allowed i.leader_commit_index reason) {
      stale_follower_write_rejected = is_follower;
      minority_partition_write_rejected = not i.has_majority;
    }

-- rustraft_read_safety_runtime_decision
unfoldable pub runtime_decision : RuntimeInput → RuntimeDecision
unfolding write_decision is_write is_lease_read is_bounded_stale_read plain_decision
runtime_decision i =
    let is_follower = not (i.node_id == i.leader_id) in
    let at = i.node_commit_index in
    let lag = saturating_sub i.leader_commit_index i.node_commit_index in
    let max_lag : ℕ = if is_bounded_stale_read i.operation then i.max_stale_index_lag else 0 in
    if is_write i.operation
    then write_decision i is_follower
    else if not i.node_alive || not i.role_can_serve_data
    then plain_decision false at "node_unavailable"
    else if is_lease_read i.operation && not i.leader_lease_valid
    then record (plain_decision false at "stale_leader_lease") {
      stale_leader_lease_rejected = true;
    }
    else if not (is_bounded_stale_read i.operation) && not i.has_majority
    then record (plain_decision false at "minority_partition") {
      minority_partition_read_rejected = true;
    }
    else if ltb max_lag lag
    then record (plain_decision false at "replica_lagging") {
      lagging_follower_read_rejected = is_follower;
    }
    else record (plain_decision true at "safe") {
      healed_follower_catchup_observed = is_follower && at == i.leader_commit_index;
    }

-- What a read that is let through can rely on.
pub record IsSafeRead (i : RuntimeInput) : Type 0 where
  pub serving : (i.node_alive ≡ true) × (i.role_can_serve_data ≡ true)
  pub current :
      is_bounded_stale_read i.operation ≡ false
      → (i.leader_commit_index ≤ i.node_commit_index) × (i.has_majority ≡ true)
  pub recent :
      i.leader_commit_index ≤ i.node_commit_index + i.max_stale_index_lag
      ⊎ (is_bounded_stale_read i.operation ≡ false)
  pub leased : is_lease_read i.operation ≡ true → i.leader_lease_valid ≡ true

-- A read is let through exactly when the node is up and serves data, a lease read has a valid
-- lease, a read that is not a bounded stale one has a majority and the leader's commit index, and a
-- bounded stale one lags by at most the limit.
pub runtime_decision-IsSafeRead :
    (i : RuntimeInput)
    → is_write i.operation ≡ false
    → ((runtime_decision i).allowed ≡ true) ↔ IsSafeRead i
unfolding runtime_decision
runtime_decision-IsSafeRead i w = (λ h. ground arith, λ s. ground arith)

-- A write is let through exactly on the leader of a majority; the decision flags a stale follower
-- exactly off the leader, and a minority exactly without a majority.
pub runtime_decision-write :
    (i : RuntimeInput)
    → is_write i.operation ≡ true
    → (((runtime_decision i).allowed ≡ true)
        ↔ ((i.node_id ≡ i.leader_id) × (i.has_majority ≡ true)))
      × (((runtime_decision i).stale_follower_write_rejected ≡ true) ↔ (i.node_id ≢ i.leader_id))
      × (((runtime_decision i).minority_partition_write_rejected ≡ true) ↔ (i.has_majority ≡ false))
unfolding runtime_decision
runtime_decision-write i w = ground arith
