-- ===== src/Reads/Tests.antt =====
-- Read decisions at concrete inputs: runs, and one instance of each theorem.
use rust_raft.Base.{false, refl, true, ◌↔◌, ◌≡◌}
use rust_raft.Reads.{
  IsSafeRead, ReadOperation, RuntimeInput, is_write, runtime_decision, runtime_decision-IsSafeRead,
}

abbrev on_follower : ReadOperation → RuntimeInput
on_follower operation = record {
  operation = operation;
  node_id = 2;
  leader_id = 1;
  node_alive = true;
  role_can_serve_data = true;
  leader_lease_valid = false;
  has_majority = true;
  node_commit_index = 8;
  leader_commit_index = 10;
  max_stale_index_lag = 3;
}

-- Two entries behind is near enough for a bounded stale read, but not for a read index.
stale_run : (runtime_decision (on_follower ReadOperation.bounded_stale_read)).reason ≡ "safe"
unfolding runtime_decision
stale_run = refl

lagging_run : (runtime_decision (on_follower ReadOperation.read_index)).reason ≡ "replica_lagging"
unfolding runtime_decision
lagging_run = refl

runtime_decision-IsSafeRead_example :
    ((runtime_decision (on_follower ReadOperation.bounded_stale_read)).allowed ≡ true)
    ↔ IsSafeRead (on_follower ReadOperation.bounded_stale_read)
unfolding is_write
runtime_decision-IsSafeRead_example =
    runtime_decision-IsSafeRead (on_follower ReadOperation.bounded_stale_read) refl

abbrev follower_write : RuntimeInput
follower_write = on_follower ReadOperation.write
