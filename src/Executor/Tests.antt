-- ===== src/Executor/Tests.antt =====
-- A cluster of two voters and the operations on it: one instance of each theorem.
use rust_raft.Base.{List, [], none, refl, some, true, ℕ, ◌∷◌}
use rust_raft.Types.{ReplicaRole, Role}
use rust_raft.Config.{default_config}
use rust_raft.Node.{RaftNode}
use rust_raft.Cluster.State.{Cluster, refresh_replication_pipelines}
use rust_raft.Executor.{Operation, execute_all_with_rollback, execute_inner, removing}
use rust_raft.Executor.Rollback.{LoopEnds, execute_all_with_rollback-LoopEnds}
use rust_raft.Executor.Checks.{IsRemovable, execute-IsRemovable}

abbrev voter_node : ℕ → Role → RaftNode
voter_node id role = record {
  id = id;
  replica_role = ReplicaRole.voter;
  raft_role = role;
  hard_state = record { current_term = 1; voted_for = some 1; committed = none };
  log = [];
  installed_snapshot = none;
  commit_index = 0;
  applied_index = 0;
  healthy = true;
}

abbrev pair : Cluster
pair = record {
  group_id = 1;
  config = default_config;
  nodes = (1, voter_node 1 Role.leader) ∷ (2, voter_node 2 Role.follower) ∷ [];
  peer_pipelines = [];
  leader_id = some 1;
  current_term = 1;
  commit_index = 0;
  applied_index = 0;
  last_log_index = 0;
  is_running = true;
  leader_lease_valid = true;
}

-- The second removal fails, since node 2 is gone.
abbrev operations : List Operation
operations = removing 2 ∷ removing 2 ∷ []

execute_all_with_rollback-LoopEnds_example :
    LoopEnds [] pair operations (execute_all_with_rollback operations ([], pair))
execute_all_with_rollback-LoopEnds_example =
    execute_all_with_rollback-LoopEnds operations ([], pair)

execute-IsRemovable_example : IsRemovable pair 2
unfolding execute_inner refresh_replication_pipelines
execute-IsRemovable_example = execute-IsRemovable true 2 ([], pair) refl
