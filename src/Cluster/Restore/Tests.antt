-- ===== src/Cluster/Restore/Tests.antt =====
-- A node's state written in one cluster and read back in another, at concrete values.
use rust_raft.Base.BTreeMap.{get}
use rust_raft.Base.{[], false, none, refl, some, true, ◌∷◌, ◌≡◌}
use rust_raft.Types.{ReplicaRole, Role, ok}
use rust_raft.Node.{RaftNode}
use rust_raft.Config.{default_config}
use rust_raft.Cluster.State.{Cluster}
use rust_raft.Wal.Record.{WalRecord}
use rust_raft.Cluster.Restore.{
  restore_wal_record, restore_wal_record-wal_record_for, wal_record_for,
}

-- A voter that holds two entries, the first of them committed and applied.
abbrev full_node : RaftNode
full_node = record {
  id = 1;
  replica_role = ReplicaRole.voter;
  raft_role = Role.leader;
  hard_state = record {
    current_term = 3;
    voted_for = some 1;
    committed = some (record { term = 3; index = 1 });
  };
  log =
      record { log_id = record { term = 3; index = 1 }; payload = 5 ∷ [] }
      ∷ record { log_id = record { term = 3; index = 2 }; payload = 6 ∷ [] }
      ∷ [];
  installed_snapshot = none;
  commit_index = 1;
  applied_index = 1;
  healthy = true;
}

-- The voter as a new cluster makes it.
abbrev new_node : RaftNode
new_node = record {
  id = 1;
  replica_role = ReplicaRole.voter;
  raft_role = Role.follower;
  hard_state = record { current_term = 0; voted_for = none; committed = none };
  log = [];
  installed_snapshot = none;
  commit_index = 0;
  applied_index = 0;
  healthy = true;
}

abbrev alone : RaftNode → Cluster
alone node = record {
  group_id = 7;
  config = default_config;
  nodes = (1, node) ∷ [];
  peer_pipelines = [];
  leader_id = none;
  current_term = 0;
  commit_index = 0;
  applied_index = 0;
  last_log_index = 0;
  is_running = false;
  leader_lease_valid = false;
}

restore_wal_record-wal_record_for_example :
    (r : WalRecord) × (wal_record_for (alone full_node) 1 ≡ ok r)
    × ((restore_wal_record r (alone new_node)).1 ≡ ok tt)
    × (get 1 (restore_wal_record r (alone new_node)).0.nodes
        ≡ some (record full_node { raft_role = Role.follower }))
unfolding get
restore_wal_record-wal_record_for_example =
    restore_wal_record-wal_record_for (alone full_node) (alone new_node) 1 full_node new_node refl
      refl refl
