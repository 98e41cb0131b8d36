-- ===== src/Node.antt =====
-- RaftNode (src/lib.rs): one replica's log, snapshot and indexes.
pub mod Log
pub mod Indexes
mod Tests
use rust_raft.Types.{
  HardState, LogEntry, ReplicaRole, Role, Snapshot, SnapshotMeta, can_serve_data, is_learner,
}
use rust_raft.Base.{
  Bool, List, Option, [], filter, if◌then◌else◌, last, length, ltb, map_or, max, min, none,
  position, saturating_sub, some, take, true, ℕ, ◌++◌, ◌==◌, ◌∷◌,
}

pub record RaftNode : Type 0 where
  pub id : ℕ
  pub replica_role : ReplicaRole
  pub raft_role : Role
  pub hard_state : HardState
  pub log : List LogEntry
  pub installed_snapshot : Option SnapshotMeta
  pub commit_index : ℕ
  pub applied_index : ℕ
  pub healthy : Bool

-- The role of a node that does not lead.
unfoldable pub resting_role : ReplicaRole → Role
unfolding is_learner
resting_role r = if is_learner r then Role.learner else Role.follower

unfoldable pub new_node : ℕ → ReplicaRole → RaftNode
unfolding resting_role
new_node id replica_role = record {
  id = id;
  replica_role = replica_role;
  raft_role = resting_role replica_role;
  hard_state = record { current_term = 0; voted_for = none; committed = none };
  log = [];
  installed_snapshot = none;
  commit_index = 0;
  applied_index = 0;
  healthy = true;
}

abbrev pub entry_index : LogEntry → ℕ
entry_index e = e.log_id.index

-- log.last().map(index).unwrap_or_default()
unfoldable pub last_entry_index : List LogEntry → ℕ
last_entry_index log = map_or 0 entry_index (last log)

-- snapshot.map(last_log_id.index).unwrap_or_default()
unfoldable pub snapshot_index : Option SnapshotMeta → ℕ
snapshot_index s = map_or 0 (λ m. m.last_log_id.index) s

unfoldable pub match_index : RaftNode → ℕ
unfolding last_entry_index snapshot_index
match_index node = max (last_entry_index node.log) (snapshot_index node.installed_snapshot)

-- The log cut before the first entry with this index.
unfoldable pub truncate_at : ℕ → List LogEntry → List LogEntry
truncate_at i log = elim (position (λ e. entry_index e == i) log) [
  | none ↦ log
  | some p ↦ take p log
]

unfoldable pub append_entry : RaftNode → LogEntry → RaftNode
unfolding truncate_at
append_entry node entry = record node {
  log = truncate_at (entry_index entry) node.log ++ entry ∷ [];
}

-- for entry in entries { node.append_entry(entry) }
unfoldable pub append_entries : RaftNode → List LogEntry → RaftNode
append_entries node [] = node
append_entries node (e ∷ es) = append_entries (append_entry node e) es

unfoldable pub advance_commit : RaftNode → ℕ → RaftNode
unfolding match_index can_serve_data
advance_commit node commit_index =
    let commit = max node.commit_index (min commit_index (match_index node)) in
    record node {
      commit_index = commit;
      applied_index =
          if can_serve_data node.replica_role
          then max node.applied_index commit
          else node.applied_index;
      hard_state = record node.hard_state {
        committed =
            if ltb 0 commit
            then some (record { term = node.hard_state.current_term; index = commit })
            else none;
      };
    }

-- log.retain(|entry| entry.log_id.index > i)
unfoldable pub retain_above : ℕ → List LogEntry → List LogEntry
retain_above i log = filter (λ e. ltb i (entry_index e)) log

-- RaftNode::install_snapshot
unfoldable pub install_snapshot : RaftNode → Snapshot → RaftNode
unfolding retain_above can_serve_data
install_snapshot node snapshot =
    let index = snapshot.meta.last_log_id.index in
    let commit = max node.commit_index index in
    record node {
      installed_snapshot = some snapshot.meta;
      log = retain_above index node.log;
      commit_index = commit;
      applied_index =
          if can_serve_data node.replica_role
          then max node.applied_index index
          else node.applied_index;
      hard_state = record node.hard_state {
        committed = some (record { term = node.hard_state.current_term; index = commit });
      };
    }

-- The node with its log compacted, and the number of entries removed.
unfoldable pub compact_log_through : RaftNode → ℕ → RaftNode × ℕ
unfolding retain_above
compact_log_through node log_index =
    let kept = retain_above log_index node.log in
    (record node { log = kept }, saturating_sub (length node.log) (length kept))
