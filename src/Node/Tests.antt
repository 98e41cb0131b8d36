-- ===== src/Node/Tests.antt =====
-- Nodes at concrete logs: runs, and one instance of each theorem.
use rust_raft.Base.{List, [], arith, none, refl, true, ℕ, ◌∷◌, ◌≡◌}
use rust_raft.Types.{LogEntry, ReplicaRole, Role, Snapshot}
use rust_raft.Node.{RaftNode, append_entry, compact_log_through, last_entry_index, match_index}
use rust_raft.Node.Log.{Contiguous, append_entry-Contiguous, match_index-compact}
use rust_raft.Node.Indexes.{IsConsistent}

abbrev entry : ℕ → ℕ → LogEntry
entry term index = record { log_id = record { term = term; index = index }; payload = index ∷ [] }

abbrev node_with : List LogEntry → ℕ → RaftNode
node_with log commit = record {
  id = 2;
  replica_role = ReplicaRole.voter;
  raft_role = Role.follower;
  hard_state = record { current_term = 1; voted_for = none; committed = none };
  log = log;
  installed_snapshot = none;
  commit_index = commit;
  applied_index = commit;
  healthy = true;
}

abbrev log_of_three : List LogEntry
log_of_three = entry 1 1 ∷ entry 1 2 ∷ entry 1 3 ∷ []

abbrev snapshot_at : ℕ → Snapshot
snapshot_at index = record {
  group_id = 7;
  meta = record {
    snapshot_id = "s";
    last_log_id = record { term = 1; index = index };
    membership = 1 ∷ 2 ∷ 3 ∷ [];
  };
  payload = 9 ∷ [];
}

append_entry-Contiguous_example :
    ((append_entry (node_with log_of_three 0) (entry 2 2)).log ≡ entry 1 1 ∷ entry 2 2 ∷ [])
    × Contiguous 0 (append_entry (node_with log_of_three 0) (entry 2 2)).log
    × (last_entry_index (append_entry (node_with log_of_three 0) (entry 2 2)).log ≡ 2)
append_entry-Contiguous_example =
    append_entry-Contiguous (node_with log_of_three 0) (entry 2 2) 0 (refl, (refl, (refl, tt)))
      (omega arith) (omega arith)

match_index-compact_example :
    match_index (compact_log_through (node_with log_of_three 0) 2).0
    ≡ match_index (node_with log_of_three 0)
unfolding last_entry_index
match_index-compact_example =
    match_index-compact (node_with log_of_three 0) 0 2
      (omega arith, (omega arith, (omega arith, tt)))

committed_two : IsConsistent (node_with log_of_three 2)
unfolding match_index
committed_two = record { held = omega arith; committed_first = omega arith }
