-- ===== src/Cluster/Appends.antt =====
-- What an append request does to its node: append_entries_to of RaftCluster (src/lib.rs).
use rust_raft.Cluster.State.{Cluster}
use rust_raft.Node.Log.{Contiguous}
use rust_raft.Node.{RaftNode, append_entries, match_index, resting_role}
use rust_raft.Base.{List, false, length, max, min, take, true, ℕ, ◌++◌, ◌+◌, ◌-◌, ◌∷◌, ◌≡◌, ◌≤◌}
use rust_raft.Cluster.Replicate.{AppendEntriesRequest}
use rust_raft.Types.{LogEntry, can_serve_data}

-- What a node is after a request that it takes.
pub record Taken (r : AppendEntriesRequest) (n n' : RaftNode) : Type 0 where
  pub newer : n.hard_state.current_term ≤ n'.hard_state.current_term
  pub same_term : n'.hard_state.current_term ≡ r.term
  pub steps_down : n'.raft_role ≡ resting_role n.replica_role
  pub log_lem : can_serve_data n.replica_role ≡ true → n'.log ≡ (append_entries n r.entries).log
  pub log_joined :
      (e : LogEntry) (es : List LogEntry) (i j : ℕ)
      → can_serve_data n.replica_role ≡ true
      → r.entries ≡ e ∷ es
      → Contiguous i n.log
      → Contiguous j (e ∷ es)
      → i ≤ j
      → j ≤ i + length n.log
      → n'.log ≡ take (j - i) n.log ++ e ∷ es
  pub log_kept : can_serve_data n.replica_role ≡ false → n'.log ≡ n.log
  pub commit_forward : n.commit_index ≤ n'.commit_index
  pub commit_reached : r.leader_commit ≤ match_index n' → r.leader_commit ≤ n'.commit_index
  pub commit_bound : n'.commit_index ≤ max n.commit_index (min r.leader_commit (match_index n'))
