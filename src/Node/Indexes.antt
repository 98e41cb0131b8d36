-- ===== src/Node/Indexes.antt =====
-- The commit, applied and match indexes of a RaftNode (src/lib.rs).
use rust_raft.Base.{arith, ℕ, ◌≤◌}
use rust_raft.Types.{ReplicaRole, Snapshot}
use rust_raft.Node.{
  RaftNode, advance_commit, install_snapshot, match_index, new_node, snapshot_index,
}

-- Nothing is committed that the node does not hold, and nothing is applied that is not committed.
pub record IsConsistent (node : RaftNode) : Type 0 where
  pub held : node.commit_index ≤ match_index node
  pub committed_first : node.applied_index ≤ node.commit_index

pub new_node-IsConsistent : (id : ℕ) (r : ReplicaRole) → IsConsistent (new_node id r)
unfolding new_node match_index
new_node-IsConsistent id r = record { held = omega arith; committed_first = omega arith }

pub advance_commit-IsConsistent :
    (node : RaftNode) (c : ℕ) → IsConsistent node → IsConsistent (advance_commit node c)
unfolding advance_commit
advance_commit-IsConsistent node c v = ground arith

-- On a consistent node a commit never goes back, nor does what is applied; it never passes what the
-- node holds, and is at the requested index or above where the node has that much.
pub advance_commit_bounds :
    (node : RaftNode) (c : ℕ)
    → IsConsistent node
    → (node.commit_index ≤ (advance_commit node c).commit_index)
      × ((advance_commit node c).commit_index ≤ match_index node)
      × (node.applied_index ≤ (advance_commit node c).applied_index)
      × (c ≤ match_index node → c ≤ (advance_commit node c).commit_index)
unfolding advance_commit
advance_commit_bounds node c v = ground arith

-- A snapshot whose index is the node's commit index or more keeps a consistent node consistent.
pub install_snapshot-IsConsistent :
    (node : RaftNode) (s : Snapshot)
    → IsConsistent node
    → node.commit_index ≤ s.meta.last_log_id.index
    → IsConsistent (install_snapshot node s)
unfolding install_snapshot match_index snapshot_index
install_snapshot-IsConsistent node s v h = ground arith

pub le-match_index-install_snapshot :
    (node : RaftNode) (s : Snapshot)
    → s.meta.last_log_id.index ≤ match_index (install_snapshot node s)
unfolding install_snapshot match_index snapshot_index
le-match_index-install_snapshot node s = omega arith
