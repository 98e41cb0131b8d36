-- ===== src/Cluster/Changes.antt =====
-- Changes of members and snapshots: add_peer, promote_peer, remove_peer and install_snapshot_to of
-- RaftCluster (src/lib.rs).
use rust_raft.Cluster.Install.{install_checks, install_snapshot_to}
use rust_raft.Cluster.State.{Cluster, refresh_replication_pipelines, respond_leader}
use rust_raft.Cluster.Election.{Peer}
use rust_raft.Cluster.Members.{add_peer, promote_peer, remove_peer}
use rust_raft.Node.{RaftNode, install_snapshot, match_index, new_node}
use rust_raft.Node.Indexes.{le-match_index-install_snapshot}
use rust_raft.Base.BTreeMap.{get, get-insert, get-remove}
use rust_raft.Types.{
  ApplySnapshotFence, Outcome, ReplicaRole, Result-cases, Role, Snapshot, err, format,
  invalid_request, ok,
}
use rust_raft.Base.{
  Bool-cases, Option, Option-cases, String, [], arith, false, if◌then◌else◌, inl, inr, is_some, ltb,
  none, refl, some, true, ℕ, ◌==◌, ◌∷◌, ◌≡◌, ◌≢◌, ◌≤◌,
}

respond_leader-nodes : (c : Cluster) (leader : Option ℕ) → (respond_leader c leader).nodes ≡ c.nodes
unfolding respond_leader
respond_leader-nodes c none = refl
respond_leader-nodes c (some l) = refl

respond_leader-leader :
    (c : Cluster) (leader : Option ℕ) → (respond_leader c leader).leader_id ≡ c.leader_id
unfolding respond_leader
respond_leader-leader c none = refl
respond_leader-leader c (some l) = refl

-- A peer that is added is a fresh node under its id, and every other node is as it was; an id that
-- is taken is refused, and nothing changes.
pub add_peer_lem :
    (c : Cluster) (p : Peer) (k : ℕ)
    → (is_some (get p.node_id c.nodes) ≡ false
        → get k (add_peer c p).0.nodes
          ≡ (if p.node_id == k then some (new_node p.node_id p.role) else get k c.nodes))
      × (is_some (get p.node_id c.nodes) ≡ true
          → ((add_peer c p).0 ≡ c)
            × ((add_peer c p).1
                ≡ err (invalid_request (format "duplicate raft node id {}" (p.node_id ∷ [])))))
unfolding add_peer refresh_replication_pipelines
add_peer_lem c p k = (
  λ h. rw h (rw respond_leader-nodes (get-insert p.node_id k (new_node p.node_id p.role) c.nodes)),
  λ h. rw h (refl, refl),
)

-- A node that is removed is gone and no longer the leader; every other node is as it was.
pub remove_peer_lem :
    (c : Cluster) (id k : ℕ)
    → is_some (get id c.nodes) ≡ true
    → (get k (remove_peer c id).0.nodes ≡ (if id == k then none else get k c.nodes))
      × ((remove_peer c id).0.leader_id ≢ some id)
unfolding remove_peer refresh_replication_pipelines
remove_peer_lem c id k h = elim (Option-cases (get id c.nodes)) [
  | inl e ↦ absurd (ground (arith, e))
  | inr (n, e) ↦
      rw (e, remove_peer)
        (rw respond_leader-nodes (get-remove id k c.nodes), rw respond_leader-leader (ground arith))
]

-- A promotion that succeeds was of a node whose match index reaches the commit index; the node
-- becomes a voter and a follower and is otherwise as it was, and no other node changes.
pub promote_peer_lem :
    (c : Cluster) (id k : ℕ)
    → (promote_peer c id).1 ≡ ok tt
    → (n : RaftNode) × ((get id c.nodes ≡ some n)
        × (c.commit_index ≤ match_index n)
        × (get k (promote_peer c id).0.nodes ≡ (
            if id == k
            then some (record n { replica_role = ReplicaRole.voter; raft_role = Role.follower })
            else get k c.nodes)))
unfolding promote_peer
promote_peer_lem c id k h = elim (Option-cases (get id c.nodes)) [
  | inl e ↦ absurd (ground (arith, e))
  | inr (n, e) ↦ elim (Bool-cases (ltb (match_index n) c.commit_index)) [
    | inl behind ↦ absurd (ground (arith, e))
    | inr caught_up ↦
        (n, (e, ground arith, rw (e, promote_peer, caught_up) (get-insert id k _ c.nodes)))
  ]
]

module _ (installed_id : ℕ → ℕ → String) (c : Cluster) (target : ℕ) (s : Snapshot)
    (f : ApplySnapshotFence) where
  abbrev installed : Outcome Cluster (Unit {0})
  installed = install_snapshot_to installed_id c target s f

  install_checks-ok :
      (n : RaftNode)
      → install_checks installed_id c target s f ≡ ok n
      → (get target c.nodes ≡ some n)
        × (s.group_id ≡ c.group_id)
        × (f.installed_snapshot_index ≡ s.meta.last_log_id.index)
  unfolding install_checks
  install_checks-ok n h = elim (Option-cases (get target c.nodes)) [
    | inl e ↦ absurd (ground (arith, e))
    | inr (m, e) ↦ ground (arith, e)
  ]

  -- A snapshot that a cluster takes is of its group and has a fence that names its index; the target
  -- is as `install_snapshot` leaves it, and then holds and has committed at least that much, and no
  -- other node changes.
  pub install_snapshot_to_lem :
      (k : ℕ)
      → installed.1 ≡ ok tt
      → (n : RaftNode) × ((get target c.nodes ≡ some n)
          × (s.group_id ≡ c.group_id)
          × (f.installed_snapshot_index ≡ s.meta.last_log_id.index)
          × (get k installed.0.nodes
              ≡ (if target == k then some (install_snapshot n s) else get k c.nodes))
          × (s.meta.last_log_id.index ≤ match_index (install_snapshot n s))
          × (s.meta.last_log_id.index ≤ (install_snapshot n s).commit_index))
  unfolding install_snapshot_to
  install_snapshot_to_lem k h = elim (Result-cases (install_checks installed_id c target s f)) [
    | inr (e, q) ↦ absurd (ground (arith, q))
    | inl (n, q) ↦
        let checked = install_checks-ok n q in
        (
          n,
          (
            checked.0,
            checked.1,
            checked.2,
            rw (q, get-insert target k (install_snapshot n s) c.nodes),
            le-match_index-install_snapshot n s,
            omega arith,
          ),
        )
  ]
