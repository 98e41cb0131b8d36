-- ===== src/Cluster/Tests.antt =====
-- A cluster of three voters: runs, and one instance of each theorem.
use rust_raft.Cluster.Members.{promote_peer}
use rust_raft.Cluster.Install.{install_snapshot_to}
use rust_raft.Cluster.Changes.{install_snapshot_to_lem, promote_peer_lem}
use rust_raft.Cluster.State.{
  Cluster, candidate_indexes, has_live_quorum, node_ids, quorum_commit, quorum_size,
  refresh_commit_index,
}
use rust_raft.Cluster.Election.{Peer, campaign, transfer_leader}
use rust_raft.Pipeline.State.{ReplicationPipeline, new_pipeline, production_default}
use rust_raft.Node.{RaftNode, append_entry, install_snapshot, match_index}
use rust_raft.Base.BTreeMap.{get, values}
use rust_raft.Base.{
  Bool, List, String, [], arith, false, if◌then◌else◌, maximum, none, refl, some, true, ℕ, ◌<◌,
  ◌==◌, ◌↔◌, ◌∷◌, ◌≡◌, ◌≤◌, ◌⊎◌,
}
use rust_raft.Types.{
  ApplySnapshotFence, LogEntry, LogId, ReplicaRole, Role, Snapshot, can_be_leader, can_serve_data,
  err, format, invalid_request, ok,
}
use rust_raft.Config.{default_config}
use rust_raft.Reads.{ReadIndexRequest}
use rust_raft.Pipeline.Append.{queue_append}
use rust_raft.Fences.{validate_snapshot_install}
use rust_raft.Snapshot.{meta_eq}
use rust_raft.Snapshot.Lifecycle.{InstallSnapshotRequest}
use rust_raft.Cluster.Chunks.{
  accepted, fence_of, install_snapshot_chunk_to, install_snapshot_chunk_to_lem, next_offset_of,
}
use rust_raft.Cluster.Replicate.{AppendEntriesRequest, next_log_id, propose, propose_to}
use rust_raft.Cluster.Reads.{
  MayRead, ReadIndexResponse, ReadPathReport, build_report, read_index, read_index-MayRead,
}
use rust_raft.Cluster.Proposals.{propose_lem, receives}
use rust_raft.Cluster.Commit.{commits, count_ge, quorum_commit-least, refresh_commit_index-held}
use rust_raft.Cluster.Terms.{Follows, HasIds, campaign-elects, transfer_leader-caught_up}

abbrev entry : ℕ → LogEntry
entry index = record { log_id = record { term = 1; index = index }; payload = index ∷ [] }

abbrev node_with : ℕ → Role → List LogEntry → RaftNode
node_with id role log = record {
  id = id;
  replica_role = ReplicaRole.voter;
  raft_role = role;
  hard_state = record { current_term = 1; voted_for = some 1; committed = none };
  log = log;
  installed_snapshot = none;
  commit_index = 0;
  applied_index = 0;
  healthy = true;
}

-- The leader 1 and the follower 2 hold two entries, the follower 3 one.
abbrev leader : RaftNode
leader = node_with 1 Role.leader (entry 1 ∷ entry 2 ∷ [])

abbrev second : RaftNode
second = node_with 2 Role.follower (entry 1 ∷ entry 2 ∷ [])

abbrev third : RaftNode
third = node_with 3 Role.follower (entry 1 ∷ [])

abbrev pipeline : ℕ → ReplicationPipeline
pipeline id = new_pipeline id 1 production_default

abbrev trio : Cluster
trio = record {
  group_id = 7;
  config = default_config;
  nodes = (1, leader) ∷ (2, second) ∷ (3, third) ∷ [];
  peer_pipelines = (1, pipeline 1) ∷ (2, pipeline 2) ∷ (3, pipeline 3) ∷ [];
  leader_id = some 1;
  current_term = 1;
  commit_index = 0;
  applied_index = 0;
  last_log_index = 2;
  is_running = true;
  leader_lease_valid = true;
}

commit_run : (refresh_commit_index trio).commit_index ≡ 2
unfolding refresh_commit_index values match_index
commit_run = refl

refresh_commit_index-held_example :
    let nodes = values trio.nodes in
    let commit = (refresh_commit_index trio).commit_index in
    (maximum (commits trio.nodes) ≤ commit)
    × ((commit ≤ 0) ⊎ (quorum_size nodes ≤ count_ge commit (candidate_indexes nodes)))
unfolding has_live_quorum values
refresh_commit_index-held_example = refresh_commit_index-held trio refl (omega arith)

-- The leader is alone: its own index is what the rule gives.
quorum_commit-least_example : quorum_commit (leader ∷ record second { healthy = false } ∷ []) ≡ 2
unfolding candidate_indexes quorum_size match_index
quorum_commit-least_example =
    quorum_commit-least (leader ∷ record second { healthy = false } ∷ []) (omega arith)

abbrev next_id : LogId
next_id = record { term = 1; index = 3 }

propose_lem_example :
    (l : ℕ) × ((trio.leader_id ≡ some l)
      × (next_id ≡ next_log_id trio)
      × ((k : ℕ) (n : RaftNode)
          → get k trio.nodes ≡ some n
          → (n' : RaftNode) × ((get k (propose trio (5 ∷ [])).0.nodes ≡ some n')
              × (n'.log ≡ (
                  if receives trio.peer_pipelines l k n
                  then (append_entry n (record { log_id = next_id; payload = 5 ∷ [] })).log
                  else n.log)))))
unfolding propose get node_ids append_entry match_index can_serve_data new_pipeline queue_append
    propose_to
propose_lem_example = propose_lem trio (5 ∷ []) next_id (refl, (refl, (refl, tt))) refl

trio-HasIds : HasIds trio
unfolding get
trio-HasIds = record { own_id = λ k n h. ground arith }

campaign-elects_example :
    let c' = (campaign trio 2 false).0 in
    (c'.leader_id ≡ some 2)
    × (c'.current_term ≡ 2)
    × ((m : RaftNode) × ((get 2 trio.nodes ≡ some m)
          × (can_be_leader m.replica_role ≡ true)
          × (m.healthy ≡ true)))
    × ((k : ℕ) (n : RaftNode)
        → get k trio.nodes ≡ some n
        → (n' : RaftNode) × ((get k c'.nodes ≡ some n') × Follows c' 2 k n'))
unfolding campaign get can_be_leader
campaign-elects_example = campaign-elects trio 2 false trio-HasIds (omega arith) refl

transfer_leader-caught_up_example :
    (n : RaftNode) × ((get 2 trio.nodes ≡ some n)
      × (0 ≤ match_index n)
      × ((transfer_leader trio 2).0.leader_id ≡ some 2))
unfolding transfer_leader get can_be_leader match_index
transfer_leader-caught_up_example = transfer_leader-caught_up trio 2 refl

abbrev request : AppendEntriesRequest
request = record {
  group_id = 7;
  term = 2;
  leader_id = 2;
  prev_log_id = some (record { term = 1; index = 1 });
  entries = entry 2 ∷ [];
  leader_commit = 2;
}

abbrev read_at_zero : ReadIndexRequest
read_at_zero = record {
  group_id = 7;
  requester_id = 1;
  min_commit_index = 0;
  allow_lease_read = true;
}

abbrev lease_answer : ReadIndexResponse
lease_answer = record { safe = true; read_index = 0; lease_read = true; reason = "lease_read" }

read_index-MayRead_example :
    ((lease_answer.safe ≡ true) ↔ MayRead trio read_at_zero leader)
    × (lease_answer.read_index ≡ leader.commit_index)
unfolding read_index get has_live_quorum values
read_index-MayRead_example = read_index-MayRead trio read_at_zero leader lease_answer refl refl

abbrev lease_report : ReadPathReport
lease_report = build_report trio read_at_zero leader 5 lease_answer

abbrev joining : Peer
joining = record {
  node_id = 4;
  raft_addr = "a";
  snapshot_addr = "b";
  role = ReplicaRole.learner;
  auto_promote = false;
}

promote_peer_lem_example :
    (n : RaftNode) × ((get 3 trio.nodes ≡ some n)
      × (0 ≤ match_index n)
      × (get 3 (promote_peer trio 3).0.nodes ≡ (
          if 3 == 3
          then some (record n { replica_role = ReplicaRole.voter; raft_role = Role.follower })
          else get 3 trio.nodes)))
unfolding promote_peer get match_index
promote_peer_lem_example = promote_peer_lem trio 3 3 refl

abbrev snapshot : Snapshot
snapshot = record {
  group_id = 7;
  meta = record {
    snapshot_id = "s";
    last_log_id = record { term = 1; index = 2 };
    membership = 1 ∷ 2 ∷ 3 ∷ [];
  };
  payload = 9 ∷ [];
}

abbrev fence : ApplySnapshotFence
fence = record {
  applied_index = 2;
  commit_index = 2;
  installed_snapshot_index = 2;
  first_retained_log_index = 3;
}

abbrev one_id : ℕ → ℕ → String
one_id target index = "installed-3-2"

install_snapshot_to_lem_example :
    let installed = install_snapshot_to one_id trio 3 snapshot fence in
    (n : RaftNode) × ((get 3 trio.nodes ≡ some n)
      × (snapshot.group_id ≡ trio.group_id)
      × (fence.installed_snapshot_index ≡ snapshot.meta.last_log_id.index)
      × (get 3 installed.0.nodes
          ≡ (if 3 == 3 then some (install_snapshot n snapshot) else get 3 trio.nodes))
      × (2 ≤ match_index (install_snapshot n snapshot))
      × (2 ≤ (install_snapshot n snapshot).commit_index))
unfolding install_snapshot_to validate_snapshot_install get
install_snapshot_to_lem_example = install_snapshot_to_lem one_id trio 3 snapshot fence 3 refl

abbrev part : ℕ → Bool → InstallSnapshotRequest
part offset is_done = record {
  group_id = 7;
  term = 2;
  leader_id = 1;
  chunk = record { meta = snapshot.meta; offset = offset; bytes = 9 ∷ []; is_done = is_done };
}

-- The two chunks of a snapshot of two bytes: the first is accepted, the second refused.
two_chunks_run :
    ((install_snapshot_chunk_to one_id trio 3 (part 0 false)).0 ≡ trio)
    × ((install_snapshot_chunk_to one_id trio 3 (part 1 true)).1
        ≡ err (
            invalid_request
              (format "snapshot chunk offset {} does not match next offset {}" (1 ∷ 0 ∷ []))))
unfolding install_snapshot_chunk_to meta_eq
two_chunks_run = (refl, refl)

install_snapshot_chunk_to_lem_example :
    let r = part 1 true in
    let answered = install_snapshot_chunk_to one_id trio 3 r in
    (true ≡ false
      → (answered.0 ≡ trio)
        × (answered.1 ≡ ok (accepted 2 (next_offset_of r) "snapshot_chunk_accepted")))
    × (true ≡ true
        → r.chunk.offset ≡ 0
        → let s : Snapshot = record { group_id = 7; meta = snapshot.meta; payload = 9 ∷ [] } in
          answered.0 ≡ (install_snapshot_to one_id trio 3 s (fence_of s)).0)
    × (true ≡ true
        → 0 < r.chunk.offset
        → (answered.0 ≡ trio)
          × (answered.1
              ≡ err (
                  invalid_request (
                    format "snapshot chunk offset {} does not match next offset {}" (1 ∷ 0 ∷ [])))))
install_snapshot_chunk_to_lem_example =
    install_snapshot_chunk_to_lem one_id trio 3 (part 1 true) refl
