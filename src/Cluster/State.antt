-- ===== src/Cluster/State.antt =====
-- The state of a cluster, and what its methods recompute from the nodes (src/lib.rs).
use rust_raft.Types.{
  ReplicaRole, can_serve_data, is_learner, is_voter, is_witness, participates_in_quorum,
}
use rust_raft.Base.BTreeMap.{BTreeMap, get, insert, keys, map_values, modify, values}
use rust_raft.Base.{
  Bool, List, Option, [], add_u64, filter, get_elem?, if◌then◌else◌, is_empty, is_some, leb, length,
  map, map_or, max, maximum, minimum, none, saturating_sub, some, true, ℕ, ◌&&◌, ◌+◌, ◌/◌, ◌∷◌,
}
use rust_raft.Config.{Config}
use rust_raft.Node.{RaftNode, advance_commit, match_index}
use rust_raft.Membership.{Membership}
use rust_raft.Pipeline.State.{
  AppendEntriesResponse, ReplicationPipeline, new_pipeline, production_default,
}
use rust_raft.Pipeline.Append.{handle_append_response}

pub record Cluster : Type 0 where
  pub group_id : ℕ
  pub config : Config
  pub nodes : BTreeMap RaftNode
  pub peer_pipelines : BTreeMap ReplicationPipeline
  pub leader_id : Option ℕ
  pub current_term : ℕ
  pub commit_index : ℕ
  pub applied_index : ℕ
  pub last_log_index : ℕ
  pub is_running : Bool
  pub leader_lease_valid : Bool

unfoldable pub node_ids : Cluster → List ℕ
unfolding keys
node_ids c = keys c.nodes

unfoldable pub ids_with : (ReplicaRole → Bool) → Cluster → List ℕ
unfolding values
ids_with p c = map (λ n. n.id) (filter (λ (n : RaftNode). p n.replica_role) (values c.nodes))

-- RaftCluster::membership
unfoldable pub membership : Cluster → Membership
unfolding ids_with is_voter is_learner is_witness
membership c = record {
  group_id = c.group_id;
  voters = ids_with is_voter c;
  learners = ids_with is_learner c;
  witnesses = ids_with is_witness c;
  epoch = c.current_term;
}

unfoldable pub takes_part : RaftNode → Bool
unfolding participates_in_quorum
takes_part n = participates_in_quorum n.replica_role

unfoldable pub live_participant : RaftNode → Bool
unfolding takes_part
live_participant n = n.healthy && takes_part n

-- RaftCluster::quorum_size, over its nodes
unfoldable pub quorum_size : List RaftNode → ℕ
unfolding takes_part
quorum_size nodes = length (filter takes_part nodes) / 2 + 1

unfoldable pub has_live_quorum : Cluster → Bool
unfolding quorum_size live_participant values
has_live_quorum c =
    leb (quorum_size (values c.nodes)) (length (filter live_participant (values c.nodes)))

-- sort_unstable
unfoldable pub insert_sorted : ℕ → List ℕ → List ℕ
insert_sorted x [] = x ∷ []
insert_sorted x (y ∷ ys) = if leb x y then x ∷ y ∷ ys else y ∷ insert_sorted x ys

unfoldable pub sort : List ℕ → List ℕ
unfolding insert_sorted
sort [] = []
sort (x ∷ xs) = insert_sorted x (sort xs)

abbrev pub get_or : List ℕ → ℕ → ℕ → ℕ
get_or xs i d = map_or d (λ x. x) (get_elem? xs i)

-- candidate_indexes of `refresh_commit_index`
unfoldable pub candidate_indexes : List RaftNode → List ℕ
unfolding live_participant match_index
candidate_indexes nodes = map match_index (filter live_participant nodes)

-- The commit index that the candidates allow.
unfoldable pub quorum_commit : List RaftNode → ℕ
unfolding candidate_indexes quorum_size sort
quorum_commit nodes =
    let candidates = candidate_indexes nodes in
    get_or (sort candidates) (saturating_sub (length candidates) (quorum_size nodes)) 0

unfoldable pub refresh_cluster_indexes : Cluster → Cluster
unfolding match_index can_serve_data values
refresh_cluster_indexes c =
    let nodes = values c.nodes in
    record c {
      commit_index = maximum (map (λ n. n.commit_index) nodes);
      applied_index = minimum (
          map (λ n. n.applied_index)
            (filter (λ (n : RaftNode). can_serve_data n.replica_role) nodes));
      last_log_index = maximum (map match_index nodes);
    }

unfoldable pub advance_healthy : ℕ → RaftNode → RaftNode
unfolding advance_commit
advance_healthy commit n = if n.healthy then advance_commit n commit else n

unfoldable pub refresh_commit_index : Cluster → Cluster
unfolding quorum_commit refresh_cluster_indexes map_values advance_healthy
refresh_commit_index c =
    if is_empty (candidate_indexes (values c.nodes))
    then c
    else let commit = max c.commit_index (quorum_commit (values c.nodes)) in
      refresh_cluster_indexes
        (record c { commit_index = commit; nodes = map_values (advance_healthy commit) c.nodes })

-- peer_pipelines.entry(id).or_insert_with(..) for each node
unfoldable pub ensure_pipelines :
    BTreeMap RaftNode → BTreeMap ReplicationPipeline → BTreeMap ReplicationPipeline
unfolding match_index insert get new_pipeline
ensure_pipelines [] pipelines = pipelines
ensure_pipelines ((id, node) ∷ nodes) pipelines = ensure_pipelines nodes (
    if is_some (get id pipelines)
    then pipelines
    else insert id (new_pipeline id (add_u64 (match_index node) 1) production_default) pipelines)

-- A successful response of the peer, up to an index.
abbrev pub accepted_up_to : ℕ → ℕ → AppendEntriesResponse
accepted_up_to term index = record {
  term = term;
  success = true;
  match_index = index;
  rejection_hint = none;
}

-- pipeline.handle_append_response(..), the result dropped
unfoldable pub respond_to : AppendEntriesResponse → ReplicationPipeline → ReplicationPipeline
unfolding handle_append_response
respond_to r p = (handle_append_response p r).0

unfoldable pub respond_leader : Cluster → Option ℕ → Cluster
unfolding modify respond_to
respond_leader c none = c
respond_leader c (some leader) = record c {
  peer_pipelines =
      modify leader (respond_to (accepted_up_to c.current_term c.last_log_index)) c.peer_pipelines;
}

unfoldable pub refresh_replication_pipelines : Cluster → Cluster
unfolding ensure_pipelines respond_leader
refresh_replication_pipelines c =
    respond_leader (record c { peer_pipelines = ensure_pipelines c.nodes c.peer_pipelines })
      c.leader_id
