-- ===== src/Cluster/Election.antt =====
-- Starting, stopping, campaigning, pre-votes and transfers of leadership (src/lib.rs).
use rust_raft.Types.{
  Outcome, ReplicaRole, Result, Role, can_be_leader, err, format, invalid_request, literal,
  node_not_found, ok, ok_or, reject_if, ◌>>=◌, ◌>>◌,
}
use rust_raft.Base.BTreeMap.{BTreeMap, get, insert, map_values, modify, values}
use rust_raft.Base.{
  Bool, List, Option, String, [], add_u64, any, false, find, if◌then◌else◌, is_empty, is_some, ltb,
  none, not, opt_eq, some, true, ℕ, ◌&&◌, ◌==◌, ◌∷◌,
}
use rust_raft.Config.{Config, check_config}
use rust_raft.Node.{RaftNode, match_index, new_node, resting_role}
use rust_raft.Pipeline.State.{ReplicationPipeline, new_pipeline, production_default}
use rust_raft.Cluster.State.{Cluster, has_live_quorum, refresh_replication_pipelines}

pub record Peer : Type 0 where
  pub node_id : ℕ
  pub raft_addr : String
  pub snapshot_addr : String
  pub role : ReplicaRole
  pub auto_promote : Bool

-- The nodes of the peers; a second peer with the same id is an error.
unfoldable pub insert_peers : BTreeMap RaftNode → List Peer → Result (BTreeMap RaftNode)
unfolding insert get new_node
insert_peers nodes [] = ok nodes
insert_peers nodes (p ∷ peers) =
    if is_some (get p.node_id nodes)
    then err (invalid_request (format "duplicate raft node id {}" (p.node_id ∷ [])))
    else insert_peers (insert p.node_id (new_node p.node_id p.role) nodes) peers

unfoldable pub has_candidate : BTreeMap RaftNode → Bool
unfolding values can_be_leader
has_candidate nodes = any (λ (n : RaftNode). can_be_leader n.replica_role) (values nodes)

unfoldable pub pipelines_for : BTreeMap RaftNode → BTreeMap ReplicationPipeline
unfolding new_pipeline
pipelines_for [] = []
pipelines_for ((id, node) ∷ nodes) =
    (id, new_pipeline id 1 production_default) ∷ pipelines_for nodes

-- RaftCluster::new
unfoldable pub new_cluster : ℕ → Config → List Peer → Result Cluster
unfolding check_config insert_peers has_candidate pipelines_for
new_cluster group_id config peers = do
  check_config config
  reject_if (is_empty peers) (invalid_request (literal "raft cluster requires at least one peer"))
  nodes ← insert_peers [] peers
  reject_if (not (has_candidate nodes))
      (invalid_request (literal "raft cluster requires at least one voter"))
  ok (record {
    group_id = group_id;
    config = config;
    nodes = nodes;
    peer_pipelines = pipelines_for nodes;
    leader_id = none;
    current_term = 0;
    commit_index = 0;
    applied_index = 0;
    last_log_index = 0;
    is_running = false;
    leader_lease_valid = false;
  })

-- A node after the candidate has won the term.
unfoldable pub vote_for : ℕ → ℕ → RaftNode → RaftNode
unfolding resting_role
vote_for term candidate n = record n {
  hard_state = record n.hard_state { current_term = term; voted_for = some candidate };
  raft_role = if n.id == candidate then Role.leader else resting_role n.replica_role;
}

-- The candidate's term begins.
unfoldable pub win : Cluster → ℕ → Cluster
unfolding vote_for map_values refresh_replication_pipelines
win c candidate =
    let term = add_u64 c.current_term 1 in
    refresh_replication_pipelines (record c {
      current_term = term;
      leader_id = some candidate;
      leader_lease_valid = true;
      nodes = map_values (vote_for term candidate) c.nodes;
    })

-- The tests that `campaign` and `transfer_leader` share.
unfoldable pub check_candidate : RaftNode → ℕ → Result (Unit {0})
unfolding can_be_leader
check_candidate node candidate = do
  reject_if (not (can_be_leader node.replica_role))
      (invalid_request (format "node {} cannot become leader" (candidate ∷ [])))
  reject_if (not node.healthy) (invalid_request (format "node {} is not healthy" (candidate ∷ [])))

unfoldable pub finish_campaign : Cluster → ℕ → Result (Unit {0}) → Outcome Cluster (Unit {0})
unfolding win
finish_campaign c candidate (err e) = (c, err e)
finish_campaign c candidate (ok _) = (win c candidate, ok tt)

unfoldable pub campaign_checks : Cluster → ℕ → Bool → Result (Unit {0})
unfolding check_candidate get
campaign_checks c candidate forced = do
  reject_if (not c.is_running && not forced)
      (invalid_request (literal "cannot campaign before cluster start"))
  node ← ok_or (node_not_found candidate) (get candidate c.nodes)
  check_candidate node candidate

unfoldable pub campaign : Cluster → ℕ → Bool → Outcome Cluster (Unit {0})
unfolding campaign_checks finish_campaign
campaign c candidate forced = finish_campaign c candidate (campaign_checks c candidate forced)

-- The first healthy voter, in the order of ids.
unfoldable pub first_candidate : Cluster → Option RaftNode
unfolding values can_be_leader
first_candidate c =
    find (λ (n : RaftNode). can_be_leader n.replica_role && n.healthy) (values c.nodes)

unfoldable pub start : Cluster → Outcome Cluster (Unit {0})
unfolding first_candidate campaign
start c =
    let running : Cluster = record c { is_running = true } in
    if is_some c.leader_id then (running, ok tt) else elim (first_candidate c) [
      | none ↦ (running, err (invalid_request (literal "no healthy voter")))
      | some node ↦ campaign running node.id true
    ]

unfoldable pub stop : Cluster → Cluster
stop c = record c { is_running = false; leader_lease_valid = false }

unfoldable pub set_node_healthy : Cluster → ℕ → Bool → Outcome Cluster (Unit {0})
unfolding get modify
set_node_healthy c node_id healthy = elim (get node_id c.nodes) [
  | none ↦ (c, err (node_not_found node_id))
  | some _ ↦ (
    record c {
      nodes = modify node_id (λ (n : RaftNode). record n { healthy = healthy }) c.nodes;
      leader_lease_valid =
          if opt_eq c.leader_id (some node_id) && not healthy then false else c.leader_lease_valid;
    },
    ok tt,
  )
]

unfoldable pub set_leader_lease_valid : Cluster → Bool → Cluster
set_leader_lease_valid c valid = record c { leader_lease_valid = valid }

pub record VoteResponse : Type 0 where
  pub term : ℕ
  pub vote_granted : Bool
  pub reason : String

abbrev refusal : Cluster → String → VoteResponse
refusal c reason = record { term = c.current_term; vote_granted = false; reason = reason }

unfoldable pub pre_vote : Cluster → ℕ → Result VoteResponse
unfolding get can_be_leader has_live_quorum
pre_vote c candidate = do
  node ← ok_or (node_not_found candidate) (get candidate c.nodes)
  ok (
      if not c.config.enable_pre_vote
      then refusal c "pre_vote_disabled"
      else if not (can_be_leader node.replica_role)
      then refusal c "candidate_cannot_be_leader"
      else if not node.healthy
      then refusal c "candidate_unhealthy"
      else if not (has_live_quorum c)
      then refusal c "no_live_quorum"
      else record {
        term = add_u64 c.current_term 1;
        vote_granted = true;
        reason = "pre_vote_granted";
      })

unfoldable pub transfer_checks : Cluster → ℕ → Result (Unit {0})
unfolding check_candidate get match_index
transfer_checks c target = do
  node ← ok_or (node_not_found target) (get target c.nodes)
  check_candidate node target
  reject_if (ltb (match_index node) c.commit_index) (
      invalid_request
        (format "node {} is behind committed index {}" (target ∷ c.commit_index ∷ [])))

unfoldable pub then_campaign : Cluster → ℕ → Result (Unit {0}) → Outcome Cluster (Unit {0})
unfolding campaign
then_campaign c target (err e) = (c, err e)
then_campaign c target (ok _) = campaign c target true

unfoldable pub transfer_leader : Cluster → ℕ → Outcome Cluster (Unit {0})
unfolding transfer_checks then_campaign
transfer_leader c target = then_campaign c target (transfer_checks c target)
