-- ===== src/Cluster/Status.antt =====
-- RaftCluster::status and the decisions that read it (src/lib.rs).
use mathlib.Core.Path.{subst}
use rust_raft.Base.{
  Bool, List, Option, String, [], add_u64, any, arith, false, filter, find, if◌then◌else◌, leb, ltb,
  map, map_or, none, not, refl, saturating_sub, some, sym, true, ℕ, ◌&&◌, ◌+◌, ◌==◌, ◌↔◌, ◌∷◌, ◌≡◌,
  ◌≢◌, ◌≤◌,
}
use rust_raft.Base.BTreeMap.{get, values}
use rust_raft.Types.{LogEntry, LogId, Result, Role, is_learner, node_not_found, ok, ok_or, ◌>>=◌}
use rust_raft.Node.{RaftNode, match_index, snapshot_index}
use rust_raft.Reads.{ReadIndexRequest}
use rust_raft.Cluster.State.{Cluster}
use rust_raft.Cluster.Replicate.{AppendEntriesRequest}

pub record PeerStatus : Type 0 where
  pub node_id : ℕ
  pub matched : ℕ
  pub next_index : ℕ
  pub learner : Bool
  pub healthy : Bool
  pub lag : ℕ

pub record StatusSnapshot : Type 0 where
  pub group_id : ℕ
  pub node_id : ℕ
  pub role : Role
  pub term : ℕ
  pub leader_id : Option ℕ
  pub commit_index : ℕ
  pub applied_index : ℕ
  pub last_log_index : ℕ
  pub last_snapshot_index : ℕ
  pub peers : List PeerStatus

unfoldable pub peer_status : RaftNode → RaftNode → PeerStatus
unfolding match_index is_learner
peer_status node peer = record {
  node_id = peer.id;
  matched = match_index peer;
  next_index = add_u64 (match_index peer) 1;
  learner = is_learner peer.replica_role;
  healthy = peer.healthy;
  lag = saturating_sub (match_index node) (match_index peer);
}

unfoldable pub peer_statuses : ℕ → RaftNode → List RaftNode → List PeerStatus
unfolding peer_status
peer_statuses node_id node nodes =
    map (peer_status node) (filter (λ (n : RaftNode). not (n.id == node_id)) nodes)

unfoldable pub node_status : Cluster → ℕ → RaftNode → StatusSnapshot
unfolding peer_statuses match_index snapshot_index values
node_status c node_id node = record {
  group_id = c.group_id;
  node_id = node_id;
  role = node.raft_role;
  term = node.hard_state.current_term;
  leader_id = c.leader_id;
  commit_index = node.commit_index;
  applied_index = node.applied_index;
  last_log_index = match_index node;
  last_snapshot_index = snapshot_index node.installed_snapshot;
  peers = peer_statuses node_id node (values c.nodes);
}

unfoldable pub status : Cluster → ℕ → Result StatusSnapshot
unfolding get node_status
status c node_id = do
  node ← ok_or (node_not_found node_id) (get node_id c.nodes)
  ok (node_status c node_id node)

pub record ReadSafetyDecision : Type 0 where
  pub safe : Bool
  pub read_index : ℕ
  pub lease_read : Bool
  pub reason : String

unfoldable pub is_leader_role : Role → Bool
is_leader_role Role.leader = true
is_leader_role _ = false

-- A refused read.
abbrev unsafe_read : StatusSnapshot → String → ReadSafetyDecision
unsafe_read s reason = record {
  safe = false;
  read_index = s.commit_index;
  lease_read = false;
  reason = reason;
}

unfoldable pub read_safety_decision : StatusSnapshot → ReadIndexRequest → ReadSafetyDecision
unfolding is_leader_role
read_safety_decision s r =
    if not (s.group_id == r.group_id)
    then unsafe_read s "group_mismatch"
    else if not (is_leader_role s.role)
    then unsafe_read s "not_leader"
    else if ltb s.applied_index r.min_commit_index
    then unsafe_read s "apply_lag"
    else record {
      safe = true;
      read_index = s.commit_index;
      lease_read = r.allow_lease_read;
      reason = "safe";
    }

pub record LearnerPromotionDecision : Type 0 where
  pub promotable : Bool
  pub learner_id : ℕ
  pub learner_match_index : ℕ
  pub required_match_index : ℕ
  pub reason : String

-- The decision on the peer that was found.
unfoldable pub decide_promotion : ℕ → ℕ → Option PeerStatus → LearnerPromotionDecision
decide_promotion learner_id required none = record {
  promotable = false;
  learner_id = learner_id;
  learner_match_index = 0;
  required_match_index = required;
  reason = "learner_missing";
}
decide_promotion learner_id required (some peer) =
    let promotable = peer.learner && (peer.healthy && leb required peer.matched) in
    record {
      promotable = promotable;
      learner_id = learner_id;
      learner_match_index = peer.matched;
      required_match_index = required;
      reason = if promotable then "caught_up" else "not_caught_up";
    }

unfoldable pub learner_promotion_decision : StatusSnapshot → ℕ → ℕ → LearnerPromotionDecision
unfolding decide_promotion
learner_promotion_decision s learner_id max_lag =
    decide_promotion learner_id (saturating_sub s.commit_index max_lag)
      (find (λ (p : PeerStatus). p.node_id == learner_id) s.peers)

pub record AppendSafetyDecision : Type 0 where
  pub accepted : Bool
  pub rejected_compacted_entry : Bool
  pub reason : String

unfoldable pub append_safety_decision : ℕ → ℕ → AppendEntriesRequest → AppendSafetyDecision
append_safety_decision first_retained snapshot r =
    let prev = map_or 0 (λ (i : LogId). i.index) r.prev_log_id in
    if ltb 0 prev && (ltb prev first_retained && leb prev snapshot)
    then record { accepted = false; rejected_compacted_entry = true; reason = "prev_log_compacted" }
    else if any (λ (e : LogEntry). ltb e.log_id.index first_retained) r.entries
    then record { accepted = false; rejected_compacted_entry = true; reason = "entry_compacted" }
    else record { accepted = true; rejected_compacted_entry = false; reason = "accepted" }

find_peer :
    (node_id id : ℕ) (node peer : RaftNode) (ns : List RaftNode)
    → id ≢ node_id
    → find (λ (n : RaftNode). n.id == id) ns ≡ some peer
    → find (λ (p : PeerStatus). p.node_id == id) (peer_statuses node_id node ns)
      ≡ some (peer_status node peer)
unfolding peer_statuses peer_status
find_peer node_id id node peer [] apart found = ground (arith, found)
find_peer node_id id node peer (n ∷ ns) apart found =
    ground (arith, found, find_peer node_id id node peer ns apart)

decide_promotion-some :
    (id commit max_lag : ℕ) (p : PeerStatus)
    → ((decide_promotion id (saturating_sub commit max_lag) (some p)).promotable ≡ true)
      ↔ (p.learner ≡ true) × (p.healthy ≡ true) × (commit ≤ p.matched + max_lag)
unfolding decide_promotion
decide_promotion-some id commit max_lag p = (λ h. ground arith, λ h. ground arith)

-- Where another node has this id, the decision on a node's status promotes it exactly if it is a
-- healthy learner, at most `max_lag` entries behind what the node has committed.
pub learner_promotion_decision-status :
    (c : Cluster) (node_id id max_lag : ℕ) (node peer : RaftNode)
    → id ≢ node_id
    → get node_id c.nodes ≡ some node
    → find (λ (n : RaftNode). n.id == id) (values c.nodes) ≡ some peer
    → (s : StatusSnapshot) × (status c node_id ≡ ok s)
      × (((learner_promotion_decision s id max_lag).promotable ≡ true)
          ↔ (is_learner peer.replica_role ≡ true)
            × (peer.healthy ≡ true)
            × (node.commit_index ≤ match_index peer + max_lag))
unfolding status learner_promotion_decision
learner_promotion_decision-status c node_id id max_lag node peer apart held found =
    let at_peer = find_peer node_id id node peer (values c.nodes) apart found in
    (
      node_status c node_id node,
      rw held refl,
      subst
          (λ (o : Option PeerStatus).
            ((decide_promotion id (saturating_sub node.commit_index max_lag) o).promotable ≡ true)
            ↔ (is_learner peer.replica_role ≡ true)
              × (peer.healthy ≡ true)
              × (node.commit_index ≤ match_index peer + max_lag))
          (sym at_peer)
          (unfold peer_status in
            decide_promotion-some id node.commit_index max_lag (peer_status node peer)),
    )
