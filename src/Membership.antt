-- ===== src/Membership.antt =====
-- RustRaftMembership and RustRaftJointMembership (src/lib.rs): quorums and the changes of members.
pub mod Quorum
pub mod Members
mod Tests
use rust_raft.Base.{
  Bool, List, Option, String, [], add_u64, contains, filter, if◌then◌else◌, leb, length, none, not,
  position, remove_at, saturating_sub, some, ℕ, ◌&&◌, ◌++◌, ◌+◌, ◌/◌, ◌==◌, ◌||◌, ◌∷◌,
}
use rust_raft.Types.{
  Result, err, format, invalid_request, is_learner, node_not_found, ok, ◌>>=◌, ◌>>◌,
}

pub record Membership : Type 0 where
  pub group_id : ℕ
  pub voters : List ℕ
  pub learners : List ℕ
  pub witnesses : List ℕ
  pub epoch : ℕ

-- iter().filter(|id| acknowledgements.contains(id)).count()
unfoldable pub count_acknowledged : List ℕ → List ℕ → ℕ
count_acknowledged acks nodes = length (filter (λ n. contains n acks) nodes)

unfoldable pub quorum_size : Membership → ℕ
quorum_size m = (length m.voters + length m.witnesses) / 2 + 1

unfoldable pub quorum_reached : Membership → List ℕ → Bool
unfolding count_acknowledged quorum_size
quorum_reached m acks = leb (quorum_size m) (count_acknowledged acks (m.voters ++ m.witnesses))

pub record JointMembership : Type 0 where
  pub old_voters : List ℕ
  pub new_voters : List ℕ

unfoldable pub old_quorum_size : JointMembership → ℕ
old_quorum_size j = length j.old_voters / 2 + 1

unfoldable pub new_quorum_size : JointMembership → ℕ
new_quorum_size j = length j.new_voters / 2 + 1

-- RustRaftJointMembership::quorum_reached
unfoldable pub joint_quorum_reached : JointMembership → List ℕ → Bool
unfolding count_acknowledged old_quorum_size new_quorum_size
joint_quorum_reached j acks =
    leb (old_quorum_size j) (count_acknowledged acks j.old_voters)
    && leb (new_quorum_size j) (count_acknowledged acks j.new_voters)

unfoldable pub ensure_absent : Membership → ℕ → Result (Unit {0})
ensure_absent m node_id =
    if contains node_id m.voters || (contains node_id m.learners || contains node_id m.witnesses)
    then err (invalid_request (format "node {} is already a member" (node_id ∷ [])))
    else ok tt

-- The methods on `&mut self` return the new membership; on an error it is the old one.
unfoldable pub add_learner : Membership → ℕ → Result Membership
unfolding ensure_absent
add_learner m node_id = do
  ensure_absent m node_id
  ok (record m { learners = m.learners ++ node_id ∷ []; epoch = add_u64 m.epoch 1 })

unfoldable pub add_witness : Membership → ℕ → Result Membership
unfolding ensure_absent
add_witness m node_id = do
  ensure_absent m node_id
  ok (record m { witnesses = m.witnesses ++ node_id ∷ []; epoch = add_u64 m.epoch 1 })

unfoldable pub promote_learner : Membership → ℕ → Result Membership
promote_learner m node_id = elim (position (λ l. l == node_id) m.learners) [
  | none ↦ err (invalid_request (format "node {} is not a learner" (node_id ∷ [])))
  | some i ↦ ok (record m {
    learners = remove_at i m.learners;
    voters = m.voters ++ node_id ∷ [];
    epoch = add_u64 m.epoch 1;
  })
]

-- The list less the first occurrence, if it has one.
unfoldable pub remove_node : List ℕ → ℕ → Option (List ℕ)
remove_node nodes node_id = elim (position (λ n. n == node_id) nodes) [
  | none ↦ none
  | some i ↦ some (remove_at i nodes)
]

-- `||` stops at the first list that held the node.
unfoldable pub remove_peer : Membership → ℕ → Result Membership
unfolding remove_node
remove_peer m node_id = elim (remove_node m.voters node_id) [
  | some vs ↦ ok (record m { voters = vs; epoch = add_u64 m.epoch 1 })
  | none ↦ elim (remove_node m.learners node_id) [
    | some ls ↦ ok (record m { learners = ls; epoch = add_u64 m.epoch 1 })
    | none ↦ elim (remove_node m.witnesses node_id) [
      | some ws ↦ ok (record m { witnesses = ws; epoch = add_u64 m.epoch 1 })
      | none ↦ err (node_not_found node_id)
    ]
  ]
]

pub record LearnerCatchUpReport : Type 0 where
  pub learner_id : ℕ
  pub learner_match_index : ℕ
  pub leader_commit_index : ℕ
  pub caught_up : Bool
  pub lag : ℕ
  pub promotable : Bool
  pub reason : String

unfoldable pub catchup_report : Membership → ℕ → ℕ → ℕ → LearnerCatchUpReport
catchup_report m learner_id learner_match_index leader_commit_index =
    let is_learner = contains learner_id m.learners in
    let caught_up = is_learner && leb leader_commit_index learner_match_index in
    record {
      learner_id = learner_id;
      learner_match_index = learner_match_index;
      leader_commit_index = leader_commit_index;
      caught_up = caught_up;
      lag = saturating_sub leader_commit_index learner_match_index;
      promotable = caught_up;
      reason =
          if not is_learner
          then "node_is_not_learner"
          else if caught_up
          then "learner_caught_up"
          else "learner_lagging";
    }
