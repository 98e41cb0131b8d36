-- ===== src/Membership/Tests.antt =====
-- Memberships at concrete ids: runs, and one instance of each theorem.
use rust_raft.Base.{[], arith, false, inl, refl, ◌∷◌, ◌≡◌}
use rust_raft.Types.{Result, ok}
use rust_raft.Membership.{
  JointMembership, Membership, add_learner, joint_quorum_reached, promote_learner, quorum_reached,
}
use rust_raft.Membership.Quorum.{joint_quorum_intersection, quorum_intersection}
use rust_raft.Membership.Members.{IsDistinct, change-IsDistinct, learner_added}

abbrev three_and_witness : Membership
three_and_witness = record {
  group_id = 7;
  voters = 1 ∷ 2 ∷ 3 ∷ [];
  learners = 5 ∷ [];
  witnesses = 4 ∷ [];
  epoch = 1;
}

abbrev only_voters : Membership
only_voters = record {
  group_id = 7;
  voters = 1 ∷ 2 ∷ 3 ∷ [];
  learners = [];
  witnesses = [];
  epoch = 1;
}

abbrev joint : JointMembership
joint = record { old_voters = 1 ∷ 2 ∷ 3 ∷ []; new_voters = 2 ∷ 3 ∷ 4 ∷ [] }

-- The learner 5 becomes the last voter.
promoted : Result Membership
promoted = promote_learner three_and_witness 5

promoted_run :
    promoted
    ≡ ok (record three_and_witness { learners = []; voters = 1 ∷ 2 ∷ 3 ∷ 5 ∷ []; epoch = 2 })
unfolding promoted promote_learner
promoted_run = refl

quorum_intersection_example : quorum_reached three_and_witness (3 ∷ []) ≡ false
unfolding quorum_reached
quorum_intersection_example =
    quorum_intersection three_and_witness (1 ∷ 2 ∷ 4 ∷ []) (3 ∷ [])
      (refl, (refl, (refl, (refl, tt)))) refl

joint_quorum_intersection_example : joint_quorum_reached joint (1 ∷ 4 ∷ []) ≡ false
unfolding joint_quorum_reached
joint_quorum_intersection_example =
    joint_quorum_intersection joint (2 ∷ 3 ∷ []) (1 ∷ 4 ∷ []) (inl (refl, (refl, (refl, tt)))) refl

three_and_witness-IsDistinct : IsDistinct three_and_witness
three_and_witness-IsDistinct = record { once = λ a. ground arith }

change-IsDistinct_example :
    IsDistinct (record three_and_witness { learners = 5 ∷ 6 ∷ []; epoch = 2 })
unfolding add_learner
change-IsDistinct_example =
    change-IsDistinct (learner_added 6) three_and_witness
      (record three_and_witness { learners = 5 ∷ 6 ∷ []; epoch = 2 }) three_and_witness-IsDistinct
      refl
