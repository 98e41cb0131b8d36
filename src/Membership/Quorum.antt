-- ===== src/Membership/Quorum.antt =====
-- Quorums of RustRaftMembership and RustRaftJointMembership (src/lib.rs).
use rust_raft.Base.{
  List, [], append-nil, arith, contains, false, inl, inr, length, length-append, true, ℕ, ◌&&◌,
  ◌++◌, ◌+◌, ◌∷◌, ◌≡◌, ◌≤◌, ◌⊎◌,
}
use rust_raft.Membership.{
  JointMembership, Membership, count_acknowledged, joint_quorum_reached, quorum_reached,
}

-- Every node of the list is in one set of acknowledgements at most.
abbrev pub Disjoint : List ℕ → List ℕ → List ℕ → Type 0
Disjoint a b [] = Unit {0}
Disjoint a b (n ∷ ns) = ((contains n a && contains n b) ≡ false) × Disjoint a b ns

count-Disjoint :
    (a b nodes : List ℕ)
    → Disjoint a b nodes
    → count_acknowledged a nodes + count_acknowledged b nodes ≤ length nodes
unfolding count_acknowledged
count-Disjoint a b [] d = omega arith
count-Disjoint a b (n ∷ ns) d = ground (arith, count-Disjoint a b ns d.1)

-- Of two sets of acknowledgements that share no voter and no witness, one at most is a quorum.
pub quorum_intersection :
    (m : Membership) (a b : List ℕ)
    → Disjoint a b (m.voters ++ m.witnesses)
    → quorum_reached m a ≡ true
    → quorum_reached m b ≡ false
unfolding quorum_reached
quorum_intersection m a b d h =
    ground
      (arith, count-Disjoint a b (m.voters ++ m.witnesses) d, length-append m.voters m.witnesses)

-- Of two sets of acknowledgements that share no old voter, or share no new voter, one at most
-- decides while the change is joint.
pub joint_quorum_intersection :
    (j : JointMembership) (a b : List ℕ)
    → Disjoint a b j.old_voters ⊎ Disjoint a b j.new_voters
    → joint_quorum_reached j a ≡ true
    → joint_quorum_reached j b ≡ false
unfolding joint_quorum_reached
joint_quorum_intersection j a b (inl d) h = ground (arith, count-Disjoint a b j.old_voters d)
joint_quorum_intersection j a b (inr d) h = ground (arith, count-Disjoint a b j.new_voters d)

-- Where a joint quorum is reached, the old voters alone, or the new voters alone, with no witness,
-- reach no quorum by acknowledgements of which they share none with the joint ones.
pub joint-excludes-single :
    (j : JointMembership) (m : Membership) (a b : List ℕ)
    → (m.voters ≡ j.old_voters) ⊎ (m.voters ≡ j.new_voters)
    → m.witnesses ≡ []
    → Disjoint a b m.voters
    → joint_quorum_reached j a ≡ true
    → quorum_reached m b ≡ false
unfolding joint_quorum_reached quorum_reached
joint-excludes-single j m a b (inl v) w d h =
    rw (w, append-nil) (ground (arith, v, count-Disjoint a b m.voters d))
joint-excludes-single j m a b (inr v) w d h =
    rw (w, append-nil) (ground (arith, v, count-Disjoint a b m.voters d))
