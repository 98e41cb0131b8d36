-- ===== src/Cluster/Terms.antt =====
-- Terms and leaders: campaign and transfer_leader of RaftCluster (src/lib.rs).
use rust_raft.Cluster.Election.{
  VoteResponse, campaign, campaign_checks, check_candidate, finish_campaign, pre_vote,
  transfer_checks, transfer_leader, vote_for, win,
}
use rust_raft.Types.{Result-cases, Role, can_be_leader, ok}
use rust_raft.Base.BTreeMap.{get, get-map_values}
use rust_raft.Base.{
  Bool, Option-cases, add_u64, arith, false, inl, inr, refl, some, suc, true, u64_max, ℕ, ◌<◌, ◌≡◌,
  ◌≢◌, ◌≤◌,
}
use rust_raft.Node.{RaftNode, match_index, resting_role}
use rust_raft.Cluster.State.{Cluster}

-- Every node is in the map under its own id.
pub record HasIds (c : Cluster) : Type 0 where
  pub own_id : (k : ℕ) (n : RaftNode) → get k c.nodes ≡ some n → n.id ≡ k

-- What a node is after the candidate's victory.
pub record Follows (c : Cluster) (candidate k : ℕ) (n : RaftNode) : Type 0 where
  pub same_term : n.hard_state.current_term ≡ c.current_term
  pub one_vote : n.hard_state.voted_for ≡ some candidate
  pub leads : (k ≡ candidate) → n.raft_role ≡ Role.leader
  pub yields : (k ≢ candidate) → n.raft_role ≡ resting_role n.replica_role

win-Follows :
    (c : Cluster) (candidate k : ℕ) (n : RaftNode)
    → HasIds c
    → get k c.nodes ≡ some n
    → (n' : RaftNode) × ((get k (win c candidate).nodes ≡ some n')
        × Follows (win c candidate) candidate k n')
unfolding win vote_for
win-Follows c candidate k n v h =
    let term = add_u64 c.current_term 1 in
    (
      vote_for term candidate n,
      (
        get-map_values k (vote_for term candidate) c.nodes n h,
        record {
          same_term = refl;
          one_vote = refl;
          leads = λ e. ground (arith, v.own_id k n h);
          yields = λ e. ground (arith, v.own_id k n h);
        },
      ),
    )

campaign_checks-ok :
    (c : Cluster) (candidate : ℕ) (forced : Bool) {x : Unit {0}}
    → campaign_checks c candidate forced ≡ ok x
    → (m : RaftNode) × ((get candidate c.nodes ≡ some m)
        × (can_be_leader m.replica_role ≡ true)
        × (m.healthy ≡ true))
unfolding campaign_checks check_candidate
campaign_checks-ok c candidate forced h = elim (Option-cases (get candidate c.nodes)) [
  | inl e ↦ absurd (ground (arith, e))
  | inr (n, e) ↦ (n, (e, ground (arith, e), ground (arith, e)))
]

campaign-leader :
    (c : Cluster) (candidate : ℕ) (forced : Bool)
    → (campaign c candidate forced).1 ≡ ok tt
    → (campaign c candidate forced).0.leader_id ≡ some candidate
unfolding campaign
campaign-leader c candidate forced h = elim (Result-cases (campaign_checks c candidate forced)) [
  | inr (e, q) ↦ ground (arith, q)
  | inl (x, q) ↦ rw q
]

transfer_checks-ok :
    (c : Cluster) (target : ℕ) {x : Unit {0}}
    → transfer_checks c target ≡ ok x
    → (n : RaftNode) × ((get target c.nodes ≡ some n) × (c.commit_index ≤ match_index n))
unfolding transfer_checks check_candidate
transfer_checks-ok c target h = elim (Option-cases (get target c.nodes)) [
  | inl e ↦ absurd (ground (arith, e))
  | inr (n, e) ↦ (n, (e, ground (arith, e)))
]

-- A campaign that succeeds, from any term below 2^64 - 1 and with each node under its own id: the
-- candidate was a healthy voter; it leads, in the next term; and every node is in that term, has
-- its vote given to the candidate, and leads exactly if it is the candidate.
pub campaign-elects :
    (c : Cluster) (candidate : ℕ) (forced : Bool)
    → HasIds c
    → c.current_term < u64_max
    → (campaign c candidate forced).1 ≡ ok tt
    → let c' = (campaign c candidate forced).0 in
      (c'.leader_id ≡ some candidate)
      × (c'.current_term ≡ suc c.current_term)
      × ((m : RaftNode) × ((get candidate c.nodes ≡ some m)
            × (can_be_leader m.replica_role ≡ true)
            × (m.healthy ≡ true)))
      × ((k : ℕ) (n : RaftNode)
          → get k c.nodes ≡ some n
          → (n' : RaftNode) × ((get k c'.nodes ≡ some n') × Follows c' candidate k n'))
unfolding campaign
campaign-elects c candidate forced v b h =
    elim (Result-cases (campaign_checks c candidate forced)) [
      | inr (e, q) ↦ ground (arith, q)
      | inl (x, q) ↦ rw q (
        refl,
        omega arith,
        campaign_checks-ok c candidate forced q,
        λ k n g. win-Follows c candidate k n v g,
      )
    ]

-- A transfer that succeeds was to a node whose match index reaches the commit index, and that node
-- then leads.
pub transfer_leader-caught_up :
    (c : Cluster) (target : ℕ)
    → (transfer_leader c target).1 ≡ ok tt
    → (n : RaftNode) × ((get target c.nodes ≡ some n)
        × (c.commit_index ≤ match_index n)
        × ((transfer_leader c target).0.leader_id ≡ some target))
unfolding transfer_leader
transfer_leader-caught_up c target h = elim (Result-cases (transfer_checks c target)) [
  | inr (e, q) ↦ absurd (ground (arith, q))
  | inl (x, q) ↦
      let (n, held) = transfer_checks-ok c target q in
      (n, (held.0, held.1, rw q (campaign-leader c target true (rw q at h))))
]

-- A granted pre-vote has tested what a campaign of a running cluster tests.
campaign_checks_granted :
    (c : Cluster) (candidate : ℕ) (vote : VoteResponse)
    → c.is_running ≡ true
    → pre_vote c candidate ≡ ok vote
    → vote.vote_granted ≡ true
    → campaign_checks c candidate false ≡ ok tt
unfolding pre_vote campaign_checks check_candidate
campaign_checks_granted c candidate vote on answered granted =
    elim (Option-cases (get candidate c.nodes)) [
      | inl e ↦ absurd (ground (arith, e, answered))
      | inr (n, e) ↦ ground (arith, e, on, answered, granted)
    ]

pub campaign-granted :
    (c : Cluster) (candidate : ℕ) (vote : VoteResponse)
    → c.is_running ≡ true
    → pre_vote c candidate ≡ ok vote
    → vote.vote_granted ≡ true
    → (campaign c candidate false).0.leader_id ≡ some candidate
unfolding campaign
campaign-granted c candidate vote on answered granted =
    campaign-leader c candidate false
      (rw (campaign_checks_granted c candidate vote on answered granted, finish_campaign) refl)
